-- ===== src/VersionSpecs/Probe/Agrees.antt =====
-- The worker of apps/worker/main.go reads of a stored version what internal/httpapi/product_spec.go
-- has normalized.
use Prim.Native.String.{String}
use text.Mathlib.Text.{◌==◌ as same}
use mathlib.Core.Path.{subst}
use cloudmeter.Common.{
  ℕ, ◌≤◌, ◌≡◌, refl, sym, ap, ◌∙◌, true, false, Option, none, some, [], ◌∷◌, map, All, arith,
}
use cloudmeter.Common.Int.{ℤ}
use cloudmeter.Runtime.Float.{whole}
use cloudmeter.Runtime.Value.{
  Value, number, string, ints, Spec, find, get, set, numeric, or_null, find-set_ne, find-set_self,
}
use cloudmeter.Runtime.Result.{ok, bind-eq-ok, ok-injective}
use cloudmeter.VersionSpecs.Fields.{normalized_absolute_path}
use cloudmeter.VersionSpecs.Whole.{integer_between-bounds, number_or-whole}
use cloudmeter.VersionSpecs.Listeners.{}
use cloudmeter.VersionSpecs.Normalize.{
  normalized_accepted_status_codes, health_number_of, normalize_health_number,
  normalize_health_spec,
}
use cloudmeter.VersionSpecs.Probe.{
  reread, stored, number_or, health_timeout, health_interval, health_accepted_status_codes,
}
use cloudmeter.VersionSpecs.Probe.Codes.{normalized_accepted_status_codes-AreCodes, read_codes}

abbrev pub reread_field : Option Value → Option Value
reread_field none = none
reread_field (some v) = some (reread v)

pub find-stored : (k : String) (m : Spec) → find k (stored m) ≡ reread_field (find k m)
find-stored k [] = refl
find-stored k ((j, v) ∷ m) = ground (arith, find-stored k m)

pub find-stored-some :
    (k : String) (m : Spec) (v : Value) → find k m ≡ some v → find k (stored m) ≡ some (reread v)
find-stored-some k m v e = find-stored k m ∙ ap reread_field e

-- The number that a field gives, stored under its key; the other fields are kept.
normalize_health_number-find :
    (key : String) (initial most : ℕ) (spec out : Spec)
    → normalize_health_number key initial most spec ≡ ok out
    → (n : ℕ) × (health_number_of (find key spec) initial most ≡ ok n)
      × (out ≡ set key (number (whole n)) spec)
unfolding normalize_health_number
normalize_health_number-find key initial most spec out h =
    let (n, e, h1) = bind-eq-ok (health_number_of (find key spec) initial most) _ h in
    (n, e, sym (ok-injective (set key (number (whole n)) spec) out h1))

health_number_of-bounds :
    (field : Option Value) (initial most n : ℕ)
    → 1 ≤ initial
    → initial ≤ most
    → health_number_of field initial most ≡ ok n
    → (1 ≤ n) × (n ≤ most)
health_number_of-bounds none initial most n l h e = ground arith
health_number_of-bounds (some raw) initial most n l h e =
    integer_between-bounds 1 most raw n (ground arith)

-- The number that the normalization takes from a field is the worker's, between 1 and the most.
pub record IsRead (field : Option Value) (initial most : ℕ) (read : ℤ) : Type 0 where
  pub value : ℕ
  pub declared : health_number_of field initial most ≡ ok value
  pub positive : 1 ≤ value
  pub bounded : value ≤ most
  pub read_as : read ≡ ℤ.pos value

-- The worker's interval, time limit and status codes are those of the specification.
pub record AgreesOnHealth (spec out : Spec) : Type 0 where
  pub interval : IsRead (find "intervalSeconds" spec) 5 120 (health_interval (stored out))
  pub time_limit : IsRead (find "timeoutSeconds" spec) 5 30 (health_timeout (stored out))
  pub codes :
      normalized_accepted_status_codes (get "acceptedStatusCodes" spec)
      ≡ ok (health_accepted_status_codes (stored out))
  pub codes_bounded : All (λ c. (100 ≤ c) × (c ≤ 599)) (health_accepted_status_codes (stored out))

find-IsRead :
    (field : Option Value) (initial most n : ℕ) (found : Option Value)
    → 1 ≤ initial
    → initial ≤ most
    → most ≤ 65535
    → health_number_of field initial most ≡ ok n
    → found ≡ some (number (whole n))
    → IsRead field initial most (number_or (ℤ.pos 5) most (numeric (or_null found)))
find-IsRead field initial most n found l h s e f =
    let (low, high) = health_number_of-bounds field initial most n l h e in
    record {
      value = n;
      declared = e;
      positive = low;
      bounded = high;
      read_as =
          ap (λ v. number_or (ℤ.pos 5) most (numeric (or_null v))) f
          ∙ number_or-whole (ℤ.pos 5) most n low high s;
    }

-- What the worker reads of a health specification that the control plane has normalized and stored:
-- its interval from 1 to 120 seconds, its time limit from 1 to 30 seconds, each the number of the
-- field or 5 where it is missing, and its status codes, the normalized ones, from 100 to 599.
pub normalize_health_spec-AgreesOnHealth :
    (spec out : Spec) → normalize_health_spec spec ≡ ok out → AgreesOnHealth spec out
unfolding normalize_health_spec health_interval health_timeout
normalize_health_spec-AgreesOnHealth spec out h =
    let (path, p, h1) = bind-eq-ok (normalized_absolute_path (get "path" spec) true) _ h in
    let (cs, c, h2) =
      bind-eq-ok (normalized_accepted_status_codes (get "acceptedStatusCodes" spec)) _ h1 in
    let codes : Value = ints (map ℤ.pos cs) in
    let pathed = set "path" (string path) spec in
    let m = set "acceptedStatusCodes" codes pathed in
    let (timed, t, h3) = bind-eq-ok (normalize_health_number "intervalSeconds" 5 120 m) _ h2 in
    let (i, ei, si) = normalize_health_number-find "intervalSeconds" 5 120 m timed t in
    let (l, el, sl) = normalize_health_number-find "timeoutSeconds" 5 30 timed out h3 in
    let interval : Value = number (whole i) in
    let limit : Value = number (whole l) in
    let kept =
      λ (k : String) (no1 : same "path" k ≡ false) (no2 : same "acceptedStatusCodes" k ≡ false).
        find-set_ne k "acceptedStatusCodes" codes pathed no2
        ∙ find-set_ne k "path" (string path) spec no1 in
    let timed-limit =
      ap (find "timeoutSeconds") si
      ∙ find-set_ne "timeoutSeconds" "intervalSeconds" interval m refl
      ∙ kept "timeoutSeconds" refl refl in
    let out-interval =
      ap (find "intervalSeconds") sl
      ∙ find-set_ne "intervalSeconds" "timeoutSeconds" limit timed refl
      ∙ ap (find "intervalSeconds") si
      ∙ find-set_self "intervalSeconds" interval m in
    let out-limit = ap (find "timeoutSeconds") sl ∙ find-set_self "timeoutSeconds" limit timed in
    let out-codes =
      ap (find "acceptedStatusCodes") sl
      ∙ find-set_ne "acceptedStatusCodes" "timeoutSeconds" limit timed refl
      ∙ ap (find "acceptedStatusCodes") si
      ∙ find-set_ne "acceptedStatusCodes" "intervalSeconds" interval m refl
      ∙ find-set_self "acceptedStatusCodes" codes pathed in
    let good = normalized_accepted_status_codes-AreCodes (get "acceptedStatusCodes" spec) cs c in
    let read =
      read_codes (stored out) cs (find-stored-some "acceptedStatusCodes" out codes out-codes)
        good in
    record {
      interval =
          find-IsRead (find "intervalSeconds" spec) 5 120 i (find "intervalSeconds" (stored out))
            (omega arith) (omega arith) (omega arith)
            (ap (λ f. health_number_of f 5 120) (sym (kept "intervalSeconds" refl refl)) ∙ ei)
            (find-stored-some "intervalSeconds" out interval out-interval);
      time_limit =
          find-IsRead (find "timeoutSeconds" spec) 5 30 l (find "timeoutSeconds" (stored out))
            (omega arith) (omega arith) (omega arith)
            (ap (λ f. health_number_of f 5 30) (sym timed-limit) ∙ el)
            (find-stored-some "timeoutSeconds" out limit out-limit);
      codes = c ∙ ap ok (sym read);
      codes_bounded = subst (All (λ c. (100 ≤ c) × (c ≤ 599))) (sym read) good.1;
    }
