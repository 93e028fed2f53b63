-- ===== src/VersionSpecs/Probe/Codes.antt =====
-- The status codes that apps/worker/main.go reads of a version that internal/httpapi/product_spec.go
-- has normalized.
use mathlib.Core.Path.{subst}
use cloudmeter.Common.{
  ℕ, ◌≤◌, ◌≡◌, refl, ap, inl, inr, Option, some, List, [], ◌∷◌, map, All, length, ltb, arith,
  Bool-cases, if◌then◌else◌,
}
use cloudmeter.Common.Int.{ℤ}
use cloudmeter.Runtime.Value.{
  Value, null, boolean, number, string, array, strings, ints, object, string_map, items, elements,
  elements-items, Spec, find,
}
use cloudmeter.Runtime.Result.{
  ok, ◌>>=◌, ◌>>◌, need, refuse, bind-eq-ok, refuse-eq-ok, ok-injective, code_out_of_range,
  codes_not_array, codes_too_many,
}
use cloudmeter.VersionSpecs.Fields.{integer_between}
use cloudmeter.VersionSpecs.Whole.{integer_between-bounds, exact_integer-whole}
use cloudmeter.VersionSpecs.Listeners.{met}
use cloudmeter.VersionSpecs.Normalize.{status_codes, normalized_accepted_status_codes, int_value}
use cloudmeter.VersionSpecs.Probe.{collect, status_code, health_accepted_status_codes}

abbrev pub AreCodes : List ℕ → Type 0
AreCodes cs = (collect [] (map some cs) ≡ cs) × All (λ c. (100 ≤ c) × (c ≤ 599)) cs

-- The codes that are accepted are distinct, and the worker's loop keeps all of them.
status_codes-collect :
    (seen : List ℕ) (vs : List Value) (cs : List ℕ)
    → status_codes seen vs ≡ ok cs
    → (collect seen (map some cs) ≡ cs) × All (λ c. (100 ≤ c) × (c ≤ 599)) cs
unfolding status_codes
status_codes-collect seen [] cs h =
    subst (λ cs. (collect seen (map some cs) ≡ cs) × All (λ c. (100 ≤ c) × (c ≤ 599)) cs)
      (ok-injective [] cs h) (refl, tt)
status_codes-collect seen (v ∷ vs) cs h =
    let (code, e, h1) = bind-eq-ok (need (integer_between 100 599 v) code_out_of_range) _ h in
    let bounds = integer_between-bounds 100 599 v code (ground arith) in
    let (rest, r, h2) =
      bind-eq-ok (status_codes (if met code seen then seen else code ∷ seen) vs) _ h1 in
    let ih = status_codes-collect (if met code seen then seen else code ∷ seen) vs rest r in
    let whole : List ℕ = if met code seen then rest else code ∷ rest in
    subst (λ cs. (collect seen (map some cs) ≡ cs) × All (λ c. (100 ≤ c) × (c ≤ 599)) cs)
      (ok-injective whole cs h2) (kept code rest bounds ih)
  where
    kept :
        (code : ℕ) (rest : List ℕ)
        → (100 ≤ code) × (code ≤ 599)
        → (collect (if met code seen then seen else code ∷ seen) (map some rest) ≡ rest)
          × All (λ c. (100 ≤ c) × (c ≤ 599)) rest
        → let whole : List ℕ = if met code seen then rest else code ∷ rest in
          (collect seen (map some whole) ≡ whole) × All (λ c. (100 ≤ c) × (c ≤ 599)) whole
    kept code rest b (e, a) = elim (Bool-cases (met code seen)) [
      | inl m ↦ rw m (rw m at e, a)
      | inr m ↦ rw m (rw m (ap (λ r. code ∷ r) (rw m at e)), (b, a))
    ]

status_code-whole : (c : ℕ) → (100 ≤ c) × (c ≤ 599) → status_code (int_value (ℤ.pos c)) ≡ some c
status_code-whole c b = rw (exact_integer-whole c (omega arith)) (ground arith)

map-status_code :
    (cs : List ℕ)
    → All (λ c. (100 ≤ c) × (c ≤ 599)) cs
    → map status_code (map int_value (map ℤ.pos cs)) ≡ map some cs
map-status_code [] a = refl
map-status_code (c ∷ cs) (b, a) = cc (status_code-whole c b, map-status_code cs a)

listed_codes :
    (values : Option (List Value)) (cs : List ℕ)
    → (do
      vs ← need values codes_not_array
      refuse (ltb 32 (length vs)) codes_too_many
      status_codes [] vs)
      ≡ ok cs
    → AreCodes cs
listed_codes values cs h =
    let (vs, e, h1) = bind-eq-ok (need values codes_not_array) _ h in
    let (few, h2) = refuse-eq-ok (ltb 32 (length vs)) _ _ h1 in status_codes-collect [] vs cs h2

pub normalized_accepted_status_codes-AreCodes :
    (raw : Value) (cs : List ℕ) → normalized_accepted_status_codes raw ≡ ok cs → AreCodes cs
unfolding normalized_accepted_status_codes
normalized_accepted_status_codes-AreCodes null cs h =
    subst AreCodes (ok-injective [] cs h) (refl, tt)
normalized_accepted_status_codes-AreCodes (boolean b) cs h = cc
normalized_accepted_status_codes-AreCodes (number x) cs h = cc
normalized_accepted_status_codes-AreCodes (string s) cs h = cc
normalized_accepted_status_codes-AreCodes (array vs) cs h = listed_codes (some (elements vs)) cs h
normalized_accepted_status_codes-AreCodes (strings ss) cs h = cc
normalized_accepted_status_codes-AreCodes (ints ns) cs h =
    listed_codes (some (map int_value ns)) cs h
normalized_accepted_status_codes-AreCodes (object fs) cs h = cc
normalized_accepted_status_codes-AreCodes (string_map texts) cs h = cc

pub read_codes :
    (m : Spec) (cs : List ℕ)
    → find "acceptedStatusCodes" m ≡ some (array (items (map int_value (map ℤ.pos cs))))
    → AreCodes cs
    → health_accepted_status_codes m ≡ cs
unfolding health_accepted_status_codes
read_codes m cs f (e, a) =
    rw (f, elements-items (map int_value (map ℤ.pos cs)), map-status_code cs a) e
