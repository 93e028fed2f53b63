-- ===== src/Runtime/Secrets/Options.antt =====
-- What `RuntimeSecretOptions` of internal/runtime/spec.go returns.
use Prim.Native.String.{String}
use text.Mathlib.Text.{◌==◌ as same}
use text.Mathlib.TextEquality.{eq_iff}
use mathlib.Core.Path.{subst}
use cloudmeter.Common.{
  ◌≡◌, refl, sym, ap, Bool, true, false, not, ◌||◌, Option, some, List, [], ◌∷◌, map, length, ltb,
  All, arith,
}
use cloudmeter.Runtime.Value.{
  Value, null, boolean, number, string, array, strings, ints, object, string_map, Spec, find,
  or_null, elements, as_values, member, Distinct,
}
use cloudmeter.Runtime.Fresh.{Fresh, Fresh-nil, Fresh-cons}
use cloudmeter.Runtime.Patterns.{is_secret_key}
use cloudmeter.Runtime.Result.{
  ok, ◌>>=◌, ◌>>◌, refuse, need, bind-eq-ok, refuse-eq-ok, ok-injective, secret_name,
  secrets_not_array, secrets_too_many, editable_name, editable_not_array, editable_too_many,
}
use cloudmeter.Runtime.Secrets.{
  SecretOption, secret_key_of, secret_keys, declared_secret_keys, runtime_secret_keys,
  secret_descriptions, all_known, editable_keys, editable_secret_keys, secret_option,
  runtime_secret_options,
}

abbrev pub keys_of : List SecretOption → List String
keys_of = map (λ (o : SecretOption). o.key)

-- The text of the key is among the values.
abbrev pub lists : String → List Value → Bool
lists k [] = false
lists k (string s ∷ vs) = same s k || lists k vs
lists k (_ ∷ vs) = lists k vs

-- Who may edit the secrets: everyone where the field is missing, and otherwise the users of the keys
-- that it lists.
pub data EditableBy : Value → List SecretOption → Type 0 where
  everyone :
      {os : List SecretOption}
      → All (λ (o : SecretOption). o.editable ≡ true) os
      → EditableBy null os
  chosen :
      {raw : Value} {vs : List Value} {os : List SecretOption}
      → as_values raw ≡ some vs
      → All (λ (o : SecretOption). o.editable ≡ lists o.key vs) os
      → EditableBy raw os

pub record AreOptions (spec : Spec) (os : List SecretOption) : Type 0 where
  pub declared : runtime_secret_keys spec ≡ ok (keys_of os)
  pub distinct : Distinct (keys_of os)
  pub valid : All (λ (o : SecretOption). is_secret_key o.key ≡ true) os
  pub editable : EditableBy (or_null (find "editableSecretKeys" spec)) os

secret_key_of-valid :
    (v : Value) (key : String)
    → secret_key_of v ≡ some key
    → (v ≡ string key) × (is_secret_key key ≡ true)
secret_key_of-valid v key e = ground arith

secret_keys-Fresh :
    (seen : List String) (vs : List Value) (keys : List String)
    → secret_keys seen vs ≡ ok keys
    → Fresh seen keys × All (λ k. is_secret_key k ≡ true) keys
unfolding secret_keys
secret_keys-Fresh seen [] keys h =
    subst (λ keys. Fresh seen keys × All (λ k. is_secret_key k ≡ true) keys)
      (ok-injective [] keys h) (Fresh-nil seen, tt)
secret_keys-Fresh seen (v ∷ vs) keys h =
    let (key, e, h1) = bind-eq-ok (need (secret_key_of v) secret_name) _ h in
    let (fresh, h2) = refuse-eq-ok (member key seen) _ _ h1 in
    let (rest, r, h3) = bind-eq-ok (secret_keys (key ∷ seen) vs) _ h2 in
    let (f, a) = secret_keys-Fresh (key ∷ seen) vs rest r in
    let found : secret_key_of v ≡ some key = ground arith in
    subst (λ keys. Fresh seen keys × All (λ k. is_secret_key k ≡ true) keys)
      (ok-injective (key ∷ rest) keys h3)
      (Fresh-cons key seen rest fresh f, ((secret_key_of-valid v key found).1, a))

abbrev AreKeys : List String → Type 0
AreKeys keys = Distinct keys × All (λ k. is_secret_key k ≡ true) keys

listed_secret_keys :
    (values : Option (List Value)) (keys : List String)
    → (do
      vs ← need values secrets_not_array
      refuse (ltb 64 (length vs)) secrets_too_many
      secret_keys [] vs)
      ≡ ok keys
    → AreKeys keys
listed_secret_keys values keys h =
    let (vs, e, h1) = bind-eq-ok (need values secrets_not_array) _ h in
    let (few, h2) = refuse-eq-ok (ltb 64 (length vs)) _ _ h1 in
    let (f, a) = secret_keys-Fresh [] vs keys h2 in (f.distinct, a)

declared_secret_keys-AreKeys :
    (raw : Value) (keys : List String) → declared_secret_keys raw ≡ ok keys → AreKeys keys
unfolding declared_secret_keys
declared_secret_keys-AreKeys null keys h = subst AreKeys (ok-injective [] keys h) (tt, tt)
declared_secret_keys-AreKeys (boolean b) keys h = cc
declared_secret_keys-AreKeys (number x) keys h = cc
declared_secret_keys-AreKeys (string s) keys h = cc
declared_secret_keys-AreKeys (array vs) keys h = listed_secret_keys (some (elements vs)) keys h
declared_secret_keys-AreKeys (strings ss) keys h = listed_secret_keys (some (map string ss)) keys h
declared_secret_keys-AreKeys (ints ns) keys h = cc
declared_secret_keys-AreKeys (object fs) keys h = cc
declared_secret_keys-AreKeys (string_map texts) keys h = cc

-- An editable key is one that was met before or that the values list.
editable_keys-lists :
    (known seen : List String) (vs : List Value) (es : List String) (k : String)
    → editable_keys known seen vs ≡ ok es
    → member k es ≡ (member k seen || lists k vs)
unfolding editable_keys
editable_keys-lists known seen [] es k h = ground (arith, ok-injective seen es h)
editable_keys-lists known seen (v ∷ vs) es k h =
    let (key, e, h1) = bind-eq-ok (need (secret_key_of v) editable_name) _ h in
    let (declared, h2) = refuse-eq-ok (not (member key known)) _ _ h1 in
    let (fresh, h3) = refuse-eq-ok (member key seen) _ _ h2 in
    let found : secret_key_of v ≡ some key = ground arith in
    let name = (secret_key_of-valid v key found).0 in
    let ih = editable_keys-lists known (key ∷ seen) vs es k h3 in rw name (ground arith)

module _ (texts : List (String × String)) where
  keys_of-options :
      (editable keys : List String) → keys_of (map (secret_option texts editable) keys) ≡ keys
  keys_of-options editable [] = refl
  keys_of-options editable (k ∷ ks) = ap (λ ks. k ∷ ks) (keys_of-options editable ks)

  options-All :
      (editable keys : List String) (P : SecretOption → Type 0)
      → All (λ k. P (secret_option texts editable k)) keys
      → All P (map (secret_option texts editable) keys)
  options-All editable [] P a = tt
  options-All editable (k ∷ ks) P (p, a) = (p, options-All editable ks P a)

member-All :
    (all ks : List String)
    → ((k : String) → member k ks ≡ true → member k all ≡ true)
    → All (λ k. member k all ≡ true) ks
member-All all [] f = tt
member-All all (k ∷ ks) f =
    (f k (ground (arith, eq_iff k k)), member-All all ks (λ j m. f j (ground arith)))

lists-All :
    (es : List String) (vs : List Value) (ks : List String)
    → ((k : String) → member k es ≡ lists k vs)
    → All (λ k. member k es ≡ lists k vs) ks
lists-All es vs [] f = tt
lists-All es vs (k ∷ ks) f = (f k, lists-All es vs ks f)

module _ (texts : List (String × String)) (keys : List String) where
  chosen_keys :
      (raw : Value) (vs : List Value) (es : List String)
      → as_values raw ≡ some vs
      → (do
        values ← need (some vs) editable_not_array
        refuse (ltb 64 (length values)) editable_too_many
        editable_keys keys [] values)
        ≡ ok es
      → EditableBy raw (map (secret_option texts es) keys)
  chosen_keys raw vs es e h =
      let (few, h1) = refuse-eq-ok (ltb 64 (length vs)) _ _ h in
      EditableBy.chosen e (
        options-All texts es keys (λ o. o.editable ≡ lists o.key vs)
          (lists-All es vs keys (λ k. editable_keys-lists keys [] vs es k h1)))

  editable_secret_keys-EditableBy :
      (raw : Value) (es : List String)
      → editable_secret_keys keys raw ≡ ok es
      → EditableBy raw (map (secret_option texts es) keys)
  unfolding editable_secret_keys
  editable_secret_keys-EditableBy null es h =
      subst (λ es. EditableBy null (map (secret_option texts es) keys)) (ok-injective keys es h)
        (EditableBy.everyone
          (options-All texts keys keys (λ o. o.editable ≡ true) (member-All keys keys (λ k m. m))))
  editable_secret_keys-EditableBy (boolean b) es h = cc
  editable_secret_keys-EditableBy (number x) es h = cc
  editable_secret_keys-EditableBy (string s) es h = cc
  editable_secret_keys-EditableBy (array vs) es h = chosen_keys (array vs) (elements vs) es refl h
  editable_secret_keys-EditableBy (strings ss) es h =
      chosen_keys (strings ss) (map string ss) es refl h
  editable_secret_keys-EditableBy (ints ns) es h = cc
  editable_secret_keys-EditableBy (object fs) es h = cc
  editable_secret_keys-EditableBy (string_map texts') es h = cc

-- The options that `RuntimeSecretOptions` returns have the keys that `RuntimeSecretKeys` returns, in
-- the same order, all valid and distinct; and an option is editable exactly when `editableSecretKeys`
-- is missing or nil, or is an array that lists its key.
pub runtime_secret_options-AreOptions :
    (spec : Spec) (os : List SecretOption)
    → runtime_secret_options spec ≡ ok os
    → AreOptions spec os
unfolding runtime_secret_options runtime_secret_keys
runtime_secret_options-AreOptions spec os h =
    let (keys, e, h1) = bind-eq-ok (runtime_secret_keys spec) _ h in
    let (texts, t, h2) =
      bind-eq-ok (secret_descriptions (or_null (find "secretDescriptions" spec))) _ h1 in
    let (known, h3) = refuse-eq-ok (not (all_known keys texts)) _ _ h2 in
    let (es, r, h4) =
      bind-eq-ok (editable_secret_keys keys (or_null (find "editableSecretKeys" spec))) _ h3 in
    let (d, a) = declared_secret_keys-AreKeys (or_null (find "secretKeys" spec)) keys e in
    let same = keys_of-options texts es keys in
    subst (AreOptions spec) (ok-injective (map (secret_option texts es) keys) os h4) (record {
      declared = subst (λ ks. runtime_secret_keys spec ≡ ok ks) (sym same) e;
      distinct = subst Distinct (sym same) d;
      valid = options-All texts es keys (λ o. is_secret_key o.key ≡ true) a;
      editable =
          editable_secret_keys-EditableBy texts keys (or_null (find "editableSecretKeys" spec)) es
            r;
    })
