-- ===== src/Runtime/Secrets.antt =====
-- `RuntimeSecretKeys` and `RuntimeSecretOptions` of internal/runtime/spec.go.
pub mod Options
use Prim.Native.String.{String}
use cloudmeter.Common.{
  ℕ, Bool, true, false, not, ◌&&◌, ◌||◌, Option, none, some, List, [], ◌∷◌, map, length, ltb,
  if◌then◌else◌,
}
use cloudmeter.Common.Text.{byte_len}
use cloudmeter.Runtime.Value.{
  Value, null, array, strings, object, string_map, Spec, find, or_null, as_values, as_string,
  member, text_or_empty, entries, text_of,
}
use cloudmeter.Runtime.Resources.{is_missing}
use cloudmeter.Runtime.Patterns.{is_secret_key}
use cloudmeter.Runtime.Result.{
  Result, ok, fail, ◌>>=◌, ◌>>◌, refuse, need, secrets_not_array, secrets_too_many, secret_name,
  secret_duplicated, secret_texts_not_object, secret_texts_too_many, secret_text,
  secret_text_undeclared, editable_not_array, editable_too_many, editable_name, editable_undeclared,
  editable_duplicated,
}

pub record SecretOption : Type 0 where
  pub key : String
  pub description : String
  pub editable : Bool

-- A text that matches `secretKeyPattern`.
abbrev pub secret_key_of : Value → Option String
secret_key_of v = elim (as_string v) [
  | none ↦ none
  | some key ↦ if is_secret_key key then some key else none
]

-- The loop over the declared keys, `seen` the keys before.
unfoldable pub secret_keys : List String → List Value → Result (List String)
unfolding is_secret_key
secret_keys seen [] = ok []
secret_keys seen (v ∷ vs) = do
  key ← need (secret_key_of v) secret_name
  refuse (member key seen) secret_duplicated
  keys ← secret_keys (key ∷ seen) vs
  ok (key ∷ keys)

unfoldable pub declared_secret_keys : Value → Result (List String)
unfolding secret_keys
declared_secret_keys null = ok []
declared_secret_keys raw = do
  values ← need (as_values raw) secrets_not_array
  refuse (ltb 64 (length values)) secrets_too_many
  secret_keys [] values

-- `raw, exists := spec[key]; !exists || raw == nil` reads as nil.
unfoldable pub runtime_secret_keys : Spec → Result (List String)
unfolding declared_secret_keys
runtime_secret_keys spec = declared_secret_keys (or_null (find "secretKeys" spec))

-- The entries of an object of descriptions, each one checked.
unfoldable pub secret_texts : Spec → Result (List (String × String))
unfolding is_secret_key byte_len
secret_texts [] = ok []
secret_texts ((key, v) ∷ fields) = do
  refuse (is_missing (as_string v) || not (is_secret_key key) || ltb 500 (byte_len (text_of v)))
      secret_text
  rest ← secret_texts fields
  ok ((key, text_of v) ∷ rest)

unfoldable pub secret_descriptions : Value → Result (List (String × String))
unfolding secret_texts
secret_descriptions null = ok []
secret_descriptions (string_map texts) = ok texts
secret_descriptions (object fs) = do
  refuse (ltb 64 (length (entries fs))) secret_texts_too_many
  secret_texts (entries fs)
secret_descriptions v = fail secret_texts_not_object

abbrev pub all_known : List String → List (String × String) → Bool
all_known keys [] = true
all_known keys ((k, _) ∷ texts) = member k keys && all_known keys texts

-- The loop over the keys that users may edit.
unfoldable pub editable_keys : List String → List String → List Value → Result (List String)
unfolding is_secret_key
editable_keys known seen [] = ok seen
editable_keys known seen (v ∷ vs) = do
  key ← need (secret_key_of v) editable_name
  refuse (not (member key known)) editable_undeclared
  refuse (member key seen) editable_duplicated
  editable_keys known (key ∷ seen) vs

unfoldable pub editable_secret_keys : List String → Value → Result (List String)
unfolding editable_keys
editable_secret_keys keys null = ok keys
editable_secret_keys keys raw = do
  values ← need (as_values raw) editable_not_array
  refuse (ltb 64 (length values)) editable_too_many
  editable_keys keys [] values

-- `descriptions[key]`, the empty text when it is missing.
abbrev pub secret_option : List (String × String) → List String → String → SecretOption
secret_option texts editable key = record {
  key = key;
  description = text_or_empty (find key texts);
  editable = member key editable;
}

unfoldable pub runtime_secret_options : Spec → Result (List SecretOption)
unfolding runtime_secret_keys secret_descriptions editable_secret_keys
runtime_secret_options spec = do
  keys ← runtime_secret_keys spec
  texts ← secret_descriptions (or_null (find "secretDescriptions" spec))
  refuse (not (all_known keys texts)) secret_text_undeclared
  editable ← editable_secret_keys keys (or_null (find "editableSecretKeys" spec))
  ok (map (secret_option texts editable) keys)
