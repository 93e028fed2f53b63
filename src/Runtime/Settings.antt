-- ===== src/Runtime/Settings.antt =====
-- The command, the environment and the options that a specification lets its users edit:
-- `RuntimeCommand` and the checks of `ValidateRuntimeSpec` in internal/runtime/spec.go.
use Prim.Native.String.{String}
use cloudmeter.Common.{ℕ, ◌+◌, not, ◌||◌, Option, none, some, List, [], ◌∷◌, length, ltb}
use cloudmeter.Common.Text.{byte_len, trim_space, is_empty}
use cloudmeter.Runtime.Value.{
  Value, null, Spec, find, get, or_null, as_values, as_array, as_object, as_string, as_boolean,
  member, text_of,
}
use cloudmeter.Runtime.Resources.{is_missing}
use cloudmeter.Runtime.Dependencies.{text_where}
use cloudmeter.Runtime.Patterns.{is_environment_key}
use cloudmeter.Runtime.Result.{
  Result, ok, ◌>>=◌, ◌>>◌, refuse, need, options_not_object, option_unsupported, option_not_boolean,
  command_not_array, command_too_many, command_blank, command_argument_long, command_too_long,
  env_not_object, env_too_many, env_name, env_not_string, env_value_long, env_too_long,
  env_keys_not_array, env_keys_too_many, env_key_name, env_key_duplicated, env_key_no_default,
  env_texts_not_object, env_texts_too_many, env_text,
}

-- The `allowed` options.
abbrev pub editable_options : List String
editable_options = "cpu" ∷ "memory" ∷ "dataVolume" ∷ "command" ∷ "dependencies" ∷ "environment" ∷ []

unfoldable pub check_options : Spec → Result (Unit {0})
check_options [] = ok tt
check_options ((key, v) ∷ options) = do
  refuse (not (member key editable_options)) option_unsupported
  refuse (is_missing (as_boolean v)) option_not_boolean
  check_options options

unfoldable pub validate_options : Option Value → Result (Unit {0})
unfolding check_options
validate_options none = ok tt
validate_options (some raw) = do
  options ← need (as_object raw) options_not_object
  check_options options

-- The loop over the arguments, which adds up their bytes.
unfoldable pub arguments : List Value → Result (List String × ℕ)
unfolding trim_space byte_len
arguments [] = ok ([], 0)
arguments (v ∷ vs) = do
  value ← need (text_where (λ s. not (is_empty (trim_space s))) v) command_blank
  refuse (ltb 4096 (byte_len value)) command_argument_long
  rest ← arguments vs
  ok (value ∷ rest.0, byte_len value + rest.1)

abbrev pub bounded_command : List String × ℕ → Result (List String)
bounded_command (command, total) = do refuse (ltb 16384 total) command_too_long; ok command

unfoldable pub runtime_command : Spec → Result (List String)
unfolding arguments
runtime_command spec = elim (or_null (find "command" spec)) [
  | null ↦ ok []
  | raw ↦ do
    values ← need (as_values raw) command_not_array
    refuse (ltb 64 (length values)) command_too_many
    parsed ← arguments values
    bounded_command parsed
]

-- The loop over the variables: the bytes of their names and values.
unfoldable pub environment_size : Spec → Result ℕ
unfolding is_environment_key byte_len
environment_size [] = ok 0
environment_size ((key, v) ∷ variables) = do
  refuse (not (is_environment_key key)) env_name
  value ← need (as_string v) env_not_string
  refuse (ltb 4096 (byte_len value)) env_value_long
  rest ← environment_size variables
  ok (byte_len key + byte_len value + rest)

unfoldable pub validate_environment : Option Value → Result (Unit {0})
unfolding environment_size
validate_environment none = ok tt
validate_environment (some raw) = do
  variables ← need (as_object raw) env_not_object
  refuse (ltb 128 (length variables)) env_too_many
  total ← environment_size variables
  refuse (ltb 32768 total) env_too_long

abbrev pub fields_or_none : Option Spec → Spec
fields_or_none none = []
fields_or_none (some fs) = fs

-- `spec["env"].(map[string]any)`, the empty map where it is none.
abbrev pub environment : Spec → Spec
environment spec = fields_or_none (as_object (get "env" spec))

unfoldable pub check_environment_keys : Spec → List String → List Value → Result (Unit {0})
unfolding is_environment_key
check_environment_keys variables seen [] = ok tt
check_environment_keys variables seen (v ∷ vs) = do
  key ← need (text_where is_environment_key v) env_key_name
  refuse (member key seen) env_key_duplicated
  refuse (is_missing (find key variables)) env_key_no_default
  check_environment_keys variables (key ∷ seen) vs

unfoldable pub validate_environment_keys : Spec → Option Value → Result (Unit {0})
unfolding check_environment_keys
validate_environment_keys variables none = ok tt
validate_environment_keys variables (some raw) = do
  values ← need (as_array raw) env_keys_not_array
  refuse (ltb 128 (length values)) env_keys_too_many
  check_environment_keys variables [] values

unfoldable pub check_environment_texts : Spec → Result (Unit {0})
unfolding is_environment_key byte_len
check_environment_texts [] = ok tt
check_environment_texts ((key, v) ∷ texts) = do
  refuse
      (is_missing (as_string v) || not (is_environment_key key) || ltb 500 (byte_len (text_of v)))
      env_text
  check_environment_texts texts

unfoldable pub validate_environment_texts : Option Value → Result (Unit {0})
unfolding check_environment_texts
validate_environment_texts none = ok tt
validate_environment_texts (some raw) = do
  texts ← need (as_object raw) env_texts_not_object
  refuse (ltb 128 (length texts)) env_texts_too_many
  check_environment_texts texts
