-- ===== src/Runtime/Result.antt =====
-- A result or the message with which a check of internal/runtime/spec.go or of
-- internal/httpapi (product_spec.go, server.go, app_lifecycle.go) returns, one constructor for each message (the keys that a
-- message quotes are left out).
use cloudmeter.Common.{◌≡◌, refl, Bool, true, false, Option, none, some}

pub data Fault : Type 0 where
  image_unpinned : Fault
  resources_missing cpu_out_of_range memory_out_of_range : Fault
  is_privileged host_network docker_socket : Fault
  system_disk_out_of_range data_volume_out_of_range : Fault
  volume_not_object volume_without_size volume_size_out_of_range : Fault
  options_not_object option_unsupported option_not_boolean : Fault
  command_not_array command_too_many command_blank command_argument_long command_too_long : Fault
  env_not_object env_too_many env_name env_not_string env_value_long env_too_long : Fault
  env_keys_not_array env_keys_too_many env_key_name env_key_duplicated env_key_no_default : Fault
  env_texts_not_object env_texts_too_many env_text : Fault
  secrets_not_array secrets_too_many secret_name secret_duplicated : Fault
  secret_texts_not_object secret_texts_too_many secret_text secret_text_undeclared : Fault
  editable_not_array editable_too_many editable_name editable_undeclared : Fault
  editable_duplicated secret_in_env : Fault
  volumes_not_array host_path volume_shape volume_name volume_path volume_duplicated : Fault
  dependencies_not_array dependencies_too_many dependency_shape dependency_fields : Fault
  dependency_key dependency_product dependency_slug dependency_required : Fault
  dependency_key_duplicated dependency_slug_duplicated : Fault
  container_port listeners_too_many listener_not_object listener_key listener_port : Fault
  listener_remark listener_mapping listener_primary : Fault
  path_invalid flag_not_boolean : Fault
  codes_not_array codes_too_many code_out_of_range health_number : Fault
  policy_not_string policy_unknown stateless_volumes : Fault
  cpu_fixed memory_fixed below_minimum capacity_fixed capacity_low command_fixed : Fault
  environment_fixed variable_fixed dependencies_fixed : Fault
  volume_removed capacity_fixed_below no_data_volume capacity_shrinks : Fault
  port_duplicated port_fixed port_out_of_range mapping_unavailable port_unknown : Fault

-- A value, or the message of the check that refused.
pub data Result {ℓ} (V : Type ℓ) : Type ℓ where
  fail : Fault → Result V
  ok : V → Result V

module _ {ℓ κ} {V : Type ℓ} {W : Type κ} where
  infixl 5 ◌>>=◌
  -- The rest of a check, where nothing was refused so far.
  abbrev pub ◌>>=◌ : Result V → (V → Result W) → Result W
  fail why >>= rest = fail why
  ok value >>= rest = rest value

  -- What was refused by neither part.
  pub bind-eq-ok :
      (checked : Result V) (rest : V → Result W) {w : W}
      → (checked >>= rest) ≡ ok w
      → (value : V) × (checked ≡ ok value) × (rest value ≡ ok w)
  bind-eq-ok (fail why) rest e = cc
  bind-eq-ok (ok value) rest e = (value, refl, e)

infixl 5 ◌>>◌
abbrev pub ◌>>◌ {ℓ} : {W : Type ℓ} → Result (Unit {0}) → Result W → Result W
check >> rest = check >>= λ _. rest

-- An early return with a message, when the test holds.
abbrev pub refuse : Bool → Fault → Result (Unit {0})
refuse false why = ok tt
refuse true why = fail why

-- The value, or an early return where there is none.
abbrev pub need {ℓ} : {V : Type ℓ} → Option V → Fault → Result V
need none why = fail why
need (some value) why = ok value

-- Past a test that refuses, the test is false.
pub refuse-eq-ok {ℓ} :
    {W : Type ℓ} (t : Bool) (why : Fault) (rest : Result W) {w : W}
    → (refuse t why >> rest) ≡ ok w
    → (t ≡ false) × (rest ≡ ok w)
refuse-eq-ok true why rest h = cc
refuse-eq-ok false why rest h = (refl, h)

pub ok-injective {ℓ} : {V : Type ℓ} (v w : V) → Result.ok v ≡ ok w → v ≡ w
ok-injective v w h = cc
