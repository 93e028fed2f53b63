-- ===== src/Runtime/Tests.antt =====
-- The checks of internal/runtime/spec.go at concrete specifications.
use Prim.Native.String.{String}
use cloudmeter.Common.{ℕ, ◌≡◌, ◌≢◌, ◌↔◌, refl, true, false, none, some, List, [], ◌∷◌, arith}
use cloudmeter.Common.Text.{all_chars, byte_len, trim_left, trim_right, trim_space, is_space}
use cloudmeter.Runtime.Float.{whole, unit}
use cloudmeter.Runtime.Value.{Value, boolean, number, string, array, object, items, fields, Spec}
use cloudmeter.Runtime.Patterns.{
  is_volume_key, is_environment_key, is_secret_key, is_service_slug, is_uuid, has_prefix, contains,
  equal_fold, has_pin, is_image_reference, validate_image_digest,
}
use cloudmeter.Runtime.Result.{
  ok, fail, is_privileged, host_network, volume_duplicated, secret_in_env, image_unpinned,
}
use cloudmeter.Runtime.Resources.{
  tenth, runtime_resources, volume_size, data_disk, runtime_storage, runtime_data_volume_gib,
}
use cloudmeter.Runtime.Resources.Capacity.{IsCapacity, runtime_data_volume_gib-IsCapacity}
use cloudmeter.Runtime.Secrets.{
  SecretOption, secret_keys, declared_secret_keys, runtime_secret_keys, secret_descriptions,
  editable_keys, editable_secret_keys, runtime_secret_options,
}
use cloudmeter.Runtime.Secrets.Options.{AreOptions, runtime_secret_options-AreOptions}
use cloudmeter.Runtime.Dependencies.{
  Dependency, dependency, dependencies, declared_dependencies, runtime_dependencies,
}
use cloudmeter.Runtime.Dependencies.Exact.{Declares, runtime_dependencies_iff}
use cloudmeter.Runtime.Settings.{
  check_options, validate_options, arguments, runtime_command, environment_size,
  validate_environment, validate_environment_keys, validate_environment_texts,
}
use cloudmeter.Runtime.Volumes.{is_bad_mount, volume_entry, check_volumes, validate_volumes}
use cloudmeter.Runtime.Validate.{
  is_host, validate_isolation, validate_environment_settings, validate_secrets,
  validate_runtime_spec,
}
use cloudmeter.Runtime.Validate.Sound.{IsSafe, validate_runtime_spec-IsSafe}
use cloudmeter.Runtime.Names.{
  without_dashes, compact, has_suffix, app_volume_name, uses_legacy_resource_names,
  resource_scope_token, user_network_name, app_volume_name_for_owner, backup_volume_name,
  helper_container_name,
}
use cloudmeter.Runtime.Names.Apart.{app_volume_name_for_owner-ne}

abbrev volume : String → String → ℕ → Value
volume name path size = object (
    fields
      (("name", string name) ∷ ("mountPath", string path) ∷ ("sizeGiB", number (whole size)) ∷ []))

abbrev database : Value
database = object (
    fields (
      ("key", string "db")
      ∷ ("productId", string "0190aaaa-0000-4000-8000-00000000000a")
      ∷ ("serviceSlug", string "postgres")
      ∷ ("required", boolean true)
      ∷ []))

abbrev web_spec : Spec
web_spec =
    ("cpuCores", number (whole 2))
    ∷ ("memoryMiB", number (whole 512))
    ∷ ("env", object (fields (("MODE", string "live") ∷ [])))
    ∷ ("secretKeys", array (items (string "API_KEY" ∷ string "DB_PASSWORD" ∷ [])))
    ∷ ("editableSecretKeys", array (items (string "API_KEY" ∷ [])))
    ∷ ("volumes", array (items (volume "data" "/data" 20 ∷ volume "logs" "/var/log" 10 ∷ [])))
    ∷ ("dependencies", array (items (database ∷ [])))
    ∷ []

accepts : validate_runtime_spec web_spec ≡ ok tt
unfolding validate_runtime_spec runtime_resources runtime_storage data_disk volume_size tenth unit
    validate_isolation is_host equal_fold validate_options check_options runtime_command arguments
    validate_environment_settings validate_environment environment_size validate_environment_keys
    validate_environment_texts validate_secrets runtime_secret_keys declared_secret_keys secret_keys
    runtime_secret_options secret_descriptions editable_secret_keys editable_keys validate_volumes
    check_volumes volume_entry is_bad_mount has_prefix contains is_volume_key is_environment_key
    is_secret_key is_service_slug is_uuid all_chars byte_len runtime_dependencies
    declared_dependencies dependencies dependency
accepts = refl

refuses_privileged :
    validate_runtime_spec (("privileged", boolean true) ∷ web_spec) ≡ fail is_privileged
unfolding validate_runtime_spec runtime_resources tenth unit validate_isolation
refuses_privileged = refl

refuses_host_network :
    validate_isolation (("networkMode", string "Host") ∷ web_spec) ≡ fail host_network
unfolding validate_isolation is_host equal_fold
refuses_host_network = refl

refuses_second_mount :
    validate_volumes (some (array (items (volume "data" "/data" 1 ∷ volume "logs" "/data" 1 ∷ []))))
    ≡ fail volume_duplicated
unfolding validate_volumes check_volumes volume_entry is_bad_mount has_prefix contains is_volume_key
    all_chars
refuses_second_mount = refl

refuses_secret_variable :
    validate_secrets (("env", object (fields (("API_KEY", string "x") ∷ []))) ∷ web_spec)
    ≡ fail secret_in_env
unfolding validate_secrets runtime_secret_keys declared_secret_keys secret_keys
    runtime_secret_options secret_descriptions editable_secret_keys editable_keys is_secret_key
    all_chars
refuses_secret_variable = refl

images :
    (validate_image_digest " nginx:1.27 " ≡ ok tt)
    × (validate_image_digest "nginx" ≡ fail image_unpinned)
    × (validate_image_digest "https://x/nginx:1.27" ≡ fail image_unpinned)
    × (validate_image_digest
          "r.io/a/b@sha256:0123456789abcdef0123456789abcdef0123456789abcdef0123456789abcdef"
        ≡ ok tt)
unfolding validate_image_digest trim_space trim_left trim_right is_space contains has_prefix
    is_image_reference has_pin all_chars
images = (refl, refl, refl, refl)

-- The last volume counts, not the largest: 10 GiB of 20 and 10.
undeclared_capacity : runtime_data_volume_gib web_spec false ≡ ok (whole 10)
unfolding runtime_data_volume_gib runtime_storage data_disk volume_size unit
undeclared_capacity = refl

validate_runtime_spec-IsSafe_example : IsSafe web_spec
validate_runtime_spec-IsSafe_example = validate_runtime_spec-IsSafe web_spec accepts

runtime_data_volume_gib-IsCapacity_example :
    IsCapacity (volume "data" "/data" 20) (volume "logs" "/var/log" 10 ∷ []) none (whole 10)
runtime_data_volume_gib-IsCapacity_example =
    runtime_data_volume_gib-IsCapacity web_spec false (volume "data" "/data" 20)
      (volume "logs" "/var/log" 10 ∷ []) (whole 10) refl undeclared_capacity

abbrev database_dependency : Dependency
database_dependency = record {
  key = "db";
  product_id = "0190aaaa-0000-4000-8000-00000000000a";
  service_slug = "postgres";
  required = true;
}

depends : runtime_dependencies web_spec ≡ ok (database_dependency ∷ [])
unfolding runtime_dependencies declared_dependencies dependencies dependency is_volume_key is_uuid
    is_service_slug all_chars
depends = refl

runtime_dependencies_iff_example :
    (runtime_dependencies web_spec ≡ ok (database_dependency ∷ []))
    ↔ Declares (some (array (items (database ∷ [])))) (database_dependency ∷ [])
runtime_dependencies_iff_example = runtime_dependencies_iff web_spec (database_dependency ∷ [])

abbrev web_options : List SecretOption
web_options =
    record { key = "API_KEY"; description = ""; editable = true }
    ∷ record { key = "DB_PASSWORD"; description = ""; editable = false }
    ∷ []

secrets : runtime_secret_options web_spec ≡ ok web_options
unfolding runtime_secret_options runtime_secret_keys declared_secret_keys secret_keys
    secret_descriptions editable_secret_keys editable_keys is_secret_key all_chars
secrets = refl

runtime_secret_options-AreOptions_example : AreOptions web_spec web_options
runtime_secret_options-AreOptions_example =
    runtime_secret_options-AreOptions web_spec web_options secrets

abbrev digest : String → String
digest s = "0123456789"

abbrev app_id : String
app_id = "0190aaaa-0000-4000-8000-00000000000a"

names :
    (app_volume_name_for_owner digest "" app_id "data" ≡ "cmv-0190aaaa000040008000-data")
    × (app_volume_name_for_owner digest "staging" app_id "data"
        ≡ "cmv-0123456789-0190aaaa000040008000-data")
    × (user_network_name digest "staging" "u1" ≡ "user_net_0123456789-u1")
    × (backup_volume_name digest "staging" " " ≡ "cloudmeter_backup_0123456789")
    × (backup_volume_name digest "staging" "mine_0123456789" ≡ "mine_0123456789")
    × (helper_container_name digest "staging" "backup" "j1" ≡ "cm-backup-0123456789-j1")
unfolding app_volume_name_for_owner app_volume_name compact without_dashes
    uses_legacy_resource_names trim_space trim_left trim_right is_space equal_fold
    resource_scope_token user_network_name backup_volume_name has_suffix helper_container_name
names = (refl, refl, refl, refl, refl, refl)

app_volume_name_for_owner-ne_example :
    app_volume_name_for_owner digest "cloudmeter" app_id "data"
    ≢ app_volume_name_for_owner digest "staging" app_id "data"
unfolding compact without_dashes uses_legacy_resource_names trim_space trim_left trim_right is_space
    equal_fold
app_volume_name_for_owner-ne_example =
    app_volume_name_for_owner-ne digest "cloudmeter" "staging" app_id app_id "data" "data"
      (λ s. refl) refl refl (omega arith)
