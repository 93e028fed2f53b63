-- ===== src/Selection/Tests.antt =====
-- The choices of a user at concrete templates.
use cloudmeter.Common.{ℕ, ◌≡◌, ◌≢◌, refl, true, false, none, some, List, [], ◌∷◌}
use cloudmeter.Common.Int.{ℤ}
use cloudmeter.Common.Text.{all_chars, byte_len, trim_left, trim_right, trim_space, is_space}
use cloudmeter.Runtime.Float.{whole, unit}
use cloudmeter.Runtime.Value.{Value, boolean, number, string, array, object, items, fields, Spec}
use cloudmeter.Runtime.Patterns.{is_volume_key, is_environment_key, has_prefix, contains}
use cloudmeter.Runtime.Result.{
  ok, fail, capacity_fixed, memory_fixed, below_minimum, variable_fixed, port_fixed,
}
use cloudmeter.Runtime.Resources.{
  tenth, runtime_resources, volume_size, data_disk, runtime_storage, runtime_data_volume_gib,
}
use cloudmeter.Runtime.Secrets.{
  declared_secret_keys, runtime_secret_keys, secret_descriptions, editable_secret_keys,
  runtime_secret_options,
}
use cloudmeter.Runtime.Dependencies.{declared_dependencies, runtime_dependencies}
use cloudmeter.Runtime.Settings.{
  check_options, validate_options, runtime_command, environment_size, validate_environment,
  check_environment_keys, validate_environment_keys, validate_environment_texts,
}
use cloudmeter.Runtime.Volumes.{
  is_bad_mount, volume_entry, check_volumes, validate_volumes, mounts, volume_mounts,
}
use cloudmeter.Runtime.Validate.{
  is_host, validate_isolation, validate_environment_settings, validate_secrets,
  validate_runtime_spec,
}
use cloudmeter.VersionSpecs.Fields.{
  to_int, exact_integer, integer_between, absolute_path, normalized_absolute_path,
  normalized_boolean,
}
use cloudmeter.VersionSpecs.Listeners.{
  RouteListener, encode_route_listeners, parse_listener, parse_listeners, declared_listeners,
  route_listeners,
}
use cloudmeter.VersionSpecs.Normalize.{
  normalize_mapping, with_listeners, with_base_path, normalize_route_spec,
}
use cloudmeter.Selection.Steps.{
  SelectedResources, editable_runtime_option, choose_compute, choose_capacity, choose_command,
  set_variables, choose_environment, choose_dependencies, selected_runtime_spec,
}
use cloudmeter.Selection.Contract.{Honours}
use cloudmeter.Selection.Contract.Sound.{selected_runtime_spec-Honours}
use cloudmeter.Selection.Update.{
  update_capacity, update_environment, update_selection, runtime_spec_for_update,
}
use cloudmeter.Selection.Update.Legacy.{runtime_spec_for_update-refuses}
use cloudmeter.Selection.Routes.{
  SelectedListenerPort, SelectedPorts, requested_ports, apply_choice, choose_listeners,
  selected_route_spec,
}
use cloudmeter.Selection.Routes.Sound.{HonoursRoute, selected_route_spec-HonoursRoute}

abbrev volume : ℕ → Value
volume size = object (
    fields (
      ("name", string "data")
      ∷ ("mountPath", string "/data")
      ∷ ("sizeGiB", number (whole size))
      ∷ []))

-- A template as the first releases had it, without options.
abbrev legacy_template : Spec
legacy_template =
    ("cpuCores", number (whole 1))
    ∷ ("memoryMiB", number (whole 512))
    ∷ ("volumes", array (items (volume 10 ∷ [])))
    ∷ ("env", object (fields (("MODE", string "live") ∷ ("SIZE", string "1") ∷ [])))
    ∷ ("editableEnvKeys", array (items (string "SIZE" ∷ [])))
    ∷ []

abbrev template : Spec
template =
    (
      "editableOptions",
      object (
          fields (
            ("cpu", boolean true)
            ∷ ("dataVolume", boolean true)
            ∷ ("environment", boolean true)
            ∷ [])),
    )
    ∷ legacy_template

abbrev no_choice : SelectedResources
no_choice = record {
  cpu_cores = none;
  memory_mib = none;
  data_volume_gib = none;
  volume_sizes = [];
  command = none;
  environment = none;
  dependencies = none;
}

abbrev choice : SelectedResources
choice = record no_choice {
  cpu_cores = some (whole 2);
  data_volume_gib = some (whole 20);
  environment = some (("SIZE", "9") ∷ []);
}

abbrev selected_template : Spec
selected_template =
    (
      "editableOptions",
      object (
          fields (
            ("cpu", boolean true)
            ∷ ("dataVolume", boolean true)
            ∷ ("environment", boolean true)
            ∷ [])),
    )
    ∷ ("cpuCores", number (whole 2))
    ∷ ("memoryMiB", number (whole 512))
    ∷ ("volumes", array (items (volume 20 ∷ [])))
    ∷ ("env", object (fields (("MODE", string "live") ∷ ("SIZE", string "9") ∷ [])))
    ∷ ("editableEnvKeys", array (items (string "SIZE" ∷ [])))
    ∷ ("systemDiskGiB", number (whole 5))
    ∷ ("dataVolumeGiB", number (whole 20))
    ∷ []

selects : selected_runtime_spec template choice ≡ ok selected_template
unfolding selected_runtime_spec choose_compute choose_capacity choose_command choose_environment
    set_variables choose_dependencies editable_runtime_option runtime_data_volume_gib
    validate_runtime_spec runtime_resources runtime_storage data_disk volume_size tenth unit
    validate_isolation is_host validate_options check_options runtime_command
    validate_environment_settings validate_environment environment_size validate_environment_keys
    check_environment_keys validate_environment_texts validate_secrets runtime_secret_keys
    declared_secret_keys runtime_secret_options secret_descriptions editable_secret_keys
    validate_volumes check_volumes volume_entry is_bad_mount has_prefix contains is_volume_key
    is_environment_key all_chars byte_len runtime_dependencies declared_dependencies
selects = refl

refusals :
    (choose_compute (record no_choice { memory_mib = some (whole 1024) }) template
      ≡ fail memory_fixed)
    × (choose_compute (record no_choice { cpu_cores = some (whole 0) }) template
        ≡ fail below_minimum)
    × (choose_capacity choice legacy_template ≡ fail capacity_fixed)
    × (choose_environment (record no_choice { environment = some (("MODE", "x") ∷ []) }) template
        ≡ fail variable_fixed)
unfolding choose_compute choose_capacity choose_environment set_variables editable_runtime_option
    runtime_resources runtime_data_volume_gib runtime_storage data_disk volume_size tenth unit
refusals = (refl, refl, refl, refl)

-- The update carries the capacity, the variables and the CPU of the current release.
updates : runtime_spec_for_update template selected_template no_choice ≡ ok selected_template
unfolding runtime_spec_for_update update_selection update_capacity update_environment volume_mounts
    mounts selected_runtime_spec choose_compute choose_capacity choose_command choose_environment
    set_variables choose_dependencies editable_runtime_option runtime_data_volume_gib
    validate_runtime_spec runtime_resources runtime_storage data_disk volume_size tenth unit
    validate_isolation is_host validate_options check_options runtime_command
    validate_environment_settings validate_environment environment_size validate_environment_keys
    check_environment_keys validate_environment_texts validate_secrets runtime_secret_keys
    declared_secret_keys runtime_secret_options secret_descriptions editable_secret_keys
    validate_volumes check_volumes volume_entry is_bad_mount has_prefix contains is_volume_key
    is_environment_key all_chars byte_len runtime_dependencies declared_dependencies
updates = refl

selected_runtime_spec-Honours_example : Honours template choice selected_template
selected_runtime_spec-Honours_example =
    selected_runtime_spec-Honours template choice selected_template selects

runtime_spec_for_update-refuses_example :
    runtime_spec_for_update legacy_template legacy_template no_choice ≢ ok legacy_template
unfolding runtime_data_volume_gib runtime_storage data_disk volume_size unit volume_mounts mounts
runtime_spec_for_update-refuses_example =
    runtime_spec_for_update-refuses legacy_template legacy_template no_choice (whole 10) (whole 10)
      legacy_template refl refl refl refl refl

abbrev web : RouteListener
web = record {
  key = "web";
  container_port = 8080;
  remark = "Web";
  primary = true;
  user_editable = false;
  mapping_available = true;
  mapping_enabled = false;
}

abbrev admin : RouteListener
admin = record {
  key = "admin";
  container_port = 9000;
  remark = "";
  primary = false;
  user_editable = true;
  mapping_available = false;
  mapping_enabled = false;
}

abbrev route : List RouteListener → Spec
route ls =
    ("listeners", array (items (encode_route_listeners ls)))
    ∷ ("containerPort", number (whole 8080))
    ∷ ("basePath", string "/")
    ∷ ("websocket", boolean true)
    ∷ ("sse", boolean true)
    ∷ []

abbrev chosen_port : SelectedListenerPort
chosen_port = record { key = "admin"; container_port = ℤ.pos 9001; mapping_enabled = false }

abbrev ports : SelectedPorts
ports = record { listener_ports = chosen_port ∷ []; port_mapping_enabled = some true }

abbrev chosen_listeners : List RouteListener
chosen_listeners =
    record web { mapping_enabled = true } ∷ record admin { container_port = 9001 } ∷ []

selects_route : selected_route_spec (route (web ∷ admin ∷ [])) ports ≡ ok (route chosen_listeners)
unfolding selected_route_spec requested_ports choose_listeners apply_choice normalize_route_spec
    with_listeners with_base_path normalized_absolute_path absolute_path normalized_boolean
    normalize_mapping route_listeners declared_listeners parse_listeners parse_listener
    is_volume_key integer_between exact_integer to_int unit all_chars byte_len trim_space trim_left
    trim_right is_space has_prefix contains
selects_route = refl

refuses_fixed_port : apply_choice (some (record chosen_port { key = "web" })) web ≡ fail port_fixed
unfolding apply_choice
refuses_fixed_port = refl

selected_route_spec-HonoursRoute_example :
    HonoursRoute (route (web ∷ admin ∷ [])) (route chosen_listeners)
selected_route_spec-HonoursRoute_example =
    selected_route_spec-HonoursRoute (route (web ∷ admin ∷ [])) ports (route chosen_listeners)
      selects_route
