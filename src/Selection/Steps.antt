-- ===== src/Selection/Steps.antt =====
-- `selectedRuntimeSpec` of internal/httpapi/server.go, in steps. Its copy of the template, through JSON,
-- is the template: a template is decoded JSON.
pub mod Kept
use Prim.Native.String.{String}
use cloudmeter.Common.{
  ℕ, Bool, true, false, not, ◌&&◌, ◌||◌, Option, none, some, List, [], ◌∷◌, map, if◌then◌else◌,
}
use cloudmeter.Runtime.Float.{Float, pos, lt, whole}
use cloudmeter.Runtime.Value.{
  Value, boolean, number, string, strings, array, object, Fields, field, end, fields, items, Spec,
  find, get, set, remove, as_array, as_object, as_string, truthy, member,
}
use cloudmeter.Runtime.Resources.{
  Resources, is_missing, or_default, runtime_resources, runtime_data_volume_gib, volumes_or_none,
}
use cloudmeter.Runtime.Dependencies.{Dependency}
use cloudmeter.Runtime.Settings.{environment}
use cloudmeter.Runtime.Validate.{validate_runtime_spec}
use cloudmeter.Runtime.Result.{
  Result, ok, fail, ◌>>=◌, ◌>>◌, refuse, cpu_fixed, memory_fixed, below_minimum, capacity_fixed,
  capacity_low, command_fixed, environment_fixed, variable_fixed, dependencies_fixed,
}

-- The choices for the container. A nil map, slice or pointer of the request is `none`.
pub record SelectedResources : Type 0 where
  pub cpu_cores : Option Float
  pub memory_mib : Option Float
  pub data_volume_gib : Option Float
  pub volume_sizes : List (String × Float)
  pub command : Option (List String)
  pub environment : Option (List (String × String))
  pub dependencies : Option (List Dependency)

abbrev option_value : Option Value → Bool
option_value none = false
option_value (some v) = truthy v

-- `editableRuntimeOption`.
abbrev pub option_in : Option Spec → String → Bool → Bool
option_in none key legacy = legacy
option_in (some options) key legacy = option_value (find key options)

unfoldable pub editable_runtime_option : Spec → String → Bool → Bool
editable_runtime_option spec key legacy =
    option_in (as_object (get "editableOptions" spec)) key legacy

-- A choice where the template fixes the option.
abbrev pub is_fixed {ℓ} : {A : Type ℓ} → Option A → Bool → Bool
is_fixed choice editable = not (is_missing choice) && not editable

-- CPU, memory and the system disk.
unfoldable pub choose_compute : SelectedResources → Spec → Result Spec
unfolding runtime_resources editable_runtime_option
choose_compute selected spec = do
  minimum ← runtime_resources spec true
  let cpu = or_default minimum.cpu_cores selected.cpu_cores
  let memory = or_default minimum.memory_mib selected.memory_mib
  refuse (is_fixed selected.cpu_cores (editable_runtime_option spec "cpu" true)) cpu_fixed
  refuse (is_fixed selected.memory_mib (editable_runtime_option spec "memory" true)) memory_fixed
  refuse (lt cpu minimum.cpu_cores || lt memory minimum.memory_mib) below_minimum
  ok (
      set "systemDiskGiB" (number (whole 5))
        (set "memoryMiB" (number memory) (set "cpuCores" (number cpu) spec)))

-- The capacity, 0 where it cannot be read.
abbrev pub or_zero : Result Float → Float
or_zero (ok x) = x
or_zero (fail e) = pos 0

abbrev pub largest : Float → List (String × Float) → Float
largest x [] = x
largest x ((_, y) ∷ ys) = largest (if lt x y then y else x) ys

abbrev resized_entry : Float → Value → Option Spec → Value
resized_entry size v none = v
resized_entry size v (some entry) = object (fields (set "sizeGiB" (number size) entry))

abbrev pub resized : Float → Value → Value
resized size v = resized_entry size v (as_object v)

-- Every volume gets the shared capacity; without volumes there is none.
abbrev pub with_volumes : Float → List Value → Spec → Spec
with_volumes size [] spec = remove "dataVolumeGiB" spec
with_volumes size (v ∷ vs) spec =
    set "dataVolumeGiB" (number size)
      (set "volumes" (array (items (map (resized size) (v ∷ vs)))) spec)

abbrev pub is_none {ℓ} : {A : Type ℓ} → List A → Bool
is_none [] = true
is_none (_ ∷ _) = false

unfoldable pub choose_capacity : SelectedResources → Spec → Result Spec
unfolding runtime_data_volume_gib editable_runtime_option
choose_capacity selected spec =
    let minimum = or_zero (runtime_data_volume_gib spec false) in
    let editable = editable_runtime_option spec "dataVolume" false in
    let chosen = largest (or_default minimum selected.data_volume_gib) selected.volume_sizes in
    do
      refuse (is_fixed selected.data_volume_gib editable) capacity_fixed
      refuse (not (is_none selected.volume_sizes) && not editable) capacity_fixed
      refuse (lt chosen minimum) capacity_low
      ok (
          if editable
          then with_volumes chosen (volumes_or_none (as_array (get "volumes" spec))) spec
          else spec)

abbrev pub with_command : Bool → Option (List String) → Spec → Result Spec
with_command editable none spec = ok spec
with_command editable (some command) spec = do
  refuse (not editable) command_fixed
  ok (set "command" (strings command) spec)

unfoldable pub choose_command : SelectedResources → Spec → Result Spec
unfolding editable_runtime_option
choose_command selected spec =
    with_command (editable_runtime_option spec "command" false) selected.command spec

-- The texts among the values.
abbrev pub texts_of : List Value → List String
texts_of [] = []
texts_of (string s ∷ vs) = s ∷ texts_of vs
texts_of (_ ∷ vs) = texts_of vs

-- The variables that a user may set.
abbrev pub editable_variables : Spec → List String
editable_variables spec = texts_of (volumes_or_none (as_array (get "editableEnvKeys" spec)))

unfoldable pub set_variables : List String → List (String × String) → Spec → Result Spec
set_variables allowed [] variables = ok variables
set_variables allowed ((key, value) ∷ chosen) variables = do
  refuse (not (member key allowed)) variable_fixed
  set_variables allowed chosen (set key (string value) variables)

abbrev pub with_environment : Bool → Option (List (String × String)) → Spec → Result Spec
with_environment editable none spec = ok spec
with_environment editable (some chosen) spec = do
  refuse (not editable) environment_fixed
  variables ← set_variables (editable_variables spec) chosen (environment spec)
  ok (set "env" (object (fields variables)) spec)

unfoldable pub choose_environment : SelectedResources → Spec → Result Spec
unfolding editable_runtime_option set_variables
choose_environment selected spec =
    with_environment (editable_runtime_option spec "environment" false) selected.environment spec

abbrev pub encode_dependency : Dependency → Value
encode_dependency d = object (
    field "key" (string d.key) (
      field "productId" (string d.product_id)
        (field "serviceSlug" (string d.service_slug) (field "required" (boolean d.required) end))))

abbrev pub with_dependencies : Bool → Option (List Dependency) → Spec → Result Spec
with_dependencies editable none spec = ok spec
with_dependencies editable (some chosen) spec = do
  refuse (not editable) dependencies_fixed
  ok (set "dependencies" (array (items (map encode_dependency chosen))) spec)

unfoldable pub choose_dependencies : SelectedResources → Spec → Result Spec
unfolding editable_runtime_option
choose_dependencies selected spec =
    with_dependencies (editable_runtime_option spec "dependencies" false) selected.dependencies spec

unfoldable pub selected_runtime_spec : Spec → SelectedResources → Result Spec
unfolding choose_compute choose_capacity choose_command choose_environment choose_dependencies
    validate_runtime_spec
selected_runtime_spec template selected = do
  computed ← choose_compute selected template
  sized ← choose_capacity selected computed
  commanded ← choose_command selected sized
  configured ← choose_environment selected commanded
  result ← choose_dependencies selected configured
  validate_runtime_spec result
  ok result
