-- ===== src/Selection/Update.antt =====
-- `runtimeSpecForUpdate` of internal/httpapi/app_lifecycle.go.
pub mod Legacy
use Prim.Native.String.{String}
use cloudmeter.Common.{
  ℕ, Bool, true, false, not, ◌&&◌, ◌||◌, Option, none, some, List, [], ◌∷◌, map, if◌then◌else◌,
}
use cloudmeter.Runtime.Float.{Float, nan, pos_inf, pos, neg, lt}
use cloudmeter.Runtime.Value.{Value, Spec, find, get, set, as_object, as_string, or_null}
use cloudmeter.Runtime.Resources.{
  Resources, is_missing, or_default, runtime_resources, runtime_data_volume_gib,
}
use cloudmeter.Runtime.Dependencies.{Dependency, runtime_dependencies}
use cloudmeter.Runtime.Volumes.{VolumeMount, volume_mounts}
use cloudmeter.Runtime.Settings.{environment, runtime_command}
use cloudmeter.Runtime.Result.{
  Result, ok, fail, ◌>>=◌, ◌>>◌, refuse, volume_removed, capacity_fixed_below, no_data_volume,
  capacity_shrinks,
}
use cloudmeter.Selection.Steps.{
  SelectedResources, editable_runtime_option, is_none, editable_variables, selected_runtime_spec,
}

abbrev is_pos_inf : Float → Bool
is_pos_inf pos_inf = true
is_pos_inf x = false

abbrev is_not_a_number : Float → Bool
is_not_a_number nan = true
is_not_a_number x = false

-- math.Max. Of two zeros it is the positive one, which compares as the other.
abbrev pub max_float : Float → Float → Float
max_float x y =
    if is_pos_inf x || is_pos_inf y
    then pos_inf
    else if is_not_a_number x || is_not_a_number y
    then nan
    else if lt y x
    then x
    else y

-- The choice that is made, or the larger of the current value and the minimum where the current
-- resources can be read.
abbrev pub carried :
    Bool → Option Float → Result Resources → (Resources → Float) → Float → Option Float
carried false choice current value minimum = choice
carried true (some x) current value minimum = some x
carried true none (ok r) value minimum = some (max_float (value r) minimum)
carried true none (fail e) value minimum = none

-- The choice of a capacity, for a template with volumes: nothing of a template that fixes it.
abbrev pub carried_capacity : Bool → Option Float → Float → Float → Result (Option Float)
carried_capacity false choice current minimum = ok choice
carried_capacity true none current minimum =
    let value = max_float current minimum in ok (if lt (pos 0) value then some value else none)
carried_capacity true (some x) current minimum = do
  refuse (lt (pos 0) current && lt x current) capacity_shrinks
  ok (some x)

-- The checks of the volumes, and the capacity that is chosen.
unfoldable pub update_capacity : Spec → Spec → SelectedResources → Result (Option Float)
unfolding runtime_data_volume_gib volume_mounts editable_runtime_option
update_capacity template current selected =
    let mountless = is_none (volume_mounts template) in
    let editable = editable_runtime_option template "dataVolume" true in
    do
      capacity ← runtime_data_volume_gib current false
      minimum ← runtime_data_volume_gib template false
      refuse (lt (pos 0) capacity && mountless) volume_removed
      refuse (lt minimum capacity && not editable) capacity_fixed_below
      refuse
          (mountless
            && (not (is_missing selected.data_volume_gib) || not (is_none selected.volume_sizes)))
          no_data_volume
      carried_capacity (not mountless && editable) selected.data_volume_gib capacity minimum

-- The command of the current release, where none is chosen: the empty list is nil.
abbrev pub some_command : List String → Option (List String)
some_command [] = none
some_command (a ∷ as') = some (a ∷ as')

abbrev carried_command : Bool → Option (List String) → Spec → Result (Option (List String))
carried_command true none current = do command ← runtime_command current; ok (some_command command)
carried_command editable choice current = ok choice

-- A variable of the current release, or of the template.
abbrev merged_variable :
    String → Option String → Option String → List (String × String) → List (String × String)
merged_variable key (some value) fixed merged = set key value merged
merged_variable key none (some value) merged = set key value merged
merged_variable key none none merged = merged

abbrev text_in : String → Spec → Option String
text_in key variables = as_string (get key variables)

abbrev merge_variables : Spec → Spec → List String → List (String × String) → List (String × String)
merge_variables current template [] merged = merged
merge_variables current template (key ∷ keys) merged =
    merge_variables current template keys
      (merged_variable key (text_in key current) (text_in key template) merged)

abbrev set_all : List (String × String) → List (String × String) → List (String × String)
set_all [] merged = merged
set_all ((key, value) ∷ chosen) merged = set_all chosen (set key value merged)

abbrev chosen_variables : Option (List (String × String)) → List (String × String)
chosen_variables none = []
chosen_variables (some chosen) = chosen

unfoldable pub update_environment :
    Spec → Spec → SelectedResources → Option (List (String × String))
unfolding editable_runtime_option
update_environment template current selected =
    let keys = editable_variables template in
    if not (is_none keys) && editable_runtime_option template "environment" false
    then some (
        set_all (chosen_variables selected.environment)
          (merge_variables (environment current) (environment template) keys []))
    else selected.environment

abbrev declares_dependencies : Option Value → List Dependency → Option (List Dependency)
declares_dependencies none ds = none
declares_dependencies (some raw) ds = some ds

-- The dependencies of the current release, where none are chosen: nil where it has no such field.
abbrev carried_dependencies :
    Bool → Option (List Dependency) → Spec → Result (Option (List Dependency))
carried_dependencies true none current = do
  ds ← runtime_dependencies current
  ok (declares_dependencies (find "dependencies" current) ds)
carried_dependencies editable choice current = ok choice

unfoldable pub update_selection : Spec → Spec → SelectedResources → Result SelectedResources
unfolding runtime_resources editable_runtime_option update_capacity runtime_command
    update_environment runtime_dependencies
update_selection template current selected = do
  minimum ← runtime_resources template true
  capacity ← update_capacity template current selected
  command ←
      carried_command (editable_runtime_option template "command" false) selected.command current
  dependencies ←
      carried_dependencies (editable_runtime_option template "dependencies" false)
        selected.dependencies current
  ok (record {
    cpu_cores =
        carried (editable_runtime_option template "cpu" true) selected.cpu_cores
          (runtime_resources current false) (λ (r : Resources). r.cpu_cores) minimum.cpu_cores;
    memory_mib =
        carried (editable_runtime_option template "memory" true) selected.memory_mib
          (runtime_resources current false) (λ (r : Resources). r.memory_mib) minimum.memory_mib;
    data_volume_gib = capacity;
    volume_sizes = selected.volume_sizes;
    command = command;
    environment = update_environment template current selected;
    dependencies = dependencies;
  })

unfoldable pub runtime_spec_for_update : Spec → Spec → SelectedResources → Result Spec
unfolding update_selection selected_runtime_spec
runtime_spec_for_update template current selected = do
  selection ← update_selection template current selected
  selected_runtime_spec template selection
