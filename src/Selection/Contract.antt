-- ===== src/Selection/Contract.antt =====
-- `selectedRuntimeSpec` of internal/httpapi/server.go keeps the contract of a template: a user changes
-- only what the template marks as editable.
pub mod Chain
pub mod Sound
use Prim.Native.String.{String}
use text.Mathlib.Text.{◌==◌ as same}
use mathlib.Core.Path.{subst}
use cloudmeter.Common.{
  ℕ, ◌≡◌, refl, sym, ap, ◌∙◌, ◌⊎◌, inl, inr, Bool, true, false, not, ◌&&◌, ◌||◌, Option, none, some,
  List, [], ◌∷◌, map, arith, Bool-cases, if◌then◌else◌,
}
use cloudmeter.Runtime.Float.{Float, lt, whole}
use cloudmeter.Runtime.Value.{
  Value, number, string, strings, array, object, fields, entries, items, Spec, find, get, or_null,
  set, remove, as_array, as_object, entries-fields, member, find-set_ne, find-set_self,
  find-remove_ne,
}
use cloudmeter.Runtime.Resources.{Resources, or_default, runtime_resources, volumes_or_none}
use cloudmeter.Runtime.Settings.{environment, fields_or_none}
use cloudmeter.Runtime.Result.{Result, ok, fail, ◌>>=◌, ◌>>◌, bind-eq-ok, ok-injective}
use cloudmeter.Runtime.Validate.{validate_runtime_spec}
use cloudmeter.Runtime.Validate.Sound.{IsSafe, validate_runtime_spec-IsSafe}
use cloudmeter.Selection.Steps.{
  SelectedResources, option_in, editable_runtime_option, is_fixed, resized, with_volumes,
  encode_dependency, editable_variables, choose_compute, choose_capacity, choose_command,
  choose_environment, choose_dependencies, selected_runtime_spec, texts_of,
}
use cloudmeter.Selection.Steps.Kept.{
  Computed, choose_compute-Computed, Chosen, Sized, choose_capacity-Chosen, Commanded,
  choose_command-Chosen, Configured, choose_environment-Chosen, Connected,
  choose_dependencies-Chosen,
}

-- The fields that a selection may set.
abbrev pub choosable : List String
choosable =
    "cpuCores" ∷ "memoryMiB" ∷ "systemDiskGiB" ∷ "volumes" ∷ "dataVolumeGiB" ∷ "command" ∷ "env"
    ∷ "dependencies" ∷ []

-- The option is editable, or the field is that of the template.
abbrev pub Allows : Bool → Spec → Spec → String → Type 0
Allows editable template out k = (editable ≡ true) ⊎ (find k out ≡ find k template)

pub record Honours (template : Spec) (selected : SelectedResources) (out : Spec) : Type 0 where
  pub safe : IsSafe out
  pub minimum : Resources
  pub parsed : runtime_resources template true ≡ ok minimum
  pub cpu : find "cpuCores" out ≡ some (number (or_default minimum.cpu_cores selected.cpu_cores))
  pub cpu_allowed :
      is_fixed selected.cpu_cores (editable_runtime_option template "cpu" true) ≡ false
  pub cpu_enough : lt (or_default minimum.cpu_cores selected.cpu_cores) minimum.cpu_cores ≡ false
  pub memory :
      find "memoryMiB" out ≡ some (number (or_default minimum.memory_mib selected.memory_mib))
  pub memory_allowed :
      is_fixed selected.memory_mib (editable_runtime_option template "memory" true) ≡ false
  pub memory_enough :
      lt (or_default minimum.memory_mib selected.memory_mib) minimum.memory_mib ≡ false
  pub others : (k : String) → member k choosable ≡ false → find k out ≡ find k template
  pub volumes : Allows (editable_runtime_option template "dataVolume" false) template out "volumes"
  pub capacity :
      Allows (editable_runtime_option template "dataVolume" false) template out "dataVolumeGiB"
  pub command : Allows (editable_runtime_option template "command" false) template out "command"
  pub dependencies :
      Allows (editable_runtime_option template "dependencies" false) template out "dependencies"
  pub variables :
      (k : String)
      → (editable_runtime_option template "environment" false ≡ true)
          × (member k (editable_variables template) ≡ true)
        ⊎ (find k (environment out) ≡ find k (environment template))
