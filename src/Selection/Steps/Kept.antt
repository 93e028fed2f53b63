-- ===== src/Selection/Steps/Kept.antt =====
-- The fields that each step of `selectedRuntimeSpec` of internal/httpapi/server.go leaves as they are.
use Prim.Native.String.{String}
use text.Mathlib.Text.{◌==◌ as same}
use text.Mathlib.TextEquality.{eq_iff}
use cloudmeter.Common.{
  ◌≡◌, refl, sym, ap, ◌∙◌, inl, inr, Bool, true, false, not, ◌&&◌, ◌||◌, Option, none, some, List,
  [], ◌∷◌, map, arith, Bool-cases, if◌then◌else◌,
}
use cloudmeter.Runtime.Float.{Float, lt, whole}
use cloudmeter.Runtime.Value.{
  number, string, strings, array, object, fields, items, Spec, find, get, set, as_array, member,
  find-set_ne,
}
use cloudmeter.Runtime.Resources.{
  Resources, or_default, runtime_resources, runtime_data_volume_gib, volumes_or_none,
}
use cloudmeter.Runtime.Dependencies.{Dependency}
use cloudmeter.Runtime.Settings.{environment}
use cloudmeter.Runtime.Result.{
  ok, bind-eq-ok, refuse-eq-ok, ok-injective, cpu_fixed, memory_fixed, below_minimum,
  capacity_fixed, capacity_low, variable_fixed,
}
use cloudmeter.Selection.Steps.{
  SelectedResources, editable_runtime_option, is_fixed, choose_compute, or_zero, largest,
  with_volumes, is_none, choose_capacity, with_command, choose_command, editable_variables,
  set_variables, with_environment, choose_environment, encode_dependency, with_dependencies,
  choose_dependencies,
}

-- What the first step sets, within what the template allows.
pub record Computed (template : Spec) (selected : SelectedResources) (out : Spec) : Type 0 where
  pub minimum : Resources
  pub parsed : runtime_resources template true ≡ ok minimum
  pub cpu_allowed :
      is_fixed selected.cpu_cores (editable_runtime_option template "cpu" true) ≡ false
  pub memory_allowed :
      is_fixed selected.memory_mib (editable_runtime_option template "memory" true) ≡ false
  pub cpu_enough : lt (or_default minimum.cpu_cores selected.cpu_cores) minimum.cpu_cores ≡ false
  pub memory_enough :
      lt (or_default minimum.memory_mib selected.memory_mib) minimum.memory_mib ≡ false
  pub result :
      out
      ≡ set "systemDiskGiB" (number (whole 5)) (
          set "memoryMiB"
            (number (or_default minimum.memory_mib selected.memory_mib))
            (set "cpuCores" (number (or_default minimum.cpu_cores selected.cpu_cores)) template))

pub choose_compute-Computed :
    (template : Spec) (selected : SelectedResources) (out : Spec)
    → choose_compute selected template ≡ ok out
    → Computed template selected out
unfolding choose_compute
choose_compute-Computed template selected out h =
    let (minimum, r, h1) = bind-eq-ok (runtime_resources template true) _ h in
    let cpu = or_default minimum.cpu_cores selected.cpu_cores in
    let memory = or_default minimum.memory_mib selected.memory_mib in
    let (c, h2) =
      refuse-eq-ok (is_fixed selected.cpu_cores (editable_runtime_option template "cpu" true))
        cpu_fixed _ h1 in
    let (m, h3) =
      refuse-eq-ok (is_fixed selected.memory_mib (editable_runtime_option template "memory" true))
        memory_fixed _ h2 in
    let (low, h4) =
      refuse-eq-ok (lt cpu minimum.cpu_cores || lt memory minimum.memory_mib) below_minimum _ h3 in
    record {
      minimum = minimum;
      parsed = r;
      cpu_allowed = c;
      memory_allowed = m;
      cpu_enough = ground arith;
      memory_enough = ground arith;
      result = sym (ok-injective _ out h4);
    }

-- A step with one choice: nothing is changed, or the option is editable and the fields are changed.
pub data Chosen (editable : Bool) (before after : Spec) (change : Spec → Type 0) : Type 0 where
  kept : after ≡ before → Chosen editable before after change
  changed : editable ≡ true → change after → Chosen editable before after change

-- The capacity is given to every volume.
abbrev pub Sized : Spec → Spec → Type 0
Sized spec out =
    (size : Float) × (out
      ≡ with_volumes size (volumes_or_none (as_array (get "volumes" spec))) spec)

pub choose_capacity-Chosen :
    (selected : SelectedResources) (spec out : Spec)
    → choose_capacity selected spec ≡ ok out
    → Chosen (editable_runtime_option spec "dataVolume" false) spec out (Sized spec)
unfolding choose_capacity
choose_capacity-Chosen selected spec out h =
    let minimum = or_zero (runtime_data_volume_gib spec false) in
    let editable = editable_runtime_option spec "dataVolume" false in
    let chosen = largest (or_default minimum selected.data_volume_gib) selected.volume_sizes in
    let (_, h1) = refuse-eq-ok (is_fixed selected.data_volume_gib editable) capacity_fixed _ h in
    let (_, h2) =
      refuse-eq-ok (not (is_none selected.volume_sizes) && not editable) capacity_fixed _ h1 in
    let (_, h3) = refuse-eq-ok (lt chosen minimum) capacity_low _ h2 in
    let after = with_volumes chosen (volumes_or_none (as_array (get "volumes" spec))) spec in
    let same : (if editable then after else spec) ≡ out =
      ok-injective (if editable then after else spec) out h3 in
    elim (Bool-cases editable) [
      | inl e ↦ Chosen.changed e (chosen, sym (rw e at same))
      | inr e ↦ Chosen.kept (sym (rw e at same))
    ]

abbrev pub Commanded : Spec → Spec → Type 0
Commanded spec out = (command : List String) × (out ≡ set "command" (strings command) spec)

pub choose_command-Chosen :
    (selected : SelectedResources) (spec out : Spec)
    → choose_command selected spec ≡ ok out
    → Chosen (editable_runtime_option spec "command" false) spec out (Commanded spec)
unfolding choose_command
choose_command-Chosen selected spec out h =
    step (editable_runtime_option spec "command" false) selected.command h
  where
    step :
        (editable : Bool) (choice : Option (List String))
        → with_command editable choice spec ≡ ok out
        → Chosen editable spec out (Commanded spec)
    step editable none h = Chosen.kept (sym (ok-injective spec out h))
    step true (some command) h =
        Chosen.changed refl
          (command, sym (ok-injective (set "command" (strings command) spec) out h))
    step false (some command) h = cc

-- Variables that are not editable keep their values.
set_variables-find :
    (k : String) (allowed : List String) (chosen : List (String × String)) (variables out : Spec)
    → set_variables allowed chosen variables ≡ ok out
    → member k allowed ≡ false
    → find k out ≡ find k variables
unfolding set_variables
set_variables-find k allowed [] variables out h m = ap (find k) (sym (ok-injective variables out h))
set_variables-find k allowed ((key, value) ∷ chosen) variables out h m =
    let (listed, h1) = refuse-eq-ok (not (member key allowed)) variable_fixed _ h in
    let other : same key k ≡ false = ground (arith, eq_iff key k, ap (λ j. member j allowed)) in
    set_variables-find k allowed chosen (set key (string value) variables) out h1 m
    ∙ find-set_ne k key (string value) variables other

abbrev pub Configured : Spec → Spec → Type 0
Configured spec out =
    (variables : Spec) × (out ≡ set "env" (object (fields variables)) spec)
    × ((k : String)
        → member k (editable_variables spec) ≡ false
        → find k variables ≡ find k (environment spec))

pub choose_environment-Chosen :
    (selected : SelectedResources) (spec out : Spec)
    → choose_environment selected spec ≡ ok out
    → Chosen (editable_runtime_option spec "environment" false) spec out (Configured spec)
unfolding choose_environment
choose_environment-Chosen selected spec out h =
    step (editable_runtime_option spec "environment" false) selected.environment h
  where
    step :
        (editable : Bool) (choice : Option (List (String × String)))
        → with_environment editable choice spec ≡ ok out
        → Chosen editable spec out (Configured spec)
    step editable none h = Chosen.kept (sym (ok-injective spec out h))
    step true (some chosen) h =
        let (variables, e, h1) =
          bind-eq-ok (set_variables (editable_variables spec) chosen (environment spec)) _ h in
        Chosen.changed refl (
          variables,
          sym (ok-injective (set "env" (object (fields variables)) spec) out h1),
          λ k m.
              set_variables-find k (editable_variables spec) chosen (environment spec) variables e
                m,
        )
    step false (some chosen) h = cc

abbrev pub Connected : Spec → Spec → Type 0
Connected spec out =
    (ds : List Dependency) × (out
      ≡ set "dependencies" (array (items (map encode_dependency ds))) spec)

pub choose_dependencies-Chosen :
    (selected : SelectedResources) (spec out : Spec)
    → choose_dependencies selected spec ≡ ok out
    → Chosen (editable_runtime_option spec "dependencies" false) spec out (Connected spec)
unfolding choose_dependencies
choose_dependencies-Chosen selected spec out h =
    step (editable_runtime_option spec "dependencies" false) selected.dependencies h
  where
    step :
        (editable : Bool) (choice : Option (List Dependency))
        → with_dependencies editable choice spec ≡ ok out
        → Chosen editable spec out (Connected spec)
    step editable none h = Chosen.kept (sym (ok-injective spec out h))
    step true (some ds) h = Chosen.changed refl (
      ds,
      sym (ok-injective (set "dependencies" (array (items (map encode_dependency ds))) spec) out h),
    )
    step false (some ds) h = cc
