-- ===== src/Selection/Contract/Sound.antt =====
-- A specification that `selectedRuntimeSpec` of internal/httpapi/server.go makes honours its template.
use Prim.Native.String.{String}
use text.Mathlib.Text.{◌==◌ as same}
use mathlib.Core.Path.{subst}
use cloudmeter.Common.{◌≡◌, refl, sym, ap, ◌∙◌, ◌⊎◌, inl, inr, Bool, true, false, some, Bool-cases}
use cloudmeter.Runtime.Float.{whole}
use cloudmeter.Runtime.Value.{
  Value, number, object, fields, Spec, find, or_null, set, as_array, as_object, entries-fields,
  member, find-set_ne, find-set_self,
}
use cloudmeter.Runtime.Resources.{or_default, volumes_or_none}
use cloudmeter.Runtime.Settings.{environment, fields_or_none}
use cloudmeter.Runtime.Result.{ok, bind-eq-ok, ok-injective}
use cloudmeter.Runtime.Validate.{validate_runtime_spec}
use cloudmeter.Runtime.Validate.Sound.{IsSafe, validate_runtime_spec-IsSafe}
use cloudmeter.Selection.Steps.{
  SelectedResources, editable_runtime_option, editable_variables, choose_compute, choose_capacity,
  choose_command, choose_environment, choose_dependencies, selected_runtime_spec, texts_of,
}
use cloudmeter.Selection.Steps.Kept.{
  choose_compute-Computed, Chosen, choose_capacity-Chosen, choose_command-Chosen, Configured,
  choose_environment-Chosen, choose_dependencies-Chosen,
}
use cloudmeter.Selection.Contract.{Allows, Honours}
use cloudmeter.Selection.Contract.Chain.{
  editable-find, Chosen-Allows, Steps, step1, step2, step3, step4, step5, others-kept,
}

module _ {template : Spec} {selected : SelectedResources} {s1 s2 s3 s4 out : Spec}
    (steps : Steps template selected s1 s2 s3 s4 out) where
  editable1 :
      (key : String) (legacy : Bool)
      → editable_runtime_option s1 key legacy ≡ editable_runtime_option template key legacy
  editable1 key legacy =
      editable-find s1 template key legacy (step1 steps "editableOptions" refl refl refl)

  editable2 :
      (key : String) (legacy : Bool)
      → editable_runtime_option s2 key legacy ≡ editable_runtime_option template key legacy
  editable2 key legacy =
      editable-find s2 s1 key legacy (step2 steps "editableOptions" refl refl)
      ∙ editable1 key legacy

  editable3 :
      (key : String) (legacy : Bool)
      → editable_runtime_option s3 key legacy ≡ editable_runtime_option template key legacy
  editable3 key legacy =
      editable-find s3 s2 key legacy (step3 steps "editableOptions" refl) ∙ editable2 key legacy

  editable4 :
      (key : String) (legacy : Bool)
      → editable_runtime_option s4 key legacy ≡ editable_runtime_option template key legacy
  editable4 key legacy =
      editable-find s4 s3 key legacy (step4 steps "editableOptions" refl) ∙ editable3 key legacy

  -- What the steps after the first leave of the fields it sets.
  after1 :
      (k : String)
      → same "dataVolumeGiB" k ≡ false
      → same "volumes" k ≡ false
      → same "command" k ≡ false
      → same "env" k ≡ false
      → same "dependencies" k ≡ false
      → find k out ≡ find k s1
  after1 k a b c d e = step5 steps k e ∙ step4 steps k d ∙ step3 steps k c ∙ step2 steps k a b

  cpu-chosen :
      find "cpuCores" out
      ≡ some (number (or_default steps.compute.minimum.cpu_cores selected.cpu_cores))
  cpu-chosen =
      let cpu : Value = number (or_default steps.compute.minimum.cpu_cores selected.cpu_cores) in
      let memory : Value =
        number (or_default steps.compute.minimum.memory_mib selected.memory_mib) in
      let one = set "cpuCores" cpu template in
      after1 "cpuCores" refl refl refl refl refl
      ∙ ap (find "cpuCores") steps.compute.result
      ∙ find-set_ne "cpuCores" "systemDiskGiB" (number (whole 5)) (set "memoryMiB" memory one) refl
      ∙ find-set_ne "cpuCores" "memoryMiB" memory one refl
      ∙ find-set_self "cpuCores" cpu template

  memory-chosen :
      find "memoryMiB" out
      ≡ some (number (or_default steps.compute.minimum.memory_mib selected.memory_mib))
  memory-chosen =
      let cpu : Value = number (or_default steps.compute.minimum.cpu_cores selected.cpu_cores) in
      let memory : Value =
        number (or_default steps.compute.minimum.memory_mib selected.memory_mib) in
      let one = set "cpuCores" cpu template in
      after1 "memoryMiB" refl refl refl refl refl
      ∙ ap (find "memoryMiB") steps.compute.result
      ∙ find-set_ne "memoryMiB" "systemDiskGiB" (number (whole 5)) (set "memoryMiB" memory one) refl
      ∙ find-set_self "memoryMiB" memory one

  -- What a step allows, the specifications before and after it aside.
  Allows-through :
      (k : String) {e e' : Bool} (before after : Spec)
      → e ≡ e'
      → find k before ≡ find k template
      → find k out ≡ find k after
      → Allows e before after k
      → Allows e' template out k
  Allows-through k before after same_option b a (inl e) = inl (sym same_option ∙ e)
  Allows-through k before after same_option b a (inr e) = inr (a ∙ e ∙ b)

  volumes-allowed :
      (k : String)
      → find k s1 ≡ find k template
      → find k out ≡ find k s2
      → Allows (editable_runtime_option template "dataVolume" false) template out k
  volumes-allowed k b a =
      Allows-through k s1 s2 (editable1 "dataVolume" false) b a (Chosen-Allows k steps.capacity)

  command-allowed : Allows (editable_runtime_option template "command" false) template out "command"
  command-allowed =
      Allows-through "command" s2 s3 (editable2 "command" false)
        (step2 steps "command" refl refl ∙ step1 steps "command" refl refl refl)
        (step5 steps "command" refl ∙ step4 steps "command" refl)
        (Chosen-Allows "command" steps.command)

  dependencies-allowed :
      Allows (editable_runtime_option template "dependencies" false) template out "dependencies"
  dependencies-allowed =
      Allows-through "dependencies" s4 out (editable4 "dependencies" false)
        (step4 steps "dependencies" refl
          ∙ step3 steps "dependencies" refl
          ∙ step2 steps "dependencies" refl refl
          ∙ step1 steps "dependencies" refl refl refl)
        refl (Chosen-Allows "dependencies" steps.dependencies)

  before4 :
      (k : String)
      → same "cpuCores" k ≡ false
      → same "memoryMiB" k ≡ false
      → same "systemDiskGiB" k ≡ false
      → same "dataVolumeGiB" k ≡ false
      → same "volumes" k ≡ false
      → same "command" k ≡ false
      → find k s3 ≡ find k template
  before4 k a b c d e f = step3 steps k f ∙ step2 steps k d e ∙ step1 steps k a b c

  environment-find : (a b : Spec) → find "env" a ≡ find "env" b → environment a ≡ environment b
  environment-find a b e = ap (λ f. fields_or_none (as_object (or_null f))) e

  variables-allowed :
      (k : String)
      → (editable_runtime_option template "environment" false ≡ true)
          × (member k (editable_variables template) ≡ true)
        ⊎ (find k (environment out) ≡ find k (environment template))
  variables-allowed k = from steps.environment
    where
      first : environment s3 ≡ environment template
      first = environment-find s3 template (before4 "env" refl refl refl refl refl refl)

      final : environment out ≡ environment s4
      final = environment-find out s4 (step5 steps "env" refl)

      listed : editable_variables s3 ≡ editable_variables template
      listed =
          ap (λ f. texts_of (volumes_or_none (as_array (or_null f))))
            (before4 "editableEnvKeys" refl refl refl refl refl refl)

      from :
          Chosen (editable_runtime_option s3 "environment" false) s3 s4 (Configured s3)
          → (editable_runtime_option template "environment" false ≡ true)
              × (member k (editable_variables template) ≡ true)
            ⊎ (find k (environment out) ≡ find k (environment template))
      from (Chosen.kept e) = inr (ap (find k) (final ∙ ap environment e ∙ first))
      from (Chosen.changed e (variables, r, f)) =
          elim (Bool-cases (member k (editable_variables s3))) [
            | inl m ↦ inl (sym (editable3 "environment" false) ∙ e, ap (member k) (sym listed) ∙ m)
            | inr m ↦ inr (
                ap (find k) final
                ∙ ap (λ s. find k (environment s)) r
                ∙ ap (λ f. find k (fields_or_none (as_object (or_null f))))
                    (find-set_self "env" (object (fields variables)) s3)
                ∙ ap (find k) (entries-fields variables)
                ∙ f k m
                ∙ ap (find k) first)
          ]

  Steps-Honours : IsSafe out → Honours template selected out
  Steps-Honours safe = record {
    safe = safe;
    minimum = steps.compute.minimum;
    parsed = steps.compute.parsed;
    cpu = cpu-chosen;
    cpu_allowed = steps.compute.cpu_allowed;
    cpu_enough = steps.compute.cpu_enough;
    memory = memory-chosen;
    memory_allowed = steps.compute.memory_allowed;
    memory_enough = steps.compute.memory_enough;
    others = others-kept steps;
    volumes =
        volumes-allowed "volumes" (step1 steps "volumes" refl refl refl)
          (step5 steps "volumes" refl ∙ step4 steps "volumes" refl ∙ step3 steps "volumes" refl);
    capacity = volumes-allowed "dataVolumeGiB" (step1 steps "dataVolumeGiB" refl refl refl) (
        step5 steps "dataVolumeGiB" refl
        ∙ step4 steps "dataVolumeGiB" refl
        ∙ step3 steps "dataVolumeGiB" refl);
    command = command-allowed;
    dependencies = dependencies-allowed;
    variables = variables-allowed;
  }

-- A specification that `selectedRuntimeSpec` makes of a template and a user's choices honours the
-- template: it is safe to run; its CPU and memory are the chosen ones, or the template's, and not below
-- the template's, and a choice is made only where the template allows it; the volumes and the capacity,
-- the command and the dependencies are the template's unless it marks them as editable; a variable of
-- the environment is the template's unless the environment and the variable are editable; and every
-- field outside those that a selection may set is the template's.
pub selected_runtime_spec-Honours :
    (template : Spec) (selected : SelectedResources) (out : Spec)
    → selected_runtime_spec template selected ≡ ok out
    → Honours template selected out
unfolding selected_runtime_spec
selected_runtime_spec-Honours template selected out h =
    let (s1, e1, h1) = bind-eq-ok (choose_compute selected template) _ h in
    let (s2, e2, h2) = bind-eq-ok (choose_capacity selected s1) _ h1 in
    let (s3, e3, h3) = bind-eq-ok (choose_command selected s2) _ h2 in
    let (s4, e4, h4) = bind-eq-ok (choose_environment selected s3) _ h3 in
    let (s5, e5, h5) = bind-eq-ok (choose_dependencies selected s4) _ h4 in
    let (_, v, h6) = bind-eq-ok (validate_runtime_spec s5) _ h5 in
    let steps : Steps template selected s1 s2 s3 s4 s5 = record {
      compute = choose_compute-Computed template selected s1 e1;
      capacity = choose_capacity-Chosen selected s1 s2 e2;
      command = choose_command-Chosen selected s2 s3 e3;
      environment = choose_environment-Chosen selected s3 s4 e4;
      dependencies = choose_dependencies-Chosen selected s4 s5 e5;
    } in
    subst (Honours template selected) (ok-injective s5 out h6)
      (Steps-Honours steps (validate_runtime_spec-IsSafe s5 v))
