-- ===== src/Selection/Contract/Chain.antt =====
-- The fields along the steps of `selectedRuntimeSpec` of internal/httpapi/server.go.
use Prim.Native.String.{String}
use text.Mathlib.Text.{◌==◌ as same}
use cloudmeter.Common.{◌≡◌, ap, ◌∙◌, inl, inr, Bool, false, List, [], ◌∷◌, map, arith}
use cloudmeter.Runtime.Float.{Float, whole}
use cloudmeter.Runtime.Value.{
  Value, number, strings, array, object, fields, items, Spec, find, get, or_null, set, as_array,
  as_object, member, find-set_ne, find-remove_ne,
}
use cloudmeter.Runtime.Resources.{or_default, volumes_or_none}
use cloudmeter.Selection.Steps.{
  SelectedResources, option_in, editable_runtime_option, resized, with_volumes, encode_dependency,
}
use cloudmeter.Selection.Steps.Kept.{Computed, Chosen, Sized, Commanded, Configured, Connected}
use cloudmeter.Selection.Contract.{choosable, Allows}

pub editable-find :
    (a b : Spec) (key : String) (legacy : Bool)
    → find "editableOptions" a ≡ find "editableOptions" b
    → editable_runtime_option a key legacy ≡ editable_runtime_option b key legacy
unfolding editable_runtime_option
editable-find a b key legacy e = ap (λ f. option_in (as_object (or_null f)) key legacy) e

-- A step keeps a field that its change keeps.
Chosen-find :
    (k : String) {editable : Bool} {before after : Spec} {change : Spec → Type 0}
    → Chosen editable before after change
    → (change after → find k after ≡ find k before)
    → find k after ≡ find k before
Chosen-find k (Chosen.kept e) f = ap (find k) e
Chosen-find k (Chosen.changed e c) f = f c

-- A step keeps a field, or its option is editable.
pub Chosen-Allows :
    (k : String) {editable : Bool} {before after : Spec} {change : Spec → Type 0}
    → Chosen editable before after change
    → Allows editable before after k
Chosen-Allows k (Chosen.kept e) = inr (ap (find k) e)
Chosen-Allows k (Chosen.changed e c) = inl e

with_volumes-find :
    (k : String) (size : Float) (vs : List Value) (spec : Spec)
    → same "dataVolumeGiB" k ≡ false
    → same "volumes" k ≡ false
    → find k (with_volumes size vs spec) ≡ find k spec
with_volumes-find k size [] spec d v = find-remove_ne k "dataVolumeGiB" spec d
with_volumes-find k size (w ∷ ws) spec d v =
    let listed : Value = array (items (map (resized size) (w ∷ ws))) in
    find-set_ne k "dataVolumeGiB" (number size) (set "volumes" listed spec) d
    ∙ find-set_ne k "volumes" listed spec v

pub Computed-find :
    (k : String) {template out : Spec} {selected : SelectedResources}
    → Computed template selected out
    → same "cpuCores" k ≡ false
    → same "memoryMiB" k ≡ false
    → same "systemDiskGiB" k ≡ false
    → find k out ≡ find k template
Computed-find k {template} {out} {selected} computed c m s =
    let cpu : Value = number (or_default computed.minimum.cpu_cores selected.cpu_cores) in
    let memory : Value = number (or_default computed.minimum.memory_mib selected.memory_mib) in
    let one = set "cpuCores" cpu template in
    let two = set "memoryMiB" memory one in
    ap (find k) computed.result
    ∙ find-set_ne k "systemDiskGiB" (number (whole 5)) two s
    ∙ find-set_ne k "memoryMiB" memory one m
    ∙ find-set_ne k "cpuCores" cpu template c

-- The specifications after each step.
pub record Steps (template : Spec) (selected : SelectedResources) (s1 s2 s3 s4 out : Spec)
    : Type 0 where
  pub compute : Computed template selected s1
  pub capacity : Chosen (editable_runtime_option s1 "dataVolume" false) s1 s2 (Sized s1)
  pub command : Chosen (editable_runtime_option s2 "command" false) s2 s3 (Commanded s2)
  pub environment : Chosen (editable_runtime_option s3 "environment" false) s3 s4 (Configured s3)
  pub dependencies : Chosen (editable_runtime_option s4 "dependencies" false) s4 out (Connected s4)

module _ {template : Spec} {selected : SelectedResources} {s1 s2 s3 s4 out : Spec}
    (steps : Steps template selected s1 s2 s3 s4 out) where
  pub step1 :
      (k : String)
      → same "cpuCores" k ≡ false
      → same "memoryMiB" k ≡ false
      → same "systemDiskGiB" k ≡ false
      → find k s1 ≡ find k template
  step1 k c m s = Computed-find k steps.compute c m s

  pub step2 :
      (k : String)
      → same "dataVolumeGiB" k ≡ false
      → same "volumes" k ≡ false
      → find k s2 ≡ find k s1
  step2 k d v = Chosen-find k steps.capacity (λ (size, e).
      ap (find k) e
      ∙ with_volumes-find k size (volumes_or_none (as_array (get "volumes" s1))) s1 d v)

  pub step3 : (k : String) → same "command" k ≡ false → find k s3 ≡ find k s2
  step3 k c =
      Chosen-find k steps.command
        (λ (command, e). ap (find k) e ∙ find-set_ne k "command" (strings command) s2 c)

  pub step4 : (k : String) → same "env" k ≡ false → find k s4 ≡ find k s3
  step4 k c =
      Chosen-find k steps.environment
        (λ (variables, e, _). ap (find k) e ∙ find-set_ne k "env" (object (fields variables)) s3 c)

  pub step5 : (k : String) → same "dependencies" k ≡ false → find k out ≡ find k s4
  step5 k c = Chosen-find k steps.dependencies (λ (ds, e).
      ap (find k) e ∙ find-set_ne k "dependencies" (array (items (map encode_dependency ds))) s4 c)

  pub others-kept : (k : String) → member k choosable ≡ false → find k out ≡ find k template
  others-kept k h =
      step5 k (ground arith)
      ∙ step4 k (ground arith)
      ∙ step3 k (ground arith)
      ∙ step2 k (ground arith) (ground arith)
      ∙ step1 k (ground arith) (ground arith) (ground arith)
