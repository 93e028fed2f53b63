-- ===== src/Runtime/Validate/Bounds.antt =====
-- The numbers of a specification that internal/runtime/spec.go accepts.
use cloudmeter.Common.{
  ℕ, ◌*◌, ◌≤◌, ◌≡◌, inl, inr, Bool, true, false, ◌&&◌, ◌||◌, Option, none, some, List, [], ◌∷◌, All,
  arith, Option-cases, if◌then◌else◌,
}
use cloudmeter.Runtime.Float.{Float, pos, whole, unit, is_outside, Within, is_outside-Within}
use cloudmeter.Runtime.Value.{Value, Spec, get, numeric, as_array, as_object}
use cloudmeter.Runtime.Result.{
  ok, bind-eq-ok, refuse-eq-ok, resources_missing, cpu_out_of_range, memory_out_of_range,
  system_disk_out_of_range,
}
use cloudmeter.Runtime.Resources.{
  tenth, Resources, StorageResources, is_missing, or_default, runtime_resources, runtime_storage,
  volume_size, data_disk, volumes_or_none, is_declared,
}
use cloudmeter.Runtime.Resources.Capacity.{unit-pos}
use cloudmeter.Runtime.Validate.{}

-- A number from lo to hi, both in units.
abbrev pub Declared : Option Float → ℕ → ℕ → Type 0
Declared none lo hi = ⊥
Declared (some x) lo hi = Within lo hi x

abbrev pub declared_size : Option Spec → Option Float
declared_size none = none
declared_size (some entry) = numeric (get "sizeGiB" entry)

tenth-pos : 1 ≤ tenth
unfolding tenth
tenth-pos = omega arith

Declared-default :
    (x : Option Float) (d : Float) (lo hi : ℕ)
    → is_missing x ≡ false
    → is_outside (pos lo) (pos hi) (or_default d x) ≡ false
    → 1 ≤ lo
    → Declared x lo hi
Declared-default none d lo hi m o l = cc
Declared-default (some x) d lo hi m o l = is_outside-Within lo hi x l o

pub runtime_resources-Declared :
    (spec : Spec) (r : Resources)
    → runtime_resources spec true ≡ ok r
    → Declared (numeric (get "cpuCores" spec)) tenth (64 * unit)
      × Declared (numeric (get "memoryMiB" spec)) (64 * unit) (262144 * unit)
unfolding runtime_resources
runtime_resources-Declared spec r h =
    let cpu = numeric (get "cpuCores" spec) in
    let memory = numeric (get "memoryMiB" spec) in
    let (given, h1) =
      refuse-eq-ok (true && (is_missing cpu || is_missing memory)) resources_missing _ h in
    let (c, h2) =
      refuse-eq-ok (is_outside (pos tenth) (whole 64) (or_default (whole 1) cpu)) cpu_out_of_range _
        h1 in
    let (m, h3) =
      refuse-eq-ok (is_outside (whole 64) (whole 262144) (or_default (whole 512) memory))
        memory_out_of_range _ h2 in
    (
      Declared-default cpu (whole 1) tenth (64 * unit) (ground arith) c tenth-pos,
      Declared-default memory (whole 512) (64 * unit) (262144 * unit) (ground arith) m
          (omega (arith, unit-pos)),
    )

volume_size-Declared :
    (v : Value) (s : Float)
    → volume_size true v ≡ ok s
    → Declared (declared_size (as_object v)) (1 * unit) (16384 * unit)
unfolding volume_size
volume_size-Declared v s h = elim (Option-cases (as_object v)) [
  | inl e ↦ ground arith
  | inr (entry, e) ↦ rw e (
      Declared-default (numeric (get "sizeGiB" entry)) (whole 10) (1 * unit) (16384 * unit)
        (ground arith) (ground arith) (omega (arith, unit-pos)))
]

data_disk-Declared :
    (declared : Bool) (vs : List Value) (disk d : Float)
    → data_disk true declared vs disk ≡ ok d
    → All (λ v. Declared (declared_size (as_object v)) (1 * unit) (16384 * unit)) vs
unfolding data_disk
data_disk-Declared declared [] disk d h = tt
data_disk-Declared declared (v ∷ vs) disk d h =
    let (s, e, h1) = bind-eq-ok (volume_size true v) _ h in
    (volume_size-Declared v s e, data_disk-Declared declared vs _ d h1)

pub runtime_storage-Declared :
    (spec : Spec) (r : StorageResources)
    → runtime_storage spec true ≡ ok r
    → All
        (λ v. Declared (declared_size (as_object v)) (1 * unit) (16384 * unit))
        (volumes_or_none (as_array (get "volumes" spec)))
unfolding runtime_storage
runtime_storage-Declared spec r h =
    let (_, h1) =
      refuse-eq-ok
        (is_outside (whole 1) (whole 1024)
          (or_default (whole 5) (numeric (get "systemDiskGiB" spec))))
        system_disk_out_of_range _ h in
    let vs = volumes_or_none (as_array (get "volumes" spec)) in
    let size = numeric (get "dataVolumeGiB" spec) in
    let declared = is_declared vs size in
    let start : Float = if declared then or_default (pos 0) size else pos 0 in
    let (disk, e, h2) = bind-eq-ok (data_disk true declared vs start) _ h1 in
    data_disk-Declared declared vs start disk e
