-- ===== src/Runtime/Resources.antt =====
-- `RuntimeResources`, `RuntimeStorage` and `RuntimeDataVolumeGiB` of internal/runtime/spec.go.
pub mod Capacity
use Prim.Native.String.{String}
use cloudmeter.Common.{
  ℕ, ◌+◌, ◌*◌, ◌^◌, Bool, true, false, not, ◌&&◌, ◌||◌, Option, none, some, List, [], ◌∷◌,
  if◌then◌else◌,
}
use cloudmeter.Runtime.Float.{Float, pos, lt, is_outside, whole, unit}
use cloudmeter.Runtime.Value.{Value, Spec, get, numeric, as_object, as_array}
use cloudmeter.Runtime.Result.{
  Result, ok, fail, ◌>>=◌, ◌>>◌, refuse, need, resources_missing, cpu_out_of_range,
  memory_out_of_range, system_disk_out_of_range, data_volume_out_of_range, volume_not_object,
  volume_without_size, volume_size_out_of_range,
}

-- The units of the float64 that is nearest to 0.1: 3602879701896397 / 2 ^ 55.
unfoldable pub tenth : ℕ
tenth = 3602879701896397 * 2 ^ 1019

pub record Resources : Type 0 where
  pub cpu_cores : Float
  pub memory_mib : Float

pub record StorageResources : Type 0 where
  pub system_disk_gib : Float
  pub data_disk_gib : Float

abbrev pub or_default : Float → Option Float → Float
or_default d none = d
or_default d (some x) = x

abbrev pub is_missing {ℓ} : {A : Type ℓ} → Option A → Bool
is_missing none = true
is_missing (some _) = false

unfoldable pub runtime_resources : Spec → Bool → Result Resources
runtime_resources spec required =
    let cpu = numeric (get "cpuCores" spec) in
    let memory = numeric (get "memoryMiB" spec) in
    do
      refuse (required && (is_missing cpu || is_missing memory)) resources_missing
      refuse (is_outside (pos tenth) (whole 64) (or_default (whole 1) cpu)) cpu_out_of_range
      refuse (is_outside (whole 64) (whole 262144) (or_default (whole 512) memory))
          memory_out_of_range
      ok (record {
        cpu_cores = or_default (whole 1) cpu;
        memory_mib = or_default (whole 512) memory;
      })

-- The size of one volume, with the default where it may be left out.
unfoldable pub volume_size : Bool → Value → Result Float
volume_size required volume = do
  entry ← need (as_object volume) volume_not_object
  let size = numeric (get "sizeGiB" entry)
  refuse (required && is_missing size) volume_without_size
  refuse (is_outside (whole 1) (whole 16384) (or_default (whole 10) size)) volume_size_out_of_range
  ok (or_default (whole 10) size)

-- The loop over the volumes: `declared` is `dataDiskOK`, which the loop never sets.
unfoldable pub data_disk : Bool → Bool → List Value → Float → Result Float
unfolding volume_size
data_disk required declared [] disk = ok disk
data_disk required declared (v ∷ vs) disk = do
  size ← volume_size required v
  data_disk required declared vs (if not declared || lt disk size then size else disk)

-- `spec["volumes"].([]any)`, the empty list where it is none.
abbrev pub volumes_or_none : Option (List Value) → List Value
volumes_or_none none = []
volumes_or_none (some vs) = vs

abbrev pub is_declared : List Value → Option Float → Bool
is_declared [] size = false
is_declared (_ ∷ _) size = not (is_missing size)

unfoldable pub runtime_storage : Spec → Bool → Result StorageResources
unfolding data_disk
runtime_storage spec required =
    let system = or_default (whole 5) (numeric (get "systemDiskGiB" spec)) in
    let volumes = volumes_or_none (as_array (get "volumes" spec)) in
    let size = numeric (get "dataVolumeGiB" spec) in
    let declared = is_declared volumes size in
    do
      refuse (is_outside (whole 1) (whole 1024) system) system_disk_out_of_range
      disk ←
          data_disk required declared volumes (if declared then or_default (pos 0) size else pos 0)
      refuse (declared && is_outside (whole 1) (whole 16384) disk) data_volume_out_of_range
      ok (record { system_disk_gib = system; data_disk_gib = disk })

unfoldable pub runtime_data_volume_gib : Spec → Bool → Result Float
unfolding runtime_storage
runtime_data_volume_gib spec required = do
  storage ← runtime_storage spec required
  ok storage.data_disk_gib
