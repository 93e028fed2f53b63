-- ===== src/Runtime/Volumes.antt =====
-- The volumes of a specification: their checks in `ValidateRuntimeSpec` and `VolumeMounts`, of
-- internal/runtime/spec.go.
pub mod Sound
use Prim.Native.String.{String}
use text.Mathlib.Text.{◌==◌ as same}
use cloudmeter.Common.{
  ℕ, Bool, true, false, not, ◌&&◌, ◌||◌, Option, none, some, List, [], ◌∷◌, if◌then◌else◌,
}
use cloudmeter.Common.Text.{is_empty}
use cloudmeter.Runtime.Float.{Float, whole}
use cloudmeter.Runtime.Value.{
  Value, Spec, get, numeric, as_array, as_object, as_string, text_of, member,
}
use cloudmeter.Runtime.Resources.{or_default, volumes_or_none}
use cloudmeter.Runtime.Patterns.{is_volume_key, has_prefix, contains}
use cloudmeter.Runtime.Result.{
  Result, ok, fail, ◌>>=◌, ◌>>◌, refuse, need, volumes_not_array, host_path, volume_shape,
  volume_name, volume_path, volume_duplicated,
}

pub record VolumeMount : Type 0 where
  pub key : String
  pub mount_path : String
  pub size_gib : Float

-- A text that names a path of the host.
abbrev pub is_host_path : Option String → Bool
is_host_path none = false
is_host_path (some s) = has_prefix "/" s || contains ":\\" s

-- Not an absolute path below the root, or one with a parent in it.
unfoldable pub is_bad_mount : String → Bool
unfolding has_prefix contains
is_bad_mount path = not (has_prefix "/" path) || same path "/" || contains ".." path

-- The name and the mount path of one entry.
unfoldable pub volume_entry : Value → Result (String × String)
unfolding is_bad_mount is_volume_key has_prefix contains
volume_entry v = do
  refuse (is_host_path (as_string v)) host_path
  entry ← need (as_object v) volume_shape
  let key = text_of (get "name" entry)
  let path = text_of (get "mountPath" entry)
  refuse (not (is_volume_key key)) volume_name
  refuse (is_bad_mount path) volume_path
  ok (key, path)

-- The loop, which remembers the names and the paths of the entries before.
unfoldable pub check_volumes : List String → List String → List Value → Result (Unit {0})
unfolding volume_entry
check_volumes keys paths [] = ok tt
check_volumes keys paths (v ∷ vs) = do
  entry ← volume_entry v
  refuse (member entry.0 keys || member entry.1 paths) volume_duplicated
  check_volumes (entry.0 ∷ keys) (entry.1 ∷ paths) vs

unfoldable pub validate_volumes : Option Value → Result (Unit {0})
unfolding check_volumes
validate_volumes none = ok tt
validate_volumes (some raw) = do
  values ← need (as_array raw) volumes_not_array
  check_volumes [] [] values

-- One round of the loop of `VolumeMounts`: an entry that is no object, or has no name or no path, is
-- left out.
abbrev pub mount_fields : Option Spec → List VolumeMount → List VolumeMount
mount_fields none rest = rest
mount_fields (some entry) rest =
    let key = text_of (get "name" entry) in
    let path = text_of (get "mountPath" entry) in
    if not (is_empty key) && not (is_empty path)
    then record {
      key = key;
      mount_path = path;
      size_gib = or_default (whole 10) (numeric (get "sizeGiB" entry));
    }
      ∷ rest
    else rest

unfoldable pub mounts : List Value → List VolumeMount
mounts [] = []
mounts (v ∷ vs) = mount_fields (as_object v) (mounts vs)

unfoldable pub volume_mounts : Spec → List VolumeMount
unfolding mounts
volume_mounts spec = mounts (volumes_or_none (as_array (get "volumes" spec)))
