-- ===== src/Runtime/Volumes/Sound.antt =====
-- What the checks of `ValidateRuntimeSpec` leave for `VolumeMounts`, in internal/runtime/spec.go.
use Prim.Native.String.{String}
use mathlib.Core.Path.{subst}
use text.Mathlib.Text.{◌==◌ as same}
use text.Mathlib.TextEquality.{eq_iff}
use cloudmeter.Common.{
  ◌≡◌, ◌≢◌, refl, ap, inl, inr, true, false, ◌||◌, Option, none, some, List, [], ◌∷◌, map, All,
  arith, Option-cases,
}
use cloudmeter.Common.Text.{is_empty}
use cloudmeter.Runtime.Float.{whole}
use cloudmeter.Runtime.Value.{
  Value, Spec, find, or_null, get, numeric, as_array, as_object, text_of, member, Distinct,
}
use cloudmeter.Runtime.Fresh.{Fresh, Fresh-nil, Fresh-cons}
use cloudmeter.Runtime.Resources.{or_default, volumes_or_none}
use cloudmeter.Runtime.Patterns.{is_volume_key, has_prefix, contains}
use cloudmeter.Runtime.Patterns.Parts.{append, contains-append}
use cloudmeter.Runtime.Result.{ok, need, bind-eq-ok, refuse-eq-ok, volumes_not_array}
use cloudmeter.Runtime.Volumes.{
  VolumeMount, is_bad_mount, volume_entry, check_volumes, validate_volumes, mount_fields, mounts,
  volume_mounts,
}

-- A path below the root with no parent in it.
pub record IsInside (path : String) : Type 0 where
  pub absolute : has_prefix "/" path ≡ true
  pub below : path ≢ "/"
  pub no_parent : (before after : String) → path ≢ append before (append ".." after)

-- The mount that an entry declares, with 10 GiB where it declares no size.
abbrev pub mount_of : Spec → VolumeMount
mount_of entry = record {
  key = text_of (get "name" entry);
  mount_path = text_of (get "mountPath" entry);
  size_gib = or_default (whole 10) (numeric (get "sizeGiB" entry));
}

-- One mount for each value, in their order.
abbrev pub MountsAll : List Value → List VolumeMount → Type 0
MountsAll [] [] = Unit
MountsAll [] (m ∷ ms) = ⊥
MountsAll (v ∷ vs) [] = ⊥
MountsAll (v ∷ vs) (m ∷ ms) =
    ((entry : Spec) × (as_object v ≡ some entry) × (m ≡ mount_of entry)) × MountsAll vs ms

abbrev pub keys_of : List VolumeMount → List String
keys_of = map (λ (m : VolumeMount). m.key)

abbrev pub paths_of : List VolumeMount → List String
paths_of = map (λ (m : VolumeMount). m.mount_path)

pub record AreMounts (vs : List Value) (ms : List VolumeMount) : Type 0 where
  pub mounted : MountsAll vs ms
  pub keys_valid : All (λ (m : VolumeMount). is_volume_key m.key ≡ true) ms
  pub inside : All (λ (m : VolumeMount). IsInside m.mount_path) ms
  pub keys_distinct : Distinct (keys_of ms)
  pub paths_distinct : Distinct (paths_of ms)

is_bad_mount-IsInside : (path : String) → is_bad_mount path ≡ false → IsInside path
unfolding is_bad_mount
is_bad_mount-IsInside path h =
    let found : contains ".." path ≡ false = ground arith in
    record {
      absolute = ground arith;
      below = ground (arith, eq_iff path "/");
      no_parent = λ before after e.
          let there = contains-append ".." before after in ground (arith, ap (contains "..") e);
    }

is_volume_key-filled : (key : String) → is_volume_key key ≡ true → is_empty key ≡ false
unfolding is_volume_key
is_volume_key-filled String.[] h = cc
is_volume_key-filled (String.◌∷◌ c s) h = refl

has_prefix-filled : (path : String) → has_prefix "/" path ≡ true → is_empty path ≡ false
unfolding has_prefix
has_prefix-filled String.[] h = cc
has_prefix-filled (String.◌∷◌ c s) h = refl

-- An entry that passes is the object of a mount.
volume_entry_lem :
    (v : Value) (found : String × String)
    → volume_entry v ≡ ok found
    → (entry : Spec) × (as_object v ≡ some entry)
      × (found ≡ (text_of (get "name" entry), text_of (get "mountPath" entry)))
      × (is_volume_key (text_of (get "name" entry)) ≡ true)
      × (is_bad_mount (text_of (get "mountPath" entry)) ≡ false)
unfolding volume_entry
volume_entry_lem v found h = elim (Option-cases (as_object v)) [
  | inl e ↦ ground arith
  | inr (entry, e) ↦ (entry, e, ground arith, ground arith, ground arith)
]

-- What the loop has of the mounts, when these names and paths are met before.
abbrev Mounted : List String → List String → List Value → List VolumeMount → Type 0
Mounted keys paths vs ms =
    MountsAll vs ms
    × All (λ (m : VolumeMount). is_volume_key m.key ≡ true) ms
    × All (λ (m : VolumeMount). IsInside m.mount_path) ms
    × Fresh keys (keys_of ms)
    × Fresh paths (paths_of ms)

Mounted-cons :
    (keys paths : List String) (v : Value) (vs : List Value) (entry : Spec) (ms : List VolumeMount)
    → as_object v ≡ some entry
    → let m = mount_of entry in
      is_volume_key m.key ≡ true
      → IsInside m.mount_path
      → (member m.key keys || member m.mount_path paths) ≡ false
      → Mounted (m.key ∷ keys) (m.mount_path ∷ paths) vs ms
      → Mounted keys paths (v ∷ vs) (mount_fields (as_object v) ms)
Mounted-cons keys paths v vs entry ms o good inside fresh (a, b, c, fk, fp) =
    let m = mount_of entry in
    let kept : m ∷ ms ≡ mount_fields (as_object v) ms =
      ground
        (arith, is_volume_key-filled m.key good, has_prefix-filled m.mount_path inside.absolute) in
    subst (Mounted keys paths (v ∷ vs)) kept (
      ((entry, o, refl), a),
      (good, b),
      (inside, c),
      Fresh-cons m.key keys (keys_of ms) (ground arith) fk,
      Fresh-cons m.mount_path paths (paths_of ms) (ground arith) fp,
    )

-- The loop of `VolumeMounts` keeps every value that the checks have passed.
check_volumes-Mounted :
    (keys paths : List String) (vs : List Value)
    → check_volumes keys paths vs ≡ ok tt
    → Mounted keys paths vs (mounts vs)
unfolding check_volumes mounts
check_volumes-Mounted keys paths [] h = (tt, tt, tt, Fresh-nil keys, Fresh-nil paths)
check_volumes-Mounted keys paths (v ∷ vs) h =
    let (found, e, h1) = bind-eq-ok (volume_entry v) _ h in
    let (fresh, h2) = refuse-eq-ok (member found.0 keys || member found.1 paths) _ _ h1 in
    let (entry, o, same, good, bad) = volume_entry_lem v found e in
    let m = mount_of entry in
    let fresh' : (member m.key keys || member m.mount_path paths) ≡ false =
      subst (λ f. (member f.0 keys || member f.1 paths) ≡ false) same fresh in
    let rest =
      subst (λ f. Mounted (f.0 ∷ keys) (f.1 ∷ paths) vs (mounts vs)) same
        (check_volumes-Mounted (found.0 ∷ keys) (found.1 ∷ paths) vs h2) in
    Mounted-cons keys paths v vs entry (mounts vs) o good (is_bad_mount-IsInside _ bad) fresh' rest

Mounted-AreMounts :
    {vs : List Value} {ms : List VolumeMount} → Mounted [] [] vs ms → AreMounts vs ms
Mounted-AreMounts (a, b, c, fk, fp) = record {
  mounted = a;
  keys_valid = b;
  inside = c;
  keys_distinct = fk.distinct;
  paths_distinct = fp.distinct;
}

declared_volumes :
    (field : Option Value)
    → validate_volumes field ≡ ok tt
    → let vs = volumes_or_none (as_array (or_null field)) in Mounted [] [] vs (mounts vs)
unfolding validate_volumes mounts
declared_volumes none h = (tt, tt, tt, Fresh-nil [], Fresh-nil [])
declared_volumes (some raw) h =
    let (vs, e, h1) = bind-eq-ok (need (as_array raw) volumes_not_array) _ h in
    let listed : vs ≡ volumes_or_none (as_array raw) = ground arith in
    subst (λ vs. Mounted [] [] vs (mounts vs)) listed (check_volumes-Mounted [] [] vs h1)

-- The volumes of an accepted field `volumes` are mounted as declared: one mount for each value of the
-- array, in the order of the array, with the name, the path and the size of its object; every name is
-- valid, every path is absolute, below the root and without a parent in it, and no name and no path
-- occurs twice.
pub volume_mounts-AreMounts :
    (spec : Spec)
    → validate_volumes (find "volumes" spec) ≡ ok tt
    → AreMounts (volumes_or_none (as_array (get "volumes" spec))) (volume_mounts spec)
unfolding volume_mounts
volume_mounts-AreMounts spec h = Mounted-AreMounts (declared_volumes (find "volumes" spec) h)
