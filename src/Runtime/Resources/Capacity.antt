-- ===== src/Runtime/Resources/Capacity.antt =====
-- The capacity that `RuntimeDataVolumeGiB` of internal/runtime/spec.go returns, against the sizes of
-- the volumes.
use mathlib.Core.Path.{subst}
use cloudmeter.Common.{
  ℕ, ◌*◌, ◌≤◌, ◌≡◌, refl, ◌⊎◌, Bool, true, false, ◌&&◌, Option, none, some, List, [], ◌∷◌, sym, ◌∙◌,
  arith, All, if◌then◌else◌,
}
use cloudmeter.Runtime.Float.{
  Float, nan, pos_inf, neg_inf, pos, neg, lt, is_outside, whole, unit, Within, within,
  is_outside-Within,
}
use cloudmeter.Runtime.Value.{Value, Spec, get, numeric, as_object, as_array}
use cloudmeter.Runtime.Result.{ok, bind-eq-ok}
use cloudmeter.Runtime.Resources.{
  or_default, volume_size, data_disk, runtime_storage, runtime_data_volume_gib, is_declared,
}

abbrev entry_size : Option Spec → Float
entry_size none = whole 10
entry_size (some entry) = or_default (whole 10) (numeric (get "sizeGiB" entry))

-- The size that a volume declares, 10 GiB where it declares none.
abbrev pub size_of : Value → Float
size_of v = entry_size (as_object v)

abbrev pub last : Value → List Value → Value
last v [] = v
last v (w ∷ ws) = last w ws

-- A number of at most m units.
abbrev pub AtMost : ℕ → Float → Type 0
AtMost m nan = ⊥
AtMost m pos_inf = ⊥
AtMost m neg_inf = Unit
AtMost m (pos n) = n ≤ m
AtMost m (neg n) = Unit

pub unit-pos : 1 ≤ unit
unfolding unit
unit-pos = omega arith

-- An accepted size is the declared one, from 1 to 16384 GiB.
pub volume_size_lem :
    (required : Bool) (v : Value) (s : Float)
    → volume_size required v ≡ ok s
    → (s ≡ size_of v) × Within (1 * unit) (16384 * unit) s
unfolding volume_size
volume_size_lem required v s h =
    let same : s ≡ size_of v = ground arith in
    let inside : is_outside (whole 1) (whole 16384) s ≡ false = ground arith in
    (same, is_outside-Within (1 * unit) (16384 * unit) s (omega (arith, unit-pos)) inside)

pub Within-number :
    (lo hi : ℕ) (x : Float) → Within lo hi x → (n : ℕ) × (x ≡ pos n) × (lo ≤ n) × (n ≤ hi)
Within-number lo hi x (within {n} l h) = (n, refl, l, h)

-- A volume raises the capacity to its size, or leaves it.
AtMost-raise :
    (m : ℕ) (disk : Float) (k : ℕ)
    → AtMost m (if lt disk (pos k) then pos k else disk)
    → AtMost m disk × AtMost m (pos k)
AtMost-raise m nan k a = ground arith
AtMost-raise m pos_inf k a = ground arith
AtMost-raise m neg_inf k a = ground arith
AtMost-raise m (pos n) k a = ground arith
AtMost-raise m (neg n) k a = ground arith

-- Where the loop ends in a number, the capacity it started from and every size are at most that.
data_disk-AtMost :
    (required : Bool) (vs : List Value) (disk : Float) (m : ℕ)
    → data_disk required true vs disk ≡ ok (pos m)
    → AtMost m disk × All (λ v. AtMost m (size_of v)) vs
unfolding data_disk
data_disk-AtMost required [] disk m h = ground arith
data_disk-AtMost required (v ∷ vs) disk m h =
    let (s, e, h1) = bind-eq-ok (volume_size required v) _ h in
    let (same, w) = volume_size_lem required v s e in
    let (a, rest) = data_disk-AtMost required vs (if lt disk s then s else disk) m h1 in
    let (k, number, _, _) = Within-number _ _ s w in
    let (b, c) = AtMost-raise m disk k (rw number at a) in
    (b, (subst (AtMost m) (sym number ∙ same) c, rest))

abbrev IsSizeOf : Float → List Value → Type 0
IsSizeOf d [] = ⊥
IsSizeOf d (v ∷ vs) = (d ≡ size_of v) ⊎ IsSizeOf d vs

-- The loop ends in the capacity it started from or in the size of a volume.
data_disk-IsSizeOf :
    (required : Bool) (vs : List Value) (disk d : Float)
    → data_disk required true vs disk ≡ ok d
    → (d ≡ disk) ⊎ IsSizeOf d vs
unfolding data_disk
data_disk-IsSizeOf required [] disk d h = ground arith
data_disk-IsSizeOf required (v ∷ vs) disk d h =
    let (s, e, h1) = bind-eq-ok (volume_size required v) _ h in
    let (same, w) = volume_size_lem required v s e in
    ground (arith, data_disk-IsSizeOf required vs (if lt disk s then s else disk) d h1)

-- Where no capacity is declared, the loop ends in the size of the last volume.
data_disk-last :
    (required : Bool) (v : Value) (vs : List Value) (disk d : Float)
    → data_disk required false (v ∷ vs) disk ≡ ok d
    → d ≡ size_of (last v vs)
unfolding data_disk
data_disk-last required v [] disk d h =
    let (s, e, h1) = bind-eq-ok (volume_size required v) _ h in
    let (same, w) = volume_size_lem required v s e in ground arith
data_disk-last required v (w ∷ ws) disk d h =
    let (s, e, h1) = bind-eq-ok (volume_size required v) _ h in data_disk-last required w ws s d h1

-- What the capacity of an application is: the size of the last volume where the specification
-- declares none, and otherwise the largest of the declared capacity and the sizes.
pub data IsCapacity (v : Value) (vs : List Value) : Option Float → Float → Type 0 where
  undeclared : {d : Float} → d ≡ size_of (last v vs) → IsCapacity v vs none d
  declared :
      {c d : Float} (m : ℕ)
      → d ≡ pos m
      → 1 * unit ≤ m
      → m ≤ 16384 * unit
      → AtMost m c
      → All (λ w. AtMost m (size_of w)) (v ∷ vs)
      → (d ≡ c) ⊎ IsSizeOf d (v ∷ vs)
      → IsCapacity v vs (some c) d

data_disk-IsCapacity :
    (required : Bool) (v : Value) (vs : List Value) (size : Option Float) (d : Float)
    → data_disk required
        (is_declared (v ∷ vs) size)
        (v ∷ vs)
        (if is_declared (v ∷ vs) size then or_default (pos 0) size else pos 0)
      ≡ ok d
    → (is_declared (v ∷ vs) size && is_outside (whole 1) (whole 16384) d) ≡ false
    → IsCapacity v vs size d
data_disk-IsCapacity required v vs none d e o =
    IsCapacity.undeclared (data_disk-last required v vs (pos 0) d e)
data_disk-IsCapacity required v vs (some c) d e o =
    let w = is_outside-Within (1 * unit) (16384 * unit) d (omega (arith, unit-pos)) o in
    let (m, number, l, h) = Within-number _ _ d w in
    let (a, all) = data_disk-AtMost required (v ∷ vs) c m (rw number at e) in
    IsCapacity.declared m number l h a all (data_disk-IsSizeOf required (v ∷ vs) c d e)

-- `RuntimeDataVolumeGiB` of a specification with volumes: where it declares no shared capacity, the
-- result is the size of its last volume, whatever the others are; where it declares one, the result
-- is the largest of the declared capacity and the sizes of the volumes, from 1 to 16384 GiB.
pub runtime_data_volume_gib-IsCapacity :
    (spec : Spec) (required : Bool) (v : Value) (vs : List Value) (d : Float)
    → as_array (get "volumes" spec) ≡ some (v ∷ vs)
    → runtime_data_volume_gib spec required ≡ ok d
    → IsCapacity v vs (numeric (get "dataVolumeGiB" spec)) d
unfolding runtime_data_volume_gib runtime_storage
runtime_data_volume_gib-IsCapacity spec required v vs d a h =
    let size = numeric (get "dataVolumeGiB" spec) in
    let start : Float = if is_declared (v ∷ vs) size then or_default (pos 0) size else pos 0 in
    let disk = data_disk required (is_declared (v ∷ vs) size) (v ∷ vs) start in
    let parts : (disk ≡ ok d)
        × ((is_declared (v ∷ vs) size && is_outside (whole 1) (whole 16384) d) ≡ false) =
      ground arith in
    data_disk-IsCapacity required v vs size d parts.0 parts.1
