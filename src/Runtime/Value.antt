-- ===== src/Runtime/Value.antt =====
-- The values that internal/runtime/spec.go and internal/httpapi/product_spec.go read: what
-- encoding/json decodes into `any`, and the slices and maps that a caller in Go may pass.
-- A map is the list of its entries in the order in which a loop meets them, each key once.
use Prim.Native.String.{String}
use text.Mathlib.Text.{◌==◌ as same}
use text.Mathlib.TextEquality.{eq_iff}
use text.Mathlib.TextPositions.{eq_refl}
use cloudmeter.Common.{
  ◌≡◌, refl, ap, ◌∙◌, ◌≢◌, Bool, false, ◌||◌, Option, none, some, List, [], ◌∷◌, map, arith, All,
  if◌then◌else◌,
}
use cloudmeter.Common.Int.{ℤ}
use cloudmeter.Runtime.Float.{Float}

mutual
  pub data Value : Type 0 where
    null : Value
    boolean : Bool → Value
    number : Float → Value
    string : String → Value
    array : Items → Value
    strings : List String → Value
    ints : List ℤ → Value
    object : Fields → Value
    string_map : List (String × String) → Value

  pub data Items : Type 0 where
    nil : Items
    item : Value → Items → Items

  pub data Fields : Type 0 where
    end : Fields
    field : String → Value → Fields → Fields

abbrev pub elements : Items → List Value
elements nil = []
elements (item v vs) = v ∷ elements vs

abbrev pub items : List Value → Items
items [] = nil
items (v ∷ vs) = item v (items vs)

abbrev pub entries : Fields → List (String × Value)
entries end = []
entries (field k v fs) = (k, v) ∷ entries fs

-- `map[string]any`.
abbrev pub Spec : Type 0
Spec = List (String × Value)

module _ {ℓ} {A : Type ℓ} where
  -- `value, exists := m[key]`.
  abbrev pub find : String → List (String × A) → Option A
  find k [] = none
  find k ((j, v) ∷ m) = if same j k then some v else find k m

-- `m[key] = value`, and `delete(m, key)`.
abbrev pub set {ℓ} : {A : Type ℓ} → String → A → List (String × A) → List (String × A)
set k v [] = (k, v) ∷ []
set k v ((j, w) ∷ m) = if same j k then (k, v) ∷ m else (j, w) ∷ set k v m

abbrev pub remove {ℓ} : {A : Type ℓ} → String → List (String × A) → List (String × A)
remove k [] = []
remove k ((j, w) ∷ m) = if same j k then remove k m else (j, w) ∷ remove k m

abbrev pub fields : Spec → Fields
fields [] = end
fields ((k, v) ∷ m) = field k v (fields m)

abbrev pub or_null : Option Value → Value
or_null none = null
or_null (some v) = v

-- `m[key]`: nil when the key is missing.
abbrev pub get : String → Spec → Value
get k m = or_null (find k m)

-- The type assertions `v.(float64)`, `v.(string)`, `v.(bool)`, `v.(map[string]any)`, `v.([]any)`.
abbrev pub numeric : Value → Option Float
numeric (number x) = some x
numeric v = none

abbrev pub as_string : Value → Option String
as_string (string s) = some s
as_string v = none

abbrev pub as_boolean : Value → Option Bool
as_boolean (boolean b) = some b
as_boolean v = none

abbrev pub as_object : Value → Option Spec
as_object (object fs) = some (entries fs)
as_object v = none

abbrev pub as_array : Value → Option (List Value)
as_array (array vs) = some (elements vs)
as_array v = none

-- An array of values, or a `[]string` read as one.
abbrev pub as_values : Value → Option (List Value)
as_values (array vs) = some (elements vs)
as_values (strings ss) = some (map string ss)
as_values v = none

-- `func truthy`.
abbrev pub truthy : Value → Bool
truthy (boolean b) = b
truthy v = false

abbrev pub text_or_empty : Option String → String
text_or_empty none = ""
text_or_empty (some s) = s

-- `s, _ := v.(string)`.
abbrev pub text_of : Value → String
text_of v = text_or_empty (as_string v)

-- `seen[key]`, where the set is listed.
abbrev pub member : String → List String → Bool
member k [] = false
member k (j ∷ js) = same j k || member k js

pub elements-items : (vs : List Value) → elements (items vs) ≡ vs
elements-items [] = refl
elements-items (v ∷ vs) = ap (λ vs. v ∷ vs) (elements-items vs)

pub entries-fields : (m : Spec) → entries (fields m) ≡ m
entries-fields [] = refl
entries-fields ((k, v) ∷ m) = ap (λ m. (k, v) ∷ m) (entries-fields m)

pub find-set {ℓ} :
    {A : Type ℓ} (j k : String) (v : A) (m : List (String × A))
    → find j (set k v m) ≡ (if same k j then some v else find j m)
find-set j k v [] = refl
find-set j k v ((i, w) ∷ m) = ground (arith, eq_iff k j, eq_iff i k, eq_iff i j, find-set j k v m)

pub find-remove {ℓ} :
    {A : Type ℓ} (j k : String) (m : List (String × A))
    → find j (remove k m) ≡ (if same k j then none else find j m)
find-remove j k [] = ground arith
find-remove j k ((i, w) ∷ m) = ground (arith, eq_iff k j, eq_iff i k, eq_iff i j, find-remove j k m)

-- The other keys of a map keep their values.
pub find-set_ne {ℓ} :
    {A : Type ℓ} (j k : String) (v : A) (m : List (String × A))
    → same k j ≡ false
    → find j (set k v m) ≡ find j m
find-set_ne j k v m h = find-set j k v m ∙ rw h refl

pub find-remove_ne {ℓ} :
    {A : Type ℓ} (j k : String) (m : List (String × A))
    → same k j ≡ false
    → find j (remove k m) ≡ find j m
find-remove_ne j k m h = find-remove j k m ∙ rw h refl

pub find-set_self {ℓ} :
    {A : Type ℓ} (k : String) (v : A) (m : List (String × A)) → find k (set k v m) ≡ some v
find-set_self k v m = find-set k k v m ∙ rw (eq_refl k) refl

abbrev pub IsAbsent : String → List String → Type 0
IsAbsent k = All (λ j. j ≢ k)

-- No text occurs twice.
abbrev pub Distinct : List String → Type 0
Distinct [] = Unit
Distinct (k ∷ ks) = IsAbsent k ks × Distinct ks

pub member-IsAbsent : (k : String) (js : List String) → member k js ≡ false → IsAbsent k js
member-IsAbsent k [] h = tt
member-IsAbsent k (j ∷ js) h = ground (arith, eq_iff j k, member-IsAbsent k js)

pub IsAbsent-member : (k : String) (js : List String) → IsAbsent k js → member k js ≡ false
IsAbsent-member k [] h = refl
IsAbsent-member k (j ∷ js) h = ground (arith, eq_iff j k, IsAbsent-member k js)
