-- ===== src/VersionSpecs/Whole.antt =====
-- Whole numbers as float64, read back by internal/httpapi/product_spec.go and apps/worker/main.go.
use native.Mathlib.Nat.{mul-le-mul_right, mul-div_cancel, mod-eq-sub-div-mul}
use cloudmeter.Common.{refl, ℕ, ◌*◌, ◌/◌, ◌%◌, ◌≤◌, ◌≡◌, sym, ap, ◌∙◌, false, Option, some, arith}
use cloudmeter.Common.Int.{ℤ}
use cloudmeter.Runtime.Float.{is_nan, Float, lt, whole, unit}
use cloudmeter.Runtime.Resources.Capacity.{unit-pos}
use cloudmeter.Runtime.Value.{Value, number}
use cloudmeter.VersionSpecs.Fields.{to_int, exact_integer, between, integer_between}
use cloudmeter.VersionSpecs.Probe.{truncated, number_or, port_or}

pub whole-div : (n : ℕ) → n * unit / unit ≡ n
whole-div n = mul-div_cancel n (unit-pos)

whole-mod : (n : ℕ) → n * unit % unit ≡ 0
whole-mod n =
    omega (arith, mod-eq-sub-div-mul (n * unit) unit, ap (λ (m : ℕ). m * unit) (whole-div n))

to_int-small : (n : ℕ) → n ≤ 65535 → to_int false n ≡ ℤ.pos n
unfolding to_int
to_int-small n h = ground arith

pub exact_integer-whole : (n : ℕ) → n ≤ 65535 → exact_integer (number (whole n)) ≡ some (ℤ.pos n)
unfolding exact_integer
exact_integer-whole n h = rw (whole-mod n, whole-div n) (ap some (to_int-small n h))

-- A number between two bounds is read back from its float64.
pub integer_between-whole :
    (lo hi n : ℕ) → lo ≤ n → n ≤ hi → hi ≤ 65535 → integer_between lo hi (number (whole n)) ≡ some n
unfolding integer_between
integer_between-whole lo hi n l h s = rw (exact_integer-whole n (omega arith)) (ground arith)

between-bounds : (lo hi : ℕ) (z : Option ℤ) (n : ℕ) → between lo hi z ≡ some n → (lo ≤ n) × (n ≤ hi)
between-bounds lo hi z n e = ground arith

-- What is read is within the bounds.
pub integer_between-bounds :
    (lo hi : ℕ) (v : Value) (n : ℕ) → integer_between lo hi v ≡ some n → (lo ≤ n) × (n ≤ hi)
unfolding integer_between
integer_between-bounds lo hi v n e = between-bounds lo hi (exact_integer v) n e

lt-whole : (m n : ℕ) → m ≤ n → lt (whole n) (whole m) ≡ false
lt-whole m n h = ground (arith, mul-le-mul_right unit h)

number_or-inside :
    (initial : ℤ) (most : ℕ) (x : Float)
    → lt x (whole 1) ≡ false
    → lt (whole most) x ≡ false
    → number_or initial most (some x) ≡ truncated x
number_or-inside initial most x a b = ground arith

truncated-whole : (n : ℕ) → n ≤ 65535 → truncated (whole n) ≡ ℤ.pos n
truncated-whole n h = ap (to_int false) (whole-div n) ∙ to_int-small n h

-- A number from 1 up to the most is read by the worker as it is.
pub number_or-whole :
    (initial : ℤ) (most n : ℕ)
    → 1 ≤ n
    → n ≤ most
    → most ≤ 65535
    → number_or initial most (some (whole n)) ≡ ℤ.pos n
number_or-whole initial most n l h s =
    number_or-inside initial most (whole n) (lt-whole 1 n l) (lt-whole n most h)
    ∙ truncated-whole n (omega arith)

port_or-inside :
    (other : ℤ) (x : Float)
    → is_nan x ≡ false
    → lt x (whole 1) ≡ false
    → lt (whole 65535) x ≡ false
    → port_or other (some x) ≡ truncated x
port_or-inside other x a b c = ground arith

-- A port is read by the worker as it is.
pub port_or-whole :
    (other : ℤ) (n : ℕ) → 1 ≤ n → n ≤ 65535 → port_or other (some (whole n)) ≡ ℤ.pos n
port_or-whole other n l h =
    port_or-inside other (whole n) refl (lt-whole 1 n l) (lt-whole n 65535 h) ∙ truncated-whole n h

pub integer_between-whole_only :
    (lo hi n m : ℕ) → n ≤ 65535 → integer_between lo hi (number (whole n)) ≡ some m → m ≡ n
unfolding integer_between
integer_between-whole_only lo hi n m s e =
    let read : between lo hi (some (ℤ.pos n)) ≡ some m =
      ap (between lo hi) (sym (exact_integer-whole n s)) ∙ e in
    ground arith
