-- ===== src/Runtime/Float.antt =====
-- Go's float64 as internal/runtime/spec.go and internal/httpapi/product_spec.go use it: compared, and
-- tested for NaN, for the infinities and for a whole number. A finite float64 is a whole multiple of
-- 2 ^ -1074, so `pos n` and `neg n` are n and -n of these units, and a comparison of them is exact.
-- Negative zero is `neg 0`, which compares as zero.
use cloudmeter.Common.{ℕ, ◌+◌, ◌*◌, ◌^◌, ◌≤◌, ◌≡◌, Bool, true, false, ◌||◌, ltb, arith}

pub data Float : Type 0 where
  nan pos_inf neg_inf : Float
  pos neg : ℕ → Float

-- `x < y`.
abbrev pub lt : Float → Float → Bool
lt nan y = false
lt pos_inf y = false
lt neg_inf nan = false
lt neg_inf neg_inf = false
lt neg_inf y = true
lt (pos a) (pos b) = ltb a b
lt (pos a) pos_inf = true
lt (pos a) y = false
lt (neg a) (neg b) = ltb b a
lt (neg a) (pos b) = ltb 0 (a + b)
lt (neg a) pos_inf = true
lt (neg a) y = false

-- math.IsNaN and math.IsInf(x, 0).
abbrev pub is_nan : Float → Bool
is_nan nan = true
is_nan x = false

abbrev pub is_inf : Float → Bool
is_inf pos_inf = true
is_inf neg_inf = true
is_inf x = false

-- The units of 1.
unfoldable pub unit : ℕ
unit = 2 ^ 1074

abbrev pub whole : ℕ → Float
whole n = pos (n * unit)

-- `math.IsNaN(x) || math.IsInf(x, 0) || x < lo || x > hi`.
abbrev pub is_outside : Float → Float → Float → Bool
is_outside lo hi x = is_nan x || is_inf x || lt x lo || lt hi x

-- A finite number between two bounds, which are given in units.
pub data Within (lo hi : ℕ) : Float → Type 0 where
  within : {n : ℕ} → lo ≤ n → n ≤ hi → Within lo hi (pos n)

pub is_outside-Within :
    (lo hi : ℕ) (x : Float) → 1 ≤ lo → is_outside (pos lo) (pos hi) x ≡ false → Within lo hi x
is_outside-Within lo hi nan l h = cc
is_outside-Within lo hi pos_inf l h = cc
is_outside-Within lo hi neg_inf l h = cc
is_outside-Within lo hi (pos n) l h = within (ground arith) (ground arith)
is_outside-Within lo hi (neg n) l h = ground arith
