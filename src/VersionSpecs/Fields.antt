-- ===== src/VersionSpecs/Fields.antt =====
-- The fields that internal/httpapi/product_spec.go reads: whole numbers, paths and flags.
use Prim.Native.String.{String}
use text.Mathlib.Text.{◌==◌ as same}
use cloudmeter.Common.{
  ℕ, ◌-◌, ◌/◌, ◌%◌, ◌^◌, Bool, true, false, not, ◌&&◌, ◌||◌, Option, none, some, leb, ltb, ◌==◌,
  if◌then◌else◌,
}
use cloudmeter.Common.Int.{ℤ, negsuc}
use cloudmeter.Common.Text.{all_chars, byte_len, is_empty, trim_right, trim_space}
use cloudmeter.Runtime.Float.{Float, pos, neg, unit}
use cloudmeter.Runtime.Value.{Value, Spec, boolean, find, set, null, string, numeric, as_boolean}
use cloudmeter.Runtime.Patterns.{has_prefix, contains}
use cloudmeter.Runtime.Result.{
  Result, ok, fail, ◌>>=◌, ◌>>◌, refuse, need, path_invalid, flag_not_boolean,
}

-- `int(value)` of a finite whole number on a 64-bit machine. Past the range of int64 the language
-- leaves the result open; it is the least int64 here, as on amd64.
unfoldable pub to_int : Bool → ℕ → ℤ
to_int false n = if ltb n (2 ^ 63) then ℤ.pos n else negsuc (2 ^ 63 - 1)
to_int true n =
    if ltb n (2 ^ 63) then (if n == 0 then ℤ.pos 0 else negsuc (n - 1)) else negsuc (2 ^ 63 - 1)

-- `value != math.Trunc(value)` fails for no infinity, so that both are tested before.
abbrev pub exact_float : Option Float → Option ℤ
exact_float (some (pos n)) = if n % unit == 0 then some (to_int false (n / unit)) else none
exact_float (some (neg n)) = if n % unit == 0 then some (to_int true (n / unit)) else none
exact_float x = none

unfoldable pub exact_integer : Value → Option ℤ
unfolding to_int
exact_integer v = exact_float (numeric v)

abbrev pub between : ℕ → ℕ → Option ℤ → Option ℕ
between lo hi (some (ℤ.pos n)) = if leb lo n && leb n hi then some n else none
between lo hi z = none

-- `n, ok := exactInteger(raw)` with `ok && lo <= n && n <= hi`.
unfoldable pub integer_between : ℕ → ℕ → Value → Option ℕ
unfolding exact_integer
integer_between lo hi v = between lo hi (exact_integer v)

-- strings.ContainsAny(value, " \r\n\t?#").
abbrev pub has_separator : String → Bool
has_separator s =
    not (all_chars (λ c. not (c == 32 || c == 13 || c == 10 || c == 9 || c == b'?' || c == b'#')) s)

abbrev pub is_slash : ℕ → Bool
is_slash c = c == b'/'

-- The path that a text gives.
unfoldable pub absolute_path : Bool → String → Result String
unfolding all_chars byte_len trim_right trim_space has_prefix contains
absolute_path optional raw =
    let value = trim_space raw in
    if is_empty value && optional then ok "" else do
      refuse
          (is_empty value
            || not (has_prefix "/" value)
            || has_separator value
            || contains ".." value
            || ltb 512 (byte_len value))
          path_invalid
      ok (if same value "/" then value else trim_right is_slash value)

abbrev pub parse_path : Bool → Value → Result String
parse_path optional null = ok (if optional then "" else "/")
parse_path optional (string s) = absolute_path optional s
parse_path optional v = fail path_invalid

unfoldable pub normalized_absolute_path : Value → Bool → Result String
unfolding absolute_path
normalized_absolute_path raw optional = parse_path optional raw

-- The value of a flag: the fallback where the field is missing.
abbrev pub flag : Option Value → Bool → Result Bool
flag none fallback = ok fallback
flag (some raw) fallback = need (as_boolean raw) flag_not_boolean

-- The value, and the specification with the flag stored.
unfoldable pub normalized_boolean : Spec → String → Bool → Result (Bool × Spec)
normalized_boolean spec key fallback = do
  value ← flag (find key spec) fallback
  ok (value, set key (boolean value) spec)
