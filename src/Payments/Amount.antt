-- ===== src/Payments/Amount.antt =====
-- Amounts as texts: `centsAmountText` of internal/httpapi/payment_features.go, `parseAmountCents` of
-- internal/httpapi/epay_callback.go, and what they use of strconv and fmt.
pub mod RoundTrip
use Prim.Native.Char.{Char, code}
use Prim.Native.String.{String, [], ◌∷◌}
use cloudmeter.Common.{
  ℕ, zero, suc, ◌+◌, ◌-◌, ◌*◌, ◌/◌, ◌%◌, ◌^◌, Bool, true, false, ◌&&◌, ◌||◌, not, Option, none,
  some, List, ltb, leb, ◌==◌, if◌then◌else◌,
}
use cloudmeter.Common.Int.{ℤ, pos, negsuc, ◌+ℤ◌, sub64, wrap64, int64_max, ltb_ℤ, sub_ℕ}
use cloudmeter.Common.Text.{
  trim_space, is_empty, byte_len, utf8_size, split, starts_with_char, digit_char, digits,
}

abbrev pub is_digit : ℕ → Bool
is_digit c = leb b'0' c && leb c b'9'

-- The value of a text of digits after those read so far.
unfoldable pub parse_digits : ℕ → String → Option ℕ
parse_digits acc [] = some acc
parse_digits acc (c ∷ s) =
    if is_digit (code c) then parse_digits (acc * 10 + (code c - b'0')) s else none

abbrev pub positive : Option ℕ → Option ℤ
positive none = none
positive (some n) = if leb n int64_max then some (pos n) else none

abbrev pub negative : Option ℕ → Option ℤ
negative none = none
negative (some n) = if leb n (2 ^ 63) then some (sub_ℕ 0 n) else none

abbrev pub parse_uint : String → Option ℕ
parse_uint [] = none
parse_uint (c ∷ s) = parse_digits 0 (c ∷ s)

-- strconv.ParseInt(s, 10, 64): an optional sign and decimal digits.
unfoldable pub parse_int64 : String → Option ℤ
parse_int64 [] = none
parse_int64 (c ∷ s) =
    if code c == b'+'
    then positive (parse_uint s)
    else if code c == b'-'
    then negative (parse_uint s)
    else positive (parse_uint (c ∷ s))

-- `for len(frac) < 2 { frac += "0" }`.
abbrev pub pad_cents : String → String
pad_cents [] = "00"
pad_cents (c ∷ []) = if ltb (utf8_size (code c)) 2 then c ∷ "0" else c ∷ []
pad_cents (c ∷ d ∷ s) = c ∷ d ∷ s

-- Go's `/ 100` on an int64, which goes towards 0.
abbrev pub div_hundred : ℤ → ℤ
div_hundred (pos n) = pos (n / 100)
div_hundred (negsuc n) = sub_ℕ 0 (suc n / 100)

-- The bound on the whole part, and the sum.
abbrev pub join_amount : Option ℤ → Option ℤ → Option ℤ
join_amount (some (pos whole)) (some minor) =
    if ltb_ℤ (div_hundred (sub64 (pos int64_max) minor)) (pos whole)
    then none
    else some (wrap64 (pos (whole * 100) +ℤ minor))
join_amount _ _ = none

-- The amount from its parts before and after the point.
unfoldable pub amount_of_parts : String → String → Option ℤ
amount_of_parts whole frac =
    if is_empty whole || ltb 2 (byte_len frac)
    then none
    else join_amount (parse_int64 whole) (parse_int64 (pad_cents frac))

abbrev pub amount_of_split : List String → Option ℤ
amount_of_split (List.◌∷◌ whole List.[]) = amount_of_parts whole ""
amount_of_split (List.◌∷◌ whole (List.◌∷◌ frac List.[])) = amount_of_parts whole frac
amount_of_split _ = none

-- The amount of a text with no space at its ends.
unfoldable pub parse_trimmed : String → Option ℤ
parse_trimmed text =
    if is_empty text || starts_with_char b'-' text || starts_with_char b'+' text
    then none
    else amount_of_split (split b'.' text)

unfoldable pub parse_amount_cents : String → Option ℤ
parse_amount_cents value = parse_trimmed (trim_space value)

-- Names what a reading of an amount computes with.
unfoldable pub parsing : Unit {0}
unfolding parse_amount_cents parse_trimmed trim_space split amount_of_parts parse_int64 parse_digits
    byte_len sub64 ◌+ℤ◌
parsing = tt

-- `centsAmountText` of an amount that is not negative: "%d.%02d".
unfoldable pub cents_amount_text : ℕ → String
unfolding digits
cents_amount_text amount =
    digits (suc (amount / 100)) (amount / 100)
      ("." ∷ digit_char (amount % 100 / 10) ∷ digit_char (amount % 10) ∷ [])
