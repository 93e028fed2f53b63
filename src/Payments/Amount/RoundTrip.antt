-- ===== src/Payments/Amount/RoundTrip.antt =====
-- An amount that the program prints is read back as itself.
use Prim.Native.Char.{code}
use Prim.Native.String.{String, [], ◌∷◌}
use cloudmeter.Common.{
  ℕ, zero, suc, ◌+◌, ◌*◌, ◌/◌, ◌%◌, ◌<◌, ◌≤◌, ◌≡◌, refl, ◌∙◌, false, some, List, arith, ◌==◌,
  Bool-cases, inl, inr,
}
use cloudmeter.Common.Int.{pos, int64_max, sub64, ◌+ℤ◌, ◌-ℤ◌}
use cloudmeter.Common.Text.{
  is_space, trim_left, trim_right, trim_space, split, byte_len, digit_char, digits,
}
use cloudmeter.Payments.Amount.{
  parse_digits, parse_int64, amount_of_parts, parse_trimmed, parse_amount_cents, cents_amount_text,
}

-- A digit is written as the character of its value.
code-digit_char : (r : ℕ) → r < 10 → code (digit_char r) ≡ b'0' + r
code-digit_char zero h = refl
code-digit_char (suc zero) h = refl
code-digit_char (suc (suc zero)) h = refl
code-digit_char (suc (suc (suc zero))) h = refl
code-digit_char (suc (suc (suc (suc zero)))) h = refl
code-digit_char (suc (suc (suc (suc (suc zero))))) h = refl
code-digit_char (suc (suc (suc (suc (suc (suc zero)))))) h = refl
code-digit_char (suc (suc (suc (suc (suc (suc (suc zero))))))) h = refl
code-digit_char (suc (suc (suc (suc (suc (suc (suc (suc zero)))))))) h = refl
code-digit_char (suc (suc (suc (suc (suc (suc (suc (suc (suc zero))))))))) h = refl
code-digit_char (suc (suc (suc (suc (suc (suc (suc (suc (suc (suc n)))))))))) h =
    absurd (omega arith)

parse_digits-digit :
    (acc r : ℕ) (s : String)
    → r < 10
    → parse_digits acc (digit_char r ∷ s) ≡ parse_digits (acc * 10 + r) s
unfolding parse_digits
parse_digits-digit acc r s h = ground (arith, code-digit_char r h)

parse_digits-digits :
    (f n : ℕ) (s : String) → n < f → parse_digits 0 (digits f n s) ≡ parse_digits n s
unfolding digits
parse_digits-digits zero n s h = absurd (omega arith)
parse_digits-digits (suc f) n s h = ground (
  arith,
  parse_digits-digit 0 (n % 10) s,
  parse_digits-digit (n / 10) (n % 10) s,
  parse_digits-digits f (n / 10) (digit_char (n % 10) ∷ s),
)

-- The digits of a number begin with one digit, whatever follows them.
digits-head :
    (f n : ℕ) (s : String)
    → (r : ℕ) × (t : String) × (r < 10) × (digits (suc f) n s ≡ digit_char r ∷ t)
unfolding digits
digits-head zero n s = elim (Bool-cases (n / 10 == 0)) [
  | inl done ↦ (n % 10, s, omega arith, ground arith)
  | inr more ↦ (n % 10, s, omega arith, ground arith)
]
digits-head (suc f) n s =
    let (r, t, h, e) = digits-head f (n / 10) (digit_char (n % 10) ∷ s) in
    elim (Bool-cases (n / 10 == 0)) [
      | inl done ↦ (n % 10, s, omega arith, ground arith)
      | inr more ↦ (r, t, h, ground arith)
    ]

is_space-digit_char : (r : ℕ) → r < 10 → is_space (code (digit_char r)) ≡ false
unfolding is_space
is_space-digit_char r h = rw (code-digit_char r h) (ground arith)

is_space-point : is_space b'.' ≡ false
unfolding is_space
is_space-point = refl

trim_space_lem : (s : String) → trim_space s ≡ trim_right is_space (trim_left is_space s)
unfolding trim_space
trim_space_lem s = refl

-- What is printed in front of a text does not meet its right trimming.
trim_right-digits :
    (f n : ℕ) (s : String) → trim_right is_space (digits f n s) ≡ digits f n (trim_right is_space s)
unfolding digits trim_right
trim_right-digits zero n s = refl
trim_right-digits (suc f) n s =
    ground
      (arith, is_space-digit_char (n % 10), trim_right-digits f (n / 10) (digit_char (n % 10) ∷ s))

split-digits :
    (f n : ℕ) (s p : String) (ps : List String)
    → split b'.' s ≡ List.◌∷◌ p ps
    → split b'.' (digits f n s) ≡ List.◌∷◌ (digits f n p) ps
unfolding digits split
split-digits zero n s p ps h = h
split-digits (suc f) n s p ps h = ground (
  arith,
  code-digit_char (n % 10),
  split-digits f (n / 10) (digit_char (n % 10) ∷ s) (digit_char (n % 10) ∷ p) ps,
)

-- Digits alone are read as their number, if it fits in an int64.
parse_int64-digit :
    (r : ℕ) (t : String) (n : ℕ)
    → r < 10
    → parse_digits 0 (digit_char r ∷ t) ≡ some n
    → n ≤ int64_max
    → parse_int64 (digit_char r ∷ t) ≡ some (pos n)
unfolding parse_int64
parse_int64-digit r t n h e fits = ground (arith, code-digit_char r h)

parse_int64-digits : (n : ℕ) → n ≤ int64_max → parse_int64 (digits (suc n) n []) ≡ some (pos n)
parse_int64-digits n fits =
    let (r, t, h, e) = digits-head n n [] in
    rw e (
      parse_int64-digit r t n h
        (rw (← e) (parse_digits-digits (suc n) n [] (omega arith) ∙ unfold parse_digits in refl))
        fits)

parse_digits-cents :
    (a : ℕ) → a < 100 → parse_digits 0 (digit_char (a / 10) ∷ digit_char (a % 10) ∷ []) ≡ some a
unfolding parse_digits
parse_digits-cents a h = ground (arith, code-digit_char (a / 10), code-digit_char (a % 10))

parse_int64-cents :
    (a : ℕ) → a < 100 → parse_int64 (digit_char (a / 10) ∷ digit_char (a % 10) ∷ []) ≡ some (pos a)
parse_int64-cents a h =
    parse_int64-digit (a / 10) (digit_char (a % 10) ∷ []) a (omega arith) (parse_digits-cents a h)
      (omega arith)

-- The cents of an amount, as they are printed.
abbrev cents_text : ℕ → String
cents_text a = digit_char (a % 100 / 10) ∷ digit_char (a % 10) ∷ []

byte_len-cents : (a : ℕ) → byte_len (cents_text a) ≡ 2
unfolding byte_len
byte_len-cents a = ground (arith, code-digit_char (a % 100 / 10), code-digit_char (a % 10))

parse_cents_text : (a : ℕ) → parse_int64 (cents_text a) ≡ some (pos (a % 100))
parse_cents_text a =
    let e : a % 10 ≡ a % 100 % 10 = omega arith in rw e (parse_int64-cents (a % 100) (omega arith))

amount_of_parts-text :
    (a : ℕ)
    → a ≤ int64_max
    → amount_of_parts (digits (suc (a / 100)) (a / 100) []) (cents_text a) ≡ some (pos a)
unfolding amount_of_parts sub64 ◌+ℤ◌ ◌-ℤ◌
amount_of_parts-text a fits =
    let (r, t, h, e) = digits-head (a / 100) (a / 100) [] in
    ground
      (arith, e, parse_int64-digits (a / 100) (omega arith), parse_cents_text a, byte_len-cents a)

-- The point and the cents.
abbrev tail_text : ℕ → String
tail_text a = "." ∷ cents_text a

trim_right-tail : (a : ℕ) → trim_right is_space (tail_text a) ≡ tail_text a
unfolding trim_right
trim_right-tail a =
    ground (arith, is_space-digit_char (a % 100 / 10), is_space-digit_char (a % 10), is_space-point)

split-tail : (a : ℕ) → split b'.' (tail_text a) ≡ List.◌∷◌ [] (List.◌∷◌ (cents_text a) List.[])
unfolding split
split-tail a = ground (arith, code-digit_char (a % 100 / 10), code-digit_char (a % 10))

-- Printed amounts have no space at an end.
trim_space-text : (a : ℕ) → trim_space (cents_amount_text a) ≡ cents_amount_text a
unfolding cents_amount_text trim_left
trim_space-text a =
    let (r, t, h, e) = digits-head (a / 100) (a / 100) (tail_text a) in
    ground (
      arith,
      e,
      is_space-digit_char r h,
      trim_right-digits (suc (a / 100)) (a / 100) (tail_text a),
      trim_right-tail a,
      trim_space_lem (cents_amount_text a),
    )

parse_trimmed-text : (a : ℕ) → a ≤ int64_max → parse_trimmed (cents_amount_text a) ≡ some (pos a)
unfolding parse_trimmed cents_amount_text
parse_trimmed-text a fits =
    let (r, t, h, e) = digits-head (a / 100) (a / 100) (tail_text a) in
    ground (
      arith,
      e,
      code-digit_char r h,
      split-digits (suc (a / 100)) (a / 100) (tail_text a) [] (List.◌∷◌ (cents_text a) List.[])
          (split-tail a),
      amount_of_parts-text a fits,
    )

-- Every amount from 0 to the largest int64 that the program prints with `centsAmountText` is read
-- back by `parseAmountCents` as the same number of cents.
pub parse_amount_cents-cents_amount_text :
    (a : ℕ) → a ≤ int64_max → parse_amount_cents (cents_amount_text a) ≡ some (pos a)
unfolding parse_amount_cents
parse_amount_cents-cents_amount_text a fits = rw (trim_space-text a) (parse_trimmed-text a fits)
