-- ===== src/Payments/Methods.antt =====
-- `validatedPaymentMethods` of internal/httpapi/payment_features.go: an administrator sets the payment
-- methods of EPay.
pub mod Valid
use Prim.Native.Char.{code}
use Prim.Native.String.{String, count, [], ◌∷◌}
use text.Mathlib.Text.{◌==◌ as str_eq}
use cloudmeter.Common.{
  ◌↔◌, ℕ, ◌≤◌, ◌≡◌, refl, Bool, true, false, ◌&&◌, ◌||◌, not, List, ltb, leb, ◌==◌, if◌then◌else◌,
  length, arith,
}
use cloudmeter.Common.Int.{pos, ltb_ℤ}
use cloudmeter.Common.Text.{trim_space, is_empty, all_chars}
use cloudmeter.Payments.{PaymentMethod}

-- The methods as they are stored, or the reason why they are not.
pub data Checked : Type 0 where
  accepted : List PaymentMethod → Checked
  rejected : (reason : String) → Checked

abbrev pub is_alnum : ℕ → Bool
is_alnum c = leb b'A' c && leb c b'Z' || leb b'a' c && leb c b'z' || leb b'0' c && leb c b'9'

abbrev pub is_type_char : ℕ → Bool
is_type_char c = is_alnum c || c == b'_' || c == b'-'

-- `paymentTypePattern`: a letter or a digit, and at most 31 letters, digits, `_` or `-`.
unfoldable pub matches_type : String → Bool
unfolding all_chars
matches_type [] = false
matches_type (c ∷ s) = is_alnum (code c) && all_chars is_type_char s && leb (count s) 31

abbrev pub trimmed : PaymentMethod → PaymentMethod
trimmed m = record m { name = trim_space m.name; type = trim_space m.type }

unfoldable pub has_type : String → List String → Bool
has_type t List.[] = false
has_type t (List.◌∷◌ u l) = str_eq u t || has_type t l

abbrev pub prepend : PaymentMethod → Checked → Checked
prepend m (accepted l) = accepted (List.◌∷◌ m l)
prepend m (rejected r) = rejected r

-- The name and the type of a method are good.
abbrev pub is_named : PaymentMethod → Bool
is_named m = not (is_empty m.name) && leb (count m.name) 40 && matches_type m.type

abbrev pub is_bounded : PaymentMethod → Bool
is_bounded m = not (ltb_ℤ m.min_amount (pos 100) || ltb_ℤ (pos 100000000) m.min_amount)

-- The loop, with the types seen so far.
unfoldable pub check_methods : List String → List PaymentMethod → Checked
unfolding matches_type trim_space has_type
check_methods seen List.[] = accepted List.[]
check_methods seen (List.◌∷◌ m l) =
    let t = trimmed m in
    let rest = check_methods (List.◌∷◌ t.type seen) l in
    if not (is_named t)
    then rejected "payment method name or type is invalid"
    else if has_type t.type seen
    then rejected "payment method type must be unique"
    else if not (is_bounded t)
    then rejected "payment method minimum amount must be between 1 and 1000000 yuan"
    else prepend t rest

unfoldable pub validated_payment_methods : List PaymentMethod → Checked
validated_payment_methods methods =
    let n = length methods in
    if n == 0 || ltb 20 n
    then rejected "configure between 1 and 20 payment methods"
    else check_methods List.[] methods

-- Methods that the settings may hold: each is named and bounded, and its type is new.
unfoldable pub are_valid : List String → List PaymentMethod → Bool
unfolding matches_type trim_space has_type
are_valid seen List.[] = true
are_valid seen (List.◌∷◌ m l) =
    is_named m && not (has_type m.type seen) && is_bounded m && are_valid (List.◌∷◌ m.type seen) l

unfoldable pub trim_all : List PaymentMethod → List PaymentMethod
trim_all List.[] = List.[]
trim_all (List.◌∷◌ m l) = List.◌∷◌ (trimmed m) (trim_all l)

pub check_methods-accepted :
    (seen : List String) (l : List PaymentMethod)
    → are_valid seen (trim_all l) ≡ true
    → check_methods seen l ≡ accepted (trim_all l)
unfolding check_methods are_valid trim_all
check_methods-accepted seen List.[] h = refl
check_methods-accepted seen (List.◌∷◌ m l) h =
    ground (arith, h, check_methods-accepted (List.◌∷◌ (trimmed m).type seen) l)

pub check_methods_sound :
    (seen : List String) (l r : List PaymentMethod)
    → check_methods seen l ≡ accepted r
    → (r ≡ trim_all l) × (are_valid seen (trim_all l) ≡ true)
unfolding check_methods are_valid trim_all
check_methods_sound seen List.[] r h = ground (arith, h)
check_methods_sound seen (List.◌∷◌ m l) r h =
    by_rest (check_methods_sound (List.◌∷◌ (trimmed m).type seen) l) _ refl
  where
    by_rest :
        ((x : List PaymentMethod)
          → check_methods (List.◌∷◌ (trimmed m).type seen) l ≡ accepted x
          → (x ≡ trim_all l) × (are_valid (List.◌∷◌ (trimmed m).type seen) (trim_all l) ≡ true))
        → (rest : Checked) → check_methods (List.◌∷◌ (trimmed m).type seen) l ≡ rest
        → (r ≡ trim_all (List.◌∷◌ m l)) × (are_valid seen (trim_all (List.◌∷◌ m l)) ≡ true)
    by_rest later (accepted x) e = ground (arith, h, e, later x e)
    by_rest later (rejected x) e = absurd (ground (arith, h, e))
