-- ===== src/Payments/Methods/Valid.antt =====
-- The payment methods that `validatedPaymentMethods` of internal/httpapi/payment_features.go lets through.
use Prim.Native.Char.{Char, code}
use Prim.Native.String.{String, count, [], ◌∷◌}
use cloudmeter.Common.{
  ◌↔◌, ℕ, ◌≤◌, ◌≡◌, ◌≢◌, ◌⊎◌, refl, ap, true, false, List, map, All, length, arith,
}
use cloudmeter.Common.Int.{ℤ, pos, negsuc}
use cloudmeter.Common.Text.{is_empty, all_chars}
use cloudmeter.Runtime.Value.{member, Distinct}
use cloudmeter.Runtime.Fresh.{Fresh, Fresh-nil, Fresh-cons, cons-Fresh, Distinct-Fresh}
use cloudmeter.Payments.{PaymentMethod}
use cloudmeter.Payments.Methods.{
  accepted, is_type_char, matches_type, has_type, is_named, is_bounded, are_valid, trim_all,
  check_methods-accepted, check_methods_sound, validated_payment_methods,
}

-- 0 to 9, A to Z and a to z.
abbrev pub IsAlnum : ℕ → Type 0
IsAlnum c = ((48 ≤ c) × (c ≤ 57)) ⊎ (((65 ≤ c) × (c ≤ 90)) ⊎ ((97 ≤ c) × (c ≤ 122)))

-- One of those, `_` or `-`.
abbrev pub IsTypeChar : ℕ → Type 0
IsTypeChar c = IsAlnum c ⊎ ((c ≡ 95) ⊎ (c ≡ 45))

abbrev pub AllTypeChars : String → Type 0
AllTypeChars [] = Unit
AllTypeChars (c ∷ s) = IsTypeChar (code c) × AllTypeChars s

pub data IsType : String → Type 0 where
  typed :
      {c : Char} {s : String} → IsAlnum (code c) → AllTypeChars s → count s ≤ 31 → IsType (c ∷ s)

pub record IsMethod (m : PaymentMethod) : Type 0 where
  pub named : m.name ≢ ""
  pub short_name : count m.name ≤ 40
  pub of_type : IsType m.type
  pub min_cents : ℕ
  pub min_is : m.min_amount ≡ pos min_cents
  pub min_low : 100 ≤ min_cents
  pub min_high : min_cents ≤ 100000000

abbrev pub types_of : List PaymentMethod → List String
types_of = map (λ (m : PaymentMethod). m.type)

all_chars-AllTypeChars : (s : String) → (all_chars is_type_char s ≡ true) ↔ AllTypeChars s
unfolding all_chars
all_chars-AllTypeChars [] = ((λ _. tt), (λ _. refl))
all_chars-AllTypeChars (c ∷ s) = (
  (λ h. (ground arith, (all_chars-AllTypeChars s).0 (ground arith))),
  (λ (h, hs). let rest = (all_chars-AllTypeChars s).1 hs in ground (arith, h, rest)),
)

matches_type_iff : (t : String) → (matches_type t ≡ true) ↔ IsType t
unfolding matches_type
matches_type_iff [] = ((λ h. cc), (λ h. elim h [ ]))
matches_type_iff (c ∷ s) = (
  (λ h. IsType.typed (ground arith) ((all_chars-AllTypeChars s).0 (ground arith)) (ground arith)),
  of_IsType,
)
  where
    of_IsType : IsType (c ∷ s) → matches_type (c ∷ s) ≡ true
    of_IsType (IsType.typed a b l) =
        let rest = (all_chars-AllTypeChars s).1 b in ground (arith, a, rest, l)

is_bounded_lem :
    (m : PaymentMethod)
    → is_bounded m ≡ true
    → (n : ℕ) × (m.min_amount ≡ pos n) × (100 ≤ n) × (n ≤ 100000000)
is_bounded_lem m h = by_sign m.min_amount refl
  where
    by_sign :
        (a : ℤ) → m.min_amount ≡ a → (n : ℕ) × (m.min_amount ≡ pos n) × (100 ≤ n) × (n ≤ 100000000)
    by_sign (pos n) e = (n, e, ground (arith, h, e), ground (arith, h, e))
    by_sign (negsuc n) e = absurd (ground (arith, h, e))

empty_iff : (s : String) → (is_empty s ≡ false) ↔ (s ≢ "")
empty_iff [] = ((λ h. cc), (λ h. absurd (h refl)))
empty_iff (c ∷ s) = ((λ h e. let clash : false ≡ true = ap is_empty e in cc), (λ h. refl))

tests-IsMethod : (m : PaymentMethod) → is_named m ≡ true → is_bounded m ≡ true → IsMethod m
tests-IsMethod m named bounded =
    let (n, e, low, high) = is_bounded_lem m bounded in
    record {
      named = (empty_iff m.name).0 (ground arith);
      short_name = ground arith;
      of_type = (matches_type_iff m.type).0 (ground arith);
      min_cents = n;
      min_is = e;
      min_low = low;
      min_high = high;
    }

IsMethod-tests : (m : PaymentMethod) → IsMethod m → (is_named m ≡ true) × (is_bounded m ≡ true)
IsMethod-tests m h =
    let named = (empty_iff m.name).1 h.named in
    let matches = (matches_type_iff m.type).1 h.of_type in
    (ground (arith, named, matches, h.short_name), ground (arith, h.min_is, h.min_low, h.min_high))

has_type-member : (t : String) (l : List String) → has_type t l ≡ member t l
unfolding has_type
has_type-member t List.[] = refl
has_type-member t (List.◌∷◌ u l) = ground (arith, has_type-member t l)

are_valid-Fresh :
    (seen : List String) (l : List PaymentMethod)
    → are_valid seen l ≡ true
    → All IsMethod l × Fresh seen (types_of l)
unfolding are_valid
are_valid-Fresh seen List.[] h = (tt, Fresh-nil seen)
are_valid-Fresh seen (List.◌∷◌ m l) h =
    let (all, fresh) = are_valid-Fresh (List.◌∷◌ m.type seen) l (ground arith) in
    let new : member m.type seen ≡ false = ground (arith, has_type-member m.type seen) in
    (
      (tests-IsMethod m (ground arith) (ground arith), all),
      Fresh-cons m.type seen (types_of l) new fresh,
    )

Fresh-are_valid :
    (seen : List String) (l : List PaymentMethod)
    → All IsMethod l
    → Fresh seen (types_of l)
    → are_valid seen l ≡ true
unfolding are_valid
Fresh-are_valid seen List.[] all fresh = refl
Fresh-are_valid seen (List.◌∷◌ m l) (method, all) fresh =
    let (new, later) = cons-Fresh m.type seen (types_of l) fresh in
    let (named, bounded) = IsMethod-tests m method in
    let rest = Fresh-are_valid (List.◌∷◌ m.type seen) l all later in
    ground (arith, named, bounded, rest, has_type-member m.type seen)

length-trim_all : (l : List PaymentMethod) → length (trim_all l) ≡ length l
unfolding trim_all
length-trim_all List.[] = refl
length-trim_all (List.◌∷◌ m l) = ground (arith, length-trim_all l)

-- Settings are accepted as the trimmed methods exactly when there are 1 to 20 of them, each has a name
-- of 1 to 40 characters, a type of 1 to 32 letters, digits, `_` or `-` that starts with a letter or a
-- digit, and a minimum of 100 to 100000000 cents, and no two have the same type.
pub validated_payment_methods_lem :
    (methods r : List PaymentMethod)
    → (validated_payment_methods methods ≡ accepted r) ↔ (
        (1 ≤ length r)
        × (length r ≤ 20)
        × (r ≡ trim_all methods)
        × All IsMethod r
        × Distinct (types_of r))
unfolding validated_payment_methods
validated_payment_methods_lem methods r = (forth, back)
  where
    forth :
        validated_payment_methods methods ≡ accepted r
        → (1 ≤ length r)
          × (length r ≤ 20)
          × (r ≡ trim_all methods)
          × All IsMethod r
          × Distinct (types_of r)
    forth h =
        let (low, high, same, valid) : (1 ≤ length r)
            × (length r ≤ 20)
            × (r ≡ trim_all methods)
            × (are_valid List.[] r ≡ true) =
          ground (arith, h, check_methods_sound List.[] methods r, length-trim_all methods) in
        let (all, fresh) = are_valid-Fresh List.[] r valid in (low, high, same, all, fresh.distinct)

    back :
        (1 ≤ length r)
          × (length r ≤ 20)
          × (r ≡ trim_all methods)
          × All IsMethod r
          × Distinct (types_of r)
        → validated_payment_methods methods ≡ accepted r
    back (low, high, same, all, distinct) =
        let valid = Fresh-are_valid List.[] r all (Distinct-Fresh (types_of r) distinct) in
        ground (
          arith,
          low,
          high,
          same,
          valid,
          check_methods-accepted List.[] methods,
          length-trim_all methods,
        )
