-- ===== src/Billing.antt =====
-- The split of a usage charge in `billUsage` of apps/worker/main.go: the credit grants of the user, in
-- the order in which the query gives them, pay first, and the wallet pays the rest.
mod Tests
use cloudmeter.Common.{
  ℕ, ◌≤◌, ◌<◌, ◌≡◌, refl, Bool, true, false, Option, none, some, List, [], ◌∷◌, arith,
  if◌then◌else◌, All, Bool-cases, inl, inr,
}
use cloudmeter.Common.Int.{ℤ, pos, ◌+ℤ◌, ◌-ℤ◌, ◌≤ℤ◌, IsInt64, add64, sub64, ltb_ℤ}
use cloudmeter.Money.{is_zero}

pub record CreditGrant : Type 0 where
  pub id : ℕ
  pub remaining : ℤ

-- `creditBalance += grant.remaining`.
unfoldable pub credit_balance : ℤ → List CreditGrant → ℤ
unfolding add64
credit_balance sum [] = sum
credit_balance sum (g ∷ l) = credit_balance (add64 sum g.remaining) l

abbrev pub min_ℤ : ℤ → ℤ → ℤ
min_ℤ a b = if ltb_ℤ b a then b else a

-- `creditUsed` and `walletCharge` of an amount.
unfoldable pub credit_used : ℤ → List CreditGrant → ℤ
unfolding credit_balance
credit_used amount grants = min_ℤ amount (credit_balance (pos 0) grants)

unfoldable pub wallet_charge : ℤ → List CreditGrant → ℤ
unfolding credit_used sub64
wallet_charge amount grants = sub64 amount (credit_used amount grants)

-- The loop over the grants: what each pays, until nothing remains.
unfoldable pub consume : ℤ → List CreditGrant → List (ℕ × ℤ)
unfolding sub64
consume remaining [] = []
consume remaining (g ∷ l) =
    let used = min_ℤ g.remaining remaining in
    let rest = consume (sub64 remaining used) l in
    if is_zero remaining then [] else (g.id, used) ∷ rest

-- The sum of what remains of the grants.
abbrev pub total : List CreditGrant → ℤ
total [] = pos 0
total (g ∷ l) = g.remaining +ℤ total l

abbrev pub total_paid : List (ℕ × ℤ) → ℤ
total_paid [] = pos 0
total_paid ((_, a) ∷ l) = a +ℤ total_paid l

-- Grants that the query gives: each has something left.
abbrev pub ArePositive : List CreditGrant → Type 0
ArePositive = All (λ g. pos 1 ≤ℤ g.remaining)

-- The payments of grants, one after another from the first: each pays something, and no more than it
-- has left.
pub data Pays : List (ℕ × ℤ) → List CreditGrant → Type 0 where
  ends : (l : List CreditGrant) → Pays [] l
  pays :
      (g : CreditGrant) (a : ℤ) (p : List (ℕ × ℤ)) (l : List CreditGrant)
      → pos 1 ≤ℤ a
      → a ≤ℤ g.remaining
      → Pays p l
      → Pays ((g.id, a) ∷ p) (g ∷ l)

total-nonneg : (l : List CreditGrant) → ArePositive l → pos 0 ≤ℤ total l
unfolding ◌+ℤ◌
total-nonneg [] h = ground arith
total-nonneg (g ∷ l) (h, hs) = ground (arith, h, total-nonneg l hs)

credit_balance-total :
    (sum : ℤ) (l : List CreditGrant)
    → pos 0 ≤ℤ sum
    → ArePositive l
    → IsInt64 (sum +ℤ total l)
    → credit_balance sum l ≡ sum +ℤ total l
unfolding credit_balance ◌+ℤ◌
credit_balance-total sum [] low h fits = ground arith
credit_balance-total sum (g ∷ l) low (h, hs) fits = ground (
  arith,
  h,
  total-nonneg l hs,
  credit_balance-total (sum +ℤ g.remaining) l (ground (arith, h)) hs
      (ground (arith, h, fits, total-nonneg l hs)),
)

consume-total :
    (r : ℤ) (l : List CreditGrant)
    → pos 0 ≤ℤ r
    → IsInt64 r
    → ArePositive l
    → r ≤ℤ total l
    → total_paid (consume r l) ≡ r
unfolding consume ◌+ℤ◌ ◌-ℤ◌
consume-total r [] low fits h le = ground arith
consume-total r (g ∷ l) low fits (h, hs) le =
    let used = min_ℤ g.remaining r in
    ground (
      arith,
      h,
      le,
      total-nonneg l hs,
      consume-total (r -ℤ used) l (ground (arith, h)) (ground (arith, h)) hs
          (ground (arith, h, le, total-nonneg l hs)),
    )

consume-Pays :
    (r : ℤ) (l : List CreditGrant) → pos 0 ≤ℤ r → IsInt64 r → ArePositive l → Pays (consume r l) l
unfolding consume ◌-ℤ◌
consume-Pays r [] low fits h = ends []
consume-Pays r (g ∷ l) low fits (h, hs) =
    let used = min_ℤ g.remaining r in
    elim (Bool-cases (is_zero r)) [
      | inl e ↦ rw e (ends (g ∷ l))
      | inr e ↦ rw e (
          pays g used (consume (sub64 r used) l) l (ground (arith, e, h, low)) (ground arith)
            (consume-Pays (sub64 r used) l (ground (arith, h)) (ground (arith, h)) hs))
    ]

credit_used-total :
    (amount : ℤ) (l : List CreditGrant)
    → ArePositive l
    → IsInt64 (total l)
    → credit_used amount l ≡ min_ℤ amount (total l)
unfolding credit_used ◌+ℤ◌
credit_used-total amount l h fits =
    let zero_plus : pos 0 +ℤ total l ≡ total l = ground arith in
    ground (arith, zero_plus, credit_balance-total (pos 0) l (ground arith) h (rw zero_plus fits))

wallet_charge-parts :
    (amount t : ℤ)
    → pos 0 ≤ℤ amount
    → IsInt64 amount
    → pos 0 ≤ℤ t
    → let used = min_ℤ amount t in
      (pos 0 ≤ℤ used)
      × (used ≤ℤ t)
      × IsInt64 used
      × (used +ℤ sub64 amount used ≡ amount)
      × (pos 0 ≤ℤ sub64 amount used)
      × (pos 1 ≤ℤ sub64 amount used → used ≡ t)
unfolding sub64 ◌+ℤ◌ ◌-ℤ◌
wallet_charge-parts amount t low fits low' =
    (ground arith, ground arith, ground arith, ground arith, ground arith, λ h. ground (arith, h))

-- A charge of an amount that is not negative, on grants that each have something left and together fit
-- in an int64, is split without loss: what the grants pay and what the wallet pays are the amount, and
-- the wallet's part is not negative. The grants pay one after another from the first, each something
-- and no more than it has left.
pub consume-wallet_charge :
    (amount : ℤ) (grants : List CreditGrant)
    → pos 0 ≤ℤ amount
    → IsInt64 amount
    → ArePositive grants
    → IsInt64 (total grants)
    → (total_paid (consume (credit_used amount grants) grants) +ℤ wallet_charge amount grants
        ≡ amount)
      × (pos 0 ≤ℤ wallet_charge amount grants)
      × Pays (consume (credit_used amount grants) grants) grants
unfolding wallet_charge
consume-wallet_charge amount grants low fits h fits' =
    let (a, b, c, d, e, _) =
      wallet_charge-parts amount (total grants) low fits (total-nonneg grants h) in
    rw
      (
        credit_used-total amount grants h fits',
        consume-total (min_ℤ amount (total grants)) grants a c h b,
      )
      (d, e, consume-Pays (min_ℤ amount (total grants)) grants a c h)

-- For an amount that is not negative, and grants that each have something left and together fit in
-- an int64: where the wallet pays more than nothing, the grants pay all that they have left.
pub wallet_charge-last :
    (amount : ℤ) (grants : List CreditGrant)
    → pos 0 ≤ℤ amount
    → IsInt64 amount
    → ArePositive grants
    → IsInt64 (total grants)
    → pos 1 ≤ℤ wallet_charge amount grants
    → total_paid (consume (credit_used amount grants) grants) ≡ total grants
unfolding wallet_charge
wallet_charge-last amount grants low fits h fits' more =
    let (a, b, c, d, e, all) =
      wallet_charge-parts amount (total grants) low fits (total-nonneg grants h) in
    rw
      (
        credit_used-total amount grants h fits',
        consume-total (min_ℤ amount (total grants)) grants a c h b,
      )
      (all (rw (credit_used-total amount grants h fits') at more))
