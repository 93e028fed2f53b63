-- ===== src/Subscription/Balance.antt =====
-- The books through a purchase.
use Prim.Native.String.{String}
use cloudmeter.Common.{
  ℕ, ◌≡◌, refl, inl, inr, Bool, false, Option, none, some, List, [], ◌∷◌, arith, lookup,
  Option-cases,
}
use cloudmeter.Common.Int.{ℤ, pos, ◌+ℤ◌, ◌-ℤ◌, ◌≤ℤ◌, IsInt64, sub64, ltb_ℤ}
use cloudmeter.Common.Text.{trim_space}
use cloudmeter.Common.Tx.{transact}
use cloudmeter.Money.{Wallet}
use cloudmeter.Money.Balance.{IsBalanced}
use cloudmeter.Money.Post.{posted-IsBalanced}
use cloudmeter.Subscription.{Time, Current, Quote}
use cloudmeter.Subscription.Quotes.{quote_subscription-amount}
use cloudmeter.Subscription.Effect.{completed}
use cloudmeter.Subscription.Atomic.{
  unchanged, was_refused, was_free, was_charged, Offer, quoted, purchase_subscription-effect,
}
use cloudmeter.Subscription.Purchase.{
  PlanVersion, Bought, Store, charge_entry, purchase_subscription, add_credit, paid_baseline,
  running_price, price_of,
}

-- An amount of cents.
abbrev pub IsCents : ℤ → Type 0
IsCents a = (pos 0 ≤ℤ a) × IsInt64 a

abbrev pub IsPriced : List (ℕ × PlanVersion) → Type 0
IsPriced plans = (k : ℕ) (v : PlanVersion) → lookup k plans ≡ some v → IsCents v.price

price_of-IsCents :
    (k : ℕ) (plans : List (ℕ × PlanVersion)) → IsPriced plans → IsCents (price_of k plans)
price_of-IsCents k plans h = elim (Option-cases (lookup k plans)) [
  | inl e ↦ ground (arith, e)
  | inr (v, e) ↦ ground (arith, e, h k v e)
]

running_price-IsCents :
    (user : ℕ) (now : Time) (plans : List (ℕ × PlanVersion)) (l : List (ℕ × Bought))
    → IsPriced plans
    → IsCents (running_price user now plans l)
unfolding running_price
running_price-IsCents user now plans [] h = ground arith
running_price-IsCents user now plans ((k, b) ∷ l) h =
    ground
      (arith, running_price-IsCents user now plans l h, price_of-IsCents b.plan_version plans h)

paid_baseline-IsCents :
    (now : Time) (current : Option Current) (paid : ℤ)
    → IsCents paid
    → ((c : Current) → current ≡ some c → IsCents c.cycle_price)
    → IsCents (paid_baseline now current paid)
unfolding paid_baseline
paid_baseline-IsCents now none paid p h = p
paid_baseline-IsCents now (some c) paid p h = elim (Option-cases c.ends_at) [
  | inl e ↦ ground (arith, e, p)
  | inr (end, e) ↦ ground (arith, e, p, h c refl)
]

completed-money :
    (grant_credit : ℕ → Store → Option ℤ) (entry user version id : ℕ) (now : Time) (v : PlanVersion)
    (current : Option Current) (key : String) (q : Quote) (w : Wallet) (d : Store)
    → (completed grant_credit entry user version id now v current key q w d).money ≡ d.money
unfolding add_credit
completed-money grant_credit entry user version id now v current key q w d = ground arith

charge-fits :
    (b a : ℤ)
    → IsCents b
    → pos 0 ≤ℤ a
    → ltb_ℤ b a ≡ false
    → (sub64 b a ≡ b +ℤ (pos 0 -ℤ a)) × (pos 0 ≤ℤ sub64 b a) × IsInt64 (sub64 b a)
unfolding sub64 ◌+ℤ◌ ◌-ℤ◌
charge-fits b a h low c = ground arith

module _ (grant_credit : ℕ → Store → Option ℤ) (entry user version id : ℕ) (now : Time)
    (valid_uuid : Bool) (text : String) (faults : ℕ → Bool) (d : Store) (books : IsBalanced d.money)
    (priced : IsPriced d.plans)
    (cycle : (c : Current) → lookup user d.subscriptions ≡ some c → IsCents c.cycle_price) where
  quoted-low :
      (o : Offer user version (trim_space text) d)
      → pos 0 ≤ℤ (quoted grant_credit entry user version id now o).amount
  quoted-low o =
      let (low, fits) = priced version o.plan (ground (arith, o.planned)) in
      let (low', fits') =
        paid_baseline-IsCents now (lookup user d.subscriptions)
          (running_price user now d.plans d.purchases)
          (running_price-IsCents user now d.plans d.purchases priced) cycle in
      (quote_subscription-amount now (lookup user d.subscriptions) o.plan.plan version o.plan.price
        _ low fits low' fits').0

  -- Where the books balance, and the prices of the plans and of the user's subscription are not
  -- negative and fit in an int64, the books balance after a purchase, whichever database calls
  -- fail: each balance is the sum of its entries and is not negative.
  pub purchase_subscription-IsBalanced :
      IsBalanced
        (transact
          (purchase_subscription grant_credit valid_uuid entry user version id now text)
          faults
          d).1.money
  purchase_subscription-IsBalanced =
      elim (purchase_subscription-effect grant_credit entry user version id now valid_uuid text
        faults d) [
          | unchanged e ↦ rw e books
          | was_refused o _ e ↦ rw e books
          | was_free o _ _ e ↦ rw (e, completed-money grant_credit) books
          | was_charged o covered _ e ↦
              let q = quoted grant_credit entry user version id now o in
              let a = books.agrees user o.wallet o.funded in
              let (sum, low, fits) =
                charge-fits o.wallet.balance q.amount (a.nonneg, a.fits) (quoted-low o) covered in
              rw (e, completed-money grant_credit)
                (posted-IsBalanced (charge_entry entry user id q o.wallet)
                  (λ _. sub64 o.wallet.balance q.amount) o.wallet d.money books o.funded sum low
                  fits)
        ]
