-- ===== src/Subscription/Quotes.antt =====
-- Laws of quotes.
use cloudmeter.Common.{ℕ, ◌≡◌, ◌≢◌, inl, inr, true, Option, none, some, arith, Option-cases}
use cloudmeter.Common.Int.{ℤ, pos, ◌+ℤ◌, ◌-ℤ◌, ◌≤ℤ◌, IsInt64, sub64}
use cloudmeter.Subscription.{
  Time, Current, Quote, is_before, active_until, quote_active, quote_subscription, at_least_zero,
}
use cloudmeter.Subscription.Months.{IsValid, add_calendar_month_lem}

active_until_lem :
    (now : Time) (current : Option Current) (c : Current) (end : Time)
    → active_until now current ≡ some (c, end)
    → (current ≡ some c) × (c.ends_at ≡ some end) × (is_before now end ≡ true)
unfolding active_until
active_until_lem now none c end h = absurd (ground arith)
active_until_lem now (some x) c end h = elim (Option-cases x.ends_at) [
  | inl e ↦ absurd (ground (arith, h, e))
  | inr (t, e) ↦ ground (arith, h, e)
]

-- A difference of two int64 that are not negative, cut off at 0.
sub64-cut :
    (a b : ℤ)
    → pos 0 ≤ℤ a
    → IsInt64 a
    → pos 0 ≤ℤ b
    → IsInt64 b
    → let x = at_least_zero (sub64 a b) in (pos 0 ≤ℤ x) × (x ≤ℤ a) × (b ≤ℤ a → x +ℤ b ≡ a)
unfolding sub64 ◌-ℤ◌ ◌+ℤ◌
sub64-cut a b la ha lb hb = (ground arith, ground arith, λ le. ground (arith, le))

module _ (now : Time) (current : Option Current) (plan version : ℕ) (price baseline : ℤ)
    (low : pos 0 ≤ℤ price) (fits : IsInt64 price) (low' : pos 0 ≤ℤ baseline)
    (fits' : IsInt64 baseline) where
  abbrev quoted : Quote
  quoted = quote_subscription now current plan version price baseline

  quoted-active :
      (c : Current) (end : Time)
      → active_until now current ≡ some (c, end)
      → quoted ≡ quote_active now c end version price baseline
  unfolding quote_subscription
  quoted-active c end h = ground (arith, h)

  -- For a price and a price paid before that are not negative and fit in an int64, a quote never
  -- asks for less than nothing or for more than the price of the plan.
  pub quote_subscription-amount : (pos 0 ≤ℤ quoted.amount) × (quoted.amount ≤ℤ price)
  unfolding quote_subscription
  quote_subscription-amount =
      let (a, b, _) = sub64-cut price baseline low fits low' fits' in
      elim (Option-cases (active_until now current)) [
        | inl e ↦ ground (arith, e, low)
        | inr ((c, end), e) ↦ ground (arith, e, low, a, b)
      ]

  -- For prices that are not negative and fit in an int64: a change to another version within an
  -- active subscription, at a price no lower than what the cycle was paid at, asks for the
  -- difference, so that both together are the new price, and the cycle ends when it did.
  pub quote_subscription-difference :
      (c : Current) (end : Time)
      → active_until now current ≡ some (c, end)
      → c.plan_version ≢ version
      → baseline ≤ℤ price
      → (quoted.amount +ℤ baseline ≡ price) × (quoted.period_end ≡ end)
  unfolding quote_active
  quote_subscription-difference c end h differ le =
      let (_, _, same) = sub64-cut price baseline low fits low' fits' in
      rw (quoted-active c end h) (ground (arith, differ, same le))

  -- The service period of a quote is not empty, where the present time and the end of the
  -- subscription are times of the calendar.
  pub quote_subscription-period :
      IsValid now
      → ((c : Current) (end : Time) → current ≡ some c → c.ends_at ≡ some end → IsValid end)
      → is_before quoted.period_start quoted.period_end ≡ true
  unfolding quote_subscription
  quote_subscription-period v ends = elim (Option-cases (active_until now current)) [
    | inl e ↦ ground (arith, e, (add_calendar_month_lem now v).1)
    | inr ((c, end), e) ↦
        let (same, at, later) = active_until_lem now current c end e in
        ground (arith, e, later, (add_calendar_month_lem end (ends c end same at)).1)
  ]
