-- ===== src/Subscription.antt =====
-- Subscriptions of internal/httpapi/subscription_features.go: calendar months, the price of a change of
-- plan, and the tables that a purchase reads and writes.
pub mod Months
pub mod Quotes
pub mod Purchase
pub mod Effect
pub mod Atomic
pub mod Balance
mod Tests
use Prim.Native.String.{String}
use text.Mathlib.Text.{◌==◌ as str_eq}
use cloudmeter.Common.{
  ℕ, suc, ◌+◌, ◌%◌, Bool, true, false, ◌&&◌, ◌||◌, not, Option, none, some, List, [], ◌∷◌, ◌==◌,
  ltb, if◌then◌else◌,
}
use cloudmeter.Common.Int.{ℤ, pos, sub64, ltb_ℤ}
use cloudmeter.Common.Tx.{Tx}
use cloudmeter.Money.{Money}

-- A time in UTC; the last field counts nanoseconds of the day.
pub record Time : Type 0 where
  pub year : ℕ
  pub month : ℕ
  pub day : ℕ
  pub clock : ℕ

abbrev pub is_leap : ℕ → Bool
is_leap y = (y % 4 == 0) && (not (y % 100 == 0) || (y % 400 == 0))

-- The last day of a month.
abbrev pub last_day : ℕ → ℕ → ℕ
last_day y m =
    if m == 2
    then (if is_leap y then 29 else 28)
    else if m == 4 || m == 6 || m == 9 || m == 11
    then 30
    else 31

-- `a.Before(b)`.
unfoldable pub is_before : Time → Time → Bool
is_before a b =
    ltb a.year b.year
    || a.year == b.year
      && (ltb a.month b.month
          || a.month == b.month && (ltb a.day b.day || a.day == b.day && ltb a.clock b.clock))

-- `time.Date(year, month+1, …)`.
abbrev pub month_after : ℕ → ℕ → ℕ × ℕ
month_after y m = if m == 12 then (suc y, 1) else (y, suc m)

-- `addCalendarMonth`.
unfoldable pub add_calendar_month : Time → Time
add_calendar_month t =
    let (y, m) = month_after t.year t.month in
    record {
      year = y;
      month = m;
      day = if ltb (last_day y m) t.day then last_day y m else t.day;
      clock = t.clock;
    }

-- user_subscriptions.status.
pub data Status : Type 0 where
  active grace_period canceled expired : Status

abbrev pub is_active : Status → Bool
is_active active = true
is_active _ = false

-- The subscription of a user, with the plan of its version.
pub record Current : Type 0 where
  pub plan : ℕ
  pub plan_version : ℕ
  pub status : Status
  pub cycle_price : ℤ
  pub starts_at : Time
  pub ends_at : Option Time
  pub grace_ends_at : Option Time

pub data Action : Type 0 where
  purchase renewal upgrade downgrade change : Action

pub record Quote : Type 0 where
  pub action : Action
  pub amount : ℤ
  pub period_start : Time
  pub period_end : Time
  pub ends_at : Option Time

-- The end of a subscription that is active until a later time.
unfoldable pub active_until : Time → Option Current → Option (Current × Time)
unfolding is_before
active_until now none = none
active_until now (some c) = elim c.ends_at [
  | none ↦ none
  | some end ↦ if is_active c.status && is_before now end then some (c, end) else none
]

abbrev pub compare_price : Action → ℤ → ℤ → Action
compare_price equal target old =
    if ltb_ℤ old target then upgrade else if ltb_ℤ target old then downgrade else equal

abbrev pub price_end : ℤ → Time → Option Time
price_end price end = if ltb_ℤ (pos 0) price then some end else none

abbrev pub at_least_zero : ℤ → ℤ
at_least_zero a = if ltb_ℤ a (pos 0) then pos 0 else a

-- A quote for a subscription that is active until a later time.
unfoldable pub quote_active : Time → Current → Time → (version : ℕ) → (price baseline : ℤ) → Quote
unfolding sub64 add_calendar_month
quote_active now c end version price baseline =
    if c.plan_version == version
    then record {
      action = renewal;
      amount = price;
      period_start = end;
      period_end = add_calendar_month end;
      ends_at = some (add_calendar_month end);
    }
    else record {
      action = compare_price change price c.cycle_price;
      amount = at_least_zero (sub64 price baseline);
      period_start = now;
      period_end = end;
      ends_at = price_end price end;
    }

abbrev pub action_of : Option Current → (plan : ℕ) → ℤ → Action
action_of none plan price = purchase
action_of (some c) plan price =
    if c.plan == plan then renewal else compare_price change price c.cycle_price

-- `quoteSubscription`.
unfoldable pub quote_subscription :
    Time → Option Current → (plan version : ℕ) → (price baseline : ℤ) → Quote
unfolding active_until quote_active
quote_subscription now current plan version price baseline = elim (active_until now current) [
  | some (c, end) ↦ quote_active now c end version price baseline
  | none ↦ record {
    action = action_of current plan price;
    amount = price;
    period_start = now;
    period_end = add_calendar_month now;
    ends_at = price_end price (add_calendar_month now);
  }
]

-- `canPurchasePlan`.
abbrev pub can_purchase_plan : Bool → Option Current → (plan : ℕ) → Bool
can_purchase_plan enabled none plan = enabled
can_purchase_plan enabled (some c) plan = enabled || c.plan == plan
