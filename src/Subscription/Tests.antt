-- ===== src/Subscription/Tests.antt =====
-- Quotes and purchases on a small store, and the results at concrete requests.
use cloudmeter.Common.{
  ℕ, suc, ◌+◌, ◌*◌, ◌≡◌, Bool, true, false, none, some, [], ◌∷◌, arith, ltb, if◌then◌else◌,
}
use cloudmeter.Common.Int.{pos, ◌≤ℤ◌}
use cloudmeter.Common.Text.{trim_space}
use cloudmeter.Common.Tx.{transact}
use cloudmeter.Money.Balance.{IsBalanced}
use cloudmeter.Subscription.{
  Time, Current, active, last_day, is_before, add_calendar_month, quote_subscription,
}
use cloudmeter.Subscription.Atomic.{Purchased, purchase_subscription-effect}
use cloudmeter.Subscription.Balance.{purchase_subscription-IsBalanced}
use cloudmeter.Subscription.Months.{IsValid, add_calendar_month_lem}
use cloudmeter.Subscription.Purchase.{Store, purchase_subscription}
use cloudmeter.Subscription.Quotes.{quote_subscription-amount}

abbrev january : Time
january = record { year = 2024; month = 1; day = 31; clock = 0 }

january-IsValid : IsValid january
january-IsValid = ground arith

abbrev february : Time
february = record { year = 2024; month = 2; day = 10; clock = 0 }

february-IsValid : IsValid february
february-IsValid = ground arith

-- A subscription of version 3 of plan 1, at 10.00 a month, until february.
abbrev current : Current
current = record {
  plan = 1;
  plan_version = 3;
  status = active;
  cycle_price = pos 1000;
  starts_at = january;
  ends_at = some february;
  grace_ends_at = none;
}

abbrev store : Store
store = record {
  users = (1, true) ∷ [];
  money = record { wallets = (1, record { balance = pos 0; version = 0 }) ∷ []; ledger = [] };
  plans =
      (3, record { plan = 1; price = pos 1000; effective = true; purchase_enabled = true })
      ∷ (4, record { plan = 2; price = pos 2500; effective = true; purchase_enabled = true })
      ∷ [];
  subscriptions = (1, current) ∷ [];
  purchases = [];
  bill_totals = [];
  bill_items = [];
  credits = [];
  apps = [];
  notified = [];
  audits = [];
}

abbrev no_faults : ℕ → Bool
no_faults _ = false

add_calendar_month_lem_example :
    let u = add_calendar_month january in
    IsValid u
    × (is_before january u ≡ true)
    × (12 * u.year + u.month ≡ suc (12 * 2024 + 1))
    × (u.day ≡ (if ltb (last_day u.year u.month) 31 then last_day u.year u.month else 31))
    × (u.clock ≡ 0)
add_calendar_month_lem_example = add_calendar_month_lem january january-IsValid

quote_subscription-amount_example :
    let q = quote_subscription january (some current) 2 4 (pos 2500) (pos 1000) in
    (pos 0 ≤ℤ q.amount) × (q.amount ≤ℤ pos 2500)
quote_subscription-amount_example =
    quote_subscription-amount january (some current) 2 4 (pos 2500) (pos 1000) (ground arith)
      (ground arith) (ground arith) (ground arith)

purchase_subscription-effect_example :
    Purchased
      (λ _ _. none)
      40
      1
      4
      50
      january
      (trim_space "k")
      store
      (transact (purchase_subscription (λ _ _. none) true 40 1 4 50 january "k") no_faults store).1
purchase_subscription-effect_example =
    purchase_subscription-effect (λ _ _. none) 40 1 4 50 january true "k" no_faults store

purchase_subscription-IsBalanced_example :
    IsBalanced
      (transact
        (purchase_subscription (λ _ _. none) true 40 1 4 50 january "k")
        no_faults
        store).1.money
purchase_subscription-IsBalanced_example =
    purchase_subscription-IsBalanced (λ _ _. none) 40 1 4 50 january true "k" no_faults store
      (record { agrees = λ u w got. ground (arith, got) }) (λ k v got. ground (arith, got))
      (λ c got. ground (arith, got))
