-- ===== src/Subscription/Purchase/Tables.antt =====
-- The tables that a purchase of internal/httpapi/subscription_features.go reads and writes, and its
-- statements on them.
use Prim.Native.String.{String}
use text.Mathlib.Text.{◌==◌ as str_eq}
use cloudmeter.Common.{
  ℕ, Bool, true, false, ◌&&◌, ◌||◌, not, Option, none, some, List, [], ◌∷◌, ◌==◌, if◌then◌else◌,
  lookup,
}
use cloudmeter.Common.Int.{ℤ, pos, ◌+ℤ◌, ◌-ℤ◌, sub64, ltb_ℤ}
use cloudmeter.Common.Tx.{Tx, ◌>>◌, write}
use cloudmeter.Money.{Entry, Wallet, Money, subscription, is_some}
use cloudmeter.Subscription.{Time, Current, active, is_active, Action, Quote, is_before}

pub record PlanVersion : Type 0 where
  pub plan : ℕ
  pub price : ℤ
  pub effective : Bool  -- the latest version of its plan that is in effect
  pub purchase_enabled : Bool

pub data PurchaseStatus : Type 0 where
  insufficient_funds succeeded : PurchaseStatus

pub record Bought : Type 0 where
  pub user : ℕ
  pub plan_version : ℕ
  pub previous : Option ℕ
  pub key : String
  pub action : Action
  pub status : PurchaseStatus
  pub amount : ℤ
  pub balance_after : ℤ
  pub period_start : Time
  pub period_end : Time
  pub ends_at : Option Time
  pub ledger_entry : Option ℕ

pub record BillItem : Type 0 where
  pub bill : ℕ × ℕ × ℕ
  pub purchase : ℕ
  pub amount : ℤ

-- An app that can be resumed: its user, its status, and whether it has a release and an open job.
pub record UserApp : Type 0 where
  pub user : ℕ
  pub suspended_for_subscription : Bool
  pub updating : Bool
  pub last_successful_release : Option ℕ
  pub open_job : Bool
  pub recovery_of : Option ℕ  -- the purchase whose recovery job is queued

pub record Store : Type 0 where
  pub users : List (ℕ × Bool)  -- whether the account is active
  pub money : Money
  pub plans : List (ℕ × PlanVersion)
  pub subscriptions : List (ℕ × Current)  -- by user
  pub purchases : List (ℕ × Bought)
  pub bill_totals : List ((ℕ × ℕ × ℕ) × ℤ)  -- by user, year and month
  pub bill_items : List BillItem
  pub credits : List (ℕ × ℤ)  -- granted, by user
  pub apps : List (ℕ × UserApp)
  pub notified : List (String × ℕ)
  pub audits : List (String × ℕ)

pub data Reply : Type 0 where
  error : ℕ → String → Reply
  replayed : (purchase : ℕ) → Reply
  bought : (purchase : ℕ) → Quote → (balance : ℤ) → Reply

abbrev pub Handler : Type 0 → Type 0
Handler A = Tx Store Reply A

abbrev pub internal : Reply
internal = error 500 "internal_error"

abbrev pub find_active_user : ℕ → Store → Option (Unit {0})
find_active_user user d = elim (lookup user d.users) [
  | none ↦ none
  | some on ↦ if on then some tt else none
]

-- The purchase of a user under an idempotency key.
unfoldable pub find_purchase : ℕ → String → List (ℕ × Bought) → Option (ℕ × Bought)
find_purchase user key [] = none
find_purchase user key ((id, b) ∷ l) =
    if user == b.user && str_eq key b.key then some (id, b) else find_purchase user key l

abbrev pub find_plan : ℕ → Store → Option PlanVersion
find_plan version d = elim (lookup version d.plans) [
  | none ↦ none
  | some v ↦ if v.effective then some v else none
]

abbrev pub has_succeeded : PurchaseStatus → Bool
has_succeeded succeeded = true
has_succeeded insufficient_funds = false

-- A cycle that is paid and has not begun.
abbrev pub is_future : Time → Bought → Bool
is_future now b =
    has_succeeded b.status && is_before now b.period_start && is_before now b.period_end

unfoldable pub future_cycles : ℕ → Time → List (ℕ × Bought) → Bool
future_cycles user now [] = false
future_cycles user now ((_, b) ∷ l) = user == b.user && is_future now b || future_cycles user now l

-- A cycle that is paid and runs now.
abbrev pub is_running : Time → Bought → Bool
is_running now b =
    has_succeeded b.status && not (is_before now b.period_start) && is_before now b.period_end

abbrev pub max_ℤ : ℤ → ℤ → ℤ
max_ℤ a b = if ltb_ℤ a b then b else a

abbrev pub price_of : ℕ → List (ℕ × PlanVersion) → ℤ
price_of version plans = elim (lookup version plans) [ none ↦ pos 0 | some v ↦ v.price ]

-- coalesce(max(cycle_price_cents),0) over the running cycles.
unfoldable pub running_price : ℕ → Time → List (ℕ × PlanVersion) → List (ℕ × Bought) → ℤ
running_price user now plans [] = pos 0
running_price user now plans ((_, b) ∷ l) =
    let rest = running_price user now plans l in
    if user == b.user && is_running now b then max_ℤ (price_of b.plan_version plans) rest else rest

-- The price that the running cycle was paid at.
unfoldable pub paid_baseline : Time → Option Current → ℤ → ℤ
paid_baseline now none paid = paid
paid_baseline now (some c) paid = elim c.ends_at [
  | none ↦ paid
  | some end ↦ if is_active c.status && is_before now end then max_ℤ paid c.cycle_price else paid
]

abbrev pub is_permanent : ℕ → Option Current → Bool
is_permanent version none = false
is_permanent version (some c) = elim c.ends_at [
  | none ↦ is_active c.status && c.plan_version == version
  | some _ ↦ false
]

abbrev pub changes_version : ℕ → Option Current → Bool
changes_version version none = false
changes_version version (some c) = not (c.plan_version == version)

abbrev pub previous_version : Option Current → Option ℕ
previous_version none = none
previous_version (some c) = some c.plan_version

-- When the subscription that a purchase leaves has begun.
unfoldable pub begins_at : Time → Option Current → Time
begins_at now none = now
begins_at now (some c) = elim c.ends_at [
  | none ↦ now
  | some end ↦ if is_active c.status && is_before now end then c.starts_at else now
]

abbrev pub on_money : (Money → Option Money) → Store → Option Store
on_money f d = elim (f d.money) [ none ↦ none | some m ↦ some (record d { money = m }) ]

-- INSERT INTO subscription_purchases: a user has one purchase under a key.
unfoldable pub insert_purchase : ℕ → Bought → Store → Option Store
insert_purchase id b d = elim (find_purchase b.user b.key d.purchases) [
  | some _ ↦ none
  | none ↦ some (record d { purchases = (id, b) ∷ d.purchases })
]

abbrev pub same_bill : ℕ × ℕ × ℕ → ℕ × ℕ × ℕ → Bool
same_bill (u, y, m) (v, z, n) = u == v && y == z && m == n

-- INSERT INTO bills … ON CONFLICT DO UPDATE SET updated_at.
unfoldable pub ensure_bill : ℕ × ℕ × ℕ → List ((ℕ × ℕ × ℕ) × ℤ) → List ((ℕ × ℕ × ℕ) × ℤ)
ensure_bill k [] = (k, pos 0) ∷ []
ensure_bill k ((j, t) ∷ l) =
    let rest = ensure_bill k l in if same_bill k j then (j, t) ∷ l else (j, t) ∷ rest

-- UPDATE bills SET total_cents=total_cents+$2.
unfoldable pub add_to_bill : ℕ × ℕ × ℕ → ℤ → List ((ℕ × ℕ × ℕ) × ℤ) → List ((ℕ × ℕ × ℕ) × ℤ)
add_to_bill k a [] = []
add_to_bill k a ((j, t) ∷ l) =
    let rest = add_to_bill k a l in if same_bill k j then (j, t +ℤ a) ∷ rest else (j, t) ∷ rest

-- An app that was suspended with the subscription and has no open job gets a recovery job of its last
-- release.
abbrev pub queue_recovery : ℕ → ℕ → UserApp → UserApp
queue_recovery user purchase a =
    if a.user == user
      && a.suspended_for_subscription
      && not a.open_job
      && is_some a.last_successful_release
    then record a { open_job = true; recovery_of = some purchase }
    else a

abbrev pub recovers : ℕ → Option ℕ → Bool
recovers purchase none = false
recovers purchase (some p) = p == purchase

-- An app with a recovery job of the purchase is updating.
abbrev pub start_update : ℕ → ℕ → UserApp → UserApp
start_update user purchase a =
    if a.user == user && a.suspended_for_subscription && recovers purchase a.recovery_of
    then record a { suspended_for_subscription = false; updating = true }
    else a

abbrev pub map_apps : (UserApp → UserApp) → List (ℕ × UserApp) → List (ℕ × UserApp)
map_apps f [] = []
map_apps f ((id, a) ∷ l) = (id, f a) ∷ map_apps f l

-- `resumeSubscriptionApps`.
unfoldable pub resume_subscription_apps : (user purchase : ℕ) → Handler (Unit {0})
resume_subscription_apps user purchase = do
  write internal (λ d. record d { apps = map_apps (queue_recovery user purchase) d.apps })
  write internal (λ d. record d { apps = map_apps (start_update user purchase) d.apps })

abbrev pub log_notice : String → ℕ → Store → Store
log_notice kind id d = record d { notified = (kind, id) ∷ d.notified }

abbrev pub log_audit : String → ℕ → Store → Store
log_audit action id d = record d { audits = (action, id) ∷ d.audits }

abbrev pub purchase_row :
    ℕ → ℕ → Option Current → String → Quote → PurchaseStatus → ℤ → Option ℕ → Bought
purchase_row user version current key q status balance entry = record {
  user = user;
  plan_version = version;
  previous = previous_version current;
  key = key;
  action = q.action;
  status = status;
  amount = q.amount;
  balance_after = balance;
  period_start = q.period_start;
  period_end = q.period_end;
  ends_at = q.ends_at;
  ledger_entry = entry;
}

abbrev pub charge_entry : (entry user purchase : ℕ) → Quote → Wallet → Entry
charge_entry entry user purchase q w = record {
  id = entry;
  wallet = user;
  ref = subscription purchase;
  amount = pos 0 -ℤ q.amount;
  balance_after = sub64 w.balance q.amount;
}

abbrev pub subscribed : (version : ℕ) → PlanVersion → Time → Quote → Current
subscribed version v starts q = record {
  plan = v.plan;
  plan_version = version;
  status = active;
  cycle_price = v.price;
  starts_at = starts;
  ends_at = q.ends_at;
  grace_ends_at = none;
}

abbrev pub is_charged : Quote → Bool
is_charged q = ltb_ℤ (pos 0) q.amount
