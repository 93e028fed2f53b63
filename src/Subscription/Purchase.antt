-- ===== src/Subscription/Purchase.antt =====
-- `purchaseSubscription` and `resumeSubscriptionApps` of internal/httpapi/subscription_features.go. The
-- database function grant_subscription_credit is a parameter. One time stands for the clocks of the program
-- and of the database.
mod Tables
unfoldable pub use Tables.*
use Prim.Native.String.{String, len}
use text.Mathlib.Text.{◌==◌ as str_eq}
use cloudmeter.Common.{
  ℕ, Bool, true, false, ◌&&◌, ◌||◌, not, Option, none, some, List, [], ◌∷◌, ◌==◌, ltb,
  if◌then◌else◌, lookup, insert,
}
use cloudmeter.Common.Int.{ℤ, pos, ◌+ℤ◌, ◌-ℤ◌, sub64, ltb_ℤ}
use cloudmeter.Common.Text.{trim_space, is_empty}
use cloudmeter.Common.Tx.{
  Tx, ◌>>=◌, ◌>>◌, answer, reject_if, choose, begin, query, query_row, exec, write, ignored_query,
  commit, go,
}
use cloudmeter.Money.{Entry, Wallet, Money, subscription, insert_entry, set_balance, is_some}
use cloudmeter.Subscription.{
  Time, Current, active, is_active, Action, Quote, is_before, quote_subscription, can_purchase_plan,
}

-- The wallet cannot pay: the attempt is recorded.
unfoldable pub refuse_purchase :
    (user version id : ℕ) → Option Current → String → Quote → Wallet → Handler Reply
unfolding insert_purchase
refuse_purchase user version id current key q w = do
  exec internal (
      insert_purchase id
        (purchase_row user version current key q insufficient_funds w.balance none))
  write internal (log_notice "subscription_purchase_failed" id)
  write internal (log_audit "subscription.purchase.insufficient" id)
  commit internal
  answer (error 409 "insufficient_balance")

-- The charge, if there is one.
unfoldable pub charge_wallet : (entry user id : ℕ) → Quote → Wallet → Handler (Unit {0})
unfolding insert_entry set_balance sub64
charge_wallet entry user id q w =
    choose (is_charged q)
      (do
        exec internal (on_money (insert_entry (charge_entry entry user id q w)))
        write internal
            (λ d. record d { money = set_balance user (sub64 w.balance q.amount) d.money }))
      (go tt)

module _ (grant_credit : ℕ → Store → Option ℤ) where
  -- The grant of the database function, if there is one, and its audit row.
  unfoldable pub add_credit : ℕ → Store → Store
  add_credit user d = elim (grant_credit user d) [
    | none ↦ d
    | some a ↦ record d {
      credits = (user, a) ∷ d.credits;
      audits = ("subscription.credit_grant", user) ∷ d.audits;
    }
  ]

  -- From the subscription to the commit.
  unfoldable pub record_purchase :
      (entry user version id : ℕ)
      → Time
      → PlanVersion
      → Option Current
      → String
      → Quote
      → Wallet
      → Handler Reply
  unfolding resume_subscription_apps
  record_purchase entry user version id now v current key q w = do
    write internal (λ d. record d {
      subscriptions = insert user (subscribed version v (begins_at now current) q) d.subscriptions;
    })
    exec internal (
        insert_purchase id (
          purchase_row user version current key q succeeded (sub64 w.balance q.amount)
            (if is_charged q then some entry else none)))
    write internal
        (λ d. record d { bill_totals = ensure_bill (user, now.year, now.month) d.bill_totals })
    write internal (λ d. record d {
      bill_items =
          record { bill = (user, now.year, now.month); purchase = id; amount = q.amount }
          ∷ d.bill_items;
    })
    write internal (λ d. record d {
      bill_totals = add_to_bill (user, now.year, now.month) q.amount d.bill_totals;
    })
    write internal (add_credit user)
    resume_subscription_apps user id
    write internal (log_notice "subscription_purchased" id)
    write internal (log_audit "subscription.purchase" id)
    commit internal
    answer (bought id q (sub64 w.balance q.amount))

  -- From the charge to the commit.
  unfoldable pub complete_purchase :
      (entry user version id : ℕ)
      → Time
      → PlanVersion
      → Option Current
      → String
      → Quote
      → Wallet
      → Handler Reply
  complete_purchase entry user version id now v current key q w =
      charge_wallet entry user id q w >> record_purchase entry user version id now v current key q w

  -- A plan version that can be bought.
  unfoldable pub buy_version :
      (entry user version id : ℕ) → Time → PlanVersion → Option Current → String → Handler Reply
  unfolding future_cycles
  buy_version entry user version id now v current key = do
    reject_if (not (can_purchase_plan v.purchase_enabled current v.plan))
        (error 404 "plan_version_unavailable")
    reject_if (is_permanent version current) (error 409 "subscription_no_change")
    choose (changes_version version current)
        (do
          locked ← query internal (λ d. future_cycles user now d.purchases)
          reject_if locked (error 409 "prepaid_cycles_locked"))
        (go tt)
    (w : Wallet) ← query_row internal internal (λ d. lookup user d.money.wallets)
    paid ← query internal (λ d. running_price user now d.plans d.purchases)
    let q = quote_subscription now current v.plan version v.price (paid_baseline now current paid)
    purchase ← query internal (λ _. id)  -- gen_random_uuid()
    choose (ltb_ℤ w.balance q.amount) (refuse_purchase user version purchase current key q w)
        (complete_purchase entry user version purchase now v current key q w)

  unfoldable pub purchase_subscription :
      (valid_uuid : Bool) → (entry user version id : ℕ) → Time → String → Handler Reply
  purchase_subscription valid_uuid entry user version id now text = do
    let key = trim_space text
    reject_if (not valid_uuid || is_empty key || ltb 128 (len key)) (error 400 "validation_failed")
    begin internal
    query_row (error 403 "account_unavailable") (error 403 "account_unavailable")
        (find_active_user user)
    existing ← query internal (λ d. find_purchase user key d.purchases)
    elim existing [
      | some (oid, b) ↦ (do
        reject_if (not (b.plan_version == version)) (error 409 "idempotency_conflict")
        ignored_query  -- the commit, whose failure is ignored
        reject_if (not (has_succeeded b.status)) (error 409 "insufficient_balance")
        answer (replayed oid))
      | none ↦ (do
        (v : PlanVersion) ←
            query_row internal (error 404 "plan_version_unavailable") (find_plan version)
        current ← query internal (λ d. lookup user d.subscriptions)
        buy_version entry user version id now v current key)
    ]
