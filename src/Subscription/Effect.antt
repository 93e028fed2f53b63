-- ===== src/Subscription/Effect.antt =====
-- The effect of `purchase_subscription`.
use Prim.Native.String.{String}
use cloudmeter.Common.{
  ℕ, ◌+◌, ◌≡◌, ◌⊎◌, true, false, Option, none, some, ◌∷◌, arith, insert, if◌then◌else◌,
}
use cloudmeter.Common.Int.{ℤ, sub64}
use cloudmeter.Common.Tx.{Session, ended, ◌>>=◌}
use cloudmeter.Money.{Wallet}
use cloudmeter.Money.Post.{posted}
use cloudmeter.Subscription.{Time, Current, Quote}
use cloudmeter.Subscription.Purchase.{
  PlanVersion, Store, Reply, Handler, insufficient_funds, succeeded, insert_purchase, purchase_row,
  charge_entry, is_charged, charge_wallet, record_purchase, subscribed, begins_at, ensure_bill,
  add_to_bill, map_apps, queue_recovery, start_update, log_notice, log_audit, complete_purchase,
  add_credit, find_purchase,
}

-- The store after the attempt of a user whose wallet cannot pay.
abbrev pub refused :
    (user version id : ℕ) → Option Current → String → Quote → Wallet → Store → Store
refused user version id current key q w d = log_audit "subscription.purchase.insufficient" id (
    log_notice "subscription_purchase_failed" id (record d {
      purchases =
          (id, purchase_row user version current key q insufficient_funds w.balance none)
          ∷ d.purchases;
    }))

-- The store after the charge of a quote that asks for money.
abbrev pub charged : (entry user id : ℕ) → Quote → Wallet → Store → Store
charged entry user id q w d = record d {
  money = posted (charge_entry entry user id q w) (λ _. sub64 w.balance q.amount) d.money;
}

module _ (grant_credit : ℕ → Store → Option ℤ) where
  -- The store of a purchase whose charge is made.
  abbrev pub completed :
      (entry user version id : ℕ)
      → Time
      → PlanVersion
      → Option Current
      → String
      → Quote
      → Wallet
      → Store
      → Store
  completed entry user version id now v current key q w d =
      let month : ℕ × ℕ × ℕ = (user, now.year, now.month) in
      let e : Option ℕ = if is_charged q then some entry else none in
      let row = purchase_row user version current key q succeeded (sub64 w.balance q.amount) e in
      let s = add_credit grant_credit user (record d {
        subscriptions =
            insert user (subscribed version v (begins_at now current) q) d.subscriptions;
        purchases = (id, row) ∷ d.purchases;
        bill_totals = add_to_bill month q.amount (ensure_bill month d.bill_totals);
        bill_items = record { bill = month; purchase = id; amount = q.amount } ∷ d.bill_items;
      }) in
      log_audit "subscription.purchase" id (
        log_notice "subscription_purchased" id (record s {
          apps = map_apps (start_update user id) (map_apps (queue_recovery user id) s.apps);
        }))

module _ (entry user id : ℕ) (q : Quote) (w : Wallet) where
  charge_wallet-run :
      (k : Unit {0} → Handler Reply) (s : Session Store)
      → ((ended ((charge_wallet entry user id q w >>= k) s)).1 ≡ s.saved)
        ⊎ (((is_charged q ≡ true)
              × ((ended ((charge_wallet entry user id q w >>= k) s)).1
                  ≡ (ended (
                      k tt (record s {
                        work = record (s.work) {
                          money =
                              posted
                                (charge_entry entry user id q w)
                                (λ _. sub64 w.balance q.amount)
                                s.work.money;
                        };
                        calls = s.calls + 2;
                      }))).1))
            ⊎ ((is_charged q ≡ false)
                × ((ended ((charge_wallet entry user id q w >>= k) s)).1 ≡ (ended (k tt s)).1)))
  unfolding charge_wallet
  charge_wallet-run k s = ground arith

module _ (grant_credit : ℕ → Store → Option ℤ) (entry user version id : ℕ) (now : Time)
    (v : PlanVersion) (current : Option Current) (key : String) (q : Quote) (w : Wallet) where
  record_purchase-run :
      (s : Session Store)
      → find_purchase user key s.work.purchases ≡ none
      → let d' =
          (ended (record_purchase grant_credit entry user version id now v current key q w s)).1 in
        (d' ≡ s.saved)
        ⊎ (d' ≡ completed grant_credit entry user version id now v current key q w s.work)
  unfolding record_purchase insert_purchase
  record_purchase-run s new = ground arith

  pub complete_purchase-run :
      (s : Session Store)
      → find_purchase user key s.work.purchases ≡ none
      → let d' =
          (ended
            (complete_purchase grant_credit entry user version id now v current key q w s)).1 in
        (d' ≡ s.saved)
        ⊎ (((is_charged q ≡ true)
              × (d'
                  ≡ completed grant_credit entry user version id now v current key q w
                      (charged entry user id q w s.work)))
            ⊎ ((is_charged q ≡ false)
                × (d' ≡ completed grant_credit entry user version id now v current key q w s.work)))
  unfolding complete_purchase
  complete_purchase-run s new =
      let k : Unit {0} → Handler Reply =
        λ _. record_purchase grant_credit entry user version id now v current key q w in
      let s' : Session Store = record s {
        work = charged entry user id q w s.work;
        calls = s.calls + 2;
      } in
      ground (
        arith,
        charge_wallet-run entry user id q w k s,
        record_purchase-run s new,
        record_purchase-run s' new,
      )
