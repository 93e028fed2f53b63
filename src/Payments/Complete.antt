-- ===== src/Payments/Complete.antt =====
-- What the money requests do in a sound store when no database call fails.
use Prim.Native.String.{String}
use cloudmeter.Common.{
  ℕ, ◌≡◌, refl, Bool, true, false, none, some, arith, lookup, lookup-update_self, update-update,
}
use cloudmeter.Common.Int.{ℤ, pos, ◌+ℤ◌, ◌-ℤ◌, ◌≤ℤ◌, in_int64, ltb_ℤ, sub64, wrap64_lem}
use cloudmeter.Common.Tx.{transact}
use cloudmeter.Domain.{RefundState, pending, paid, refunded, refunding}
use cloudmeter.Money.{Wallet, topup, refund, find_entry, bump, is_zero}
use cloudmeter.Payments.{
  Order, Refund, Store, order_paid, order_refunded, manual, find_order, find_wallet, find_refund,
  set_status,
}
use cloudmeter.Payments.Effects.Topup.{credited, paid_by_hand}
use cloudmeter.Payments.Effects.Refund.{refunded_store}
use cloudmeter.Payments.Refunds.{refund_payment, refund_reason, refund_reason_too_long}
use cloudmeter.Payments.Sound.{IsSound}
use cloudmeter.Payments.Sound.Paid.{topup-IsSound}
use cloudmeter.Payments.Topups.{mark_payment_paid}

-- No database call fails.
abbrev pub no_faults : ℕ → Bool
no_faults _ = false

module _ (actor entry now id : ℕ) (d : Store) where
  mark_paid-posts :
      (o : Order) (w : Wallet)
      → find_order id d ≡ some o
      → o.status ≡ pending
      → find_wallet o.user d ≡ some w
      → in_int64 (w.balance +ℤ o.amount) ≡ true
      → is_zero o.amount ≡ false
      → find_entry o.user (topup id) d.money.ledger ≡ none
      → transact (mark_payment_paid actor entry now id) no_faults d
        ≡ (order_paid id (w.balance +ℤ o.amount) false, credited actor entry now id o w d)
  unfolding mark_payment_paid
  mark_paid-posts o w found was funded fits nonzero fresh =
      ground (arith, wrap64_lem (w.balance +ℤ o.amount))

  -- In a sound store, when no database call fails, confirming a pending order whose new balance
  -- fits in an int64 pays it: the reply has the sum of the balance and the amount, and the store
  -- has the whole change.
  pub mark_payment_paid-pays :
      (o : Order) (w : Wallet)
      → IsSound d
      → find_order id d ≡ some o
      → o.status ≡ pending
      → find_wallet o.user d ≡ some w
      → in_int64 (w.balance +ℤ o.amount) ≡ true
      → transact (mark_payment_paid actor entry now id) no_faults d
        ≡ (order_paid id (w.balance +ℤ o.amount) false, credited actor entry now id o w d)
  mark_payment_paid-pays o w h found was funded fits =
      mark_paid-posts o w found was funded fits (ground (arith, h.orders id o found))
        (ground (arith, h.orders id o found))

  -- When no database call fails, confirming an order that is paid already changes nothing and
  -- answers with the balance of its user's wallet.
  pub mark_payment_paid-replay :
      (o : Order) (w : Wallet)
      → find_order id d ≡ some o
      → o.status ≡ paid
      → find_wallet o.user d ≡ some w
      → transact (mark_payment_paid actor entry now id) no_faults d
        ≡ (order_paid id w.balance true, d)
  unfolding mark_payment_paid
  mark_payment_paid-replay o w found was funded = ground arith

module _ (actor rid entry now id : ℕ) (text : String) (d : Store) where
  refund-posts :
      (o : Order) (w : Wallet)
      → refund_reason_too_long (refund_reason text) ≡ false
      → find_order id d ≡ some o
      → o.status ≡ paid
      → o.provider ≡ manual
      → find_wallet o.user d ≡ some w
      → ltb_ℤ w.balance o.amount ≡ false
      → lookup rid d.refunds ≡ none
      → find_refund id d.refunds ≡ none
      → find_entry o.user (refund id) d.money.ledger ≡ none
      → is_zero (pos 0 -ℤ o.amount) ≡ false
      → transact (refund_payment actor rid entry now id text) no_faults d ≡ (
        order_refunded id (sub64 w.balance o.amount) rid RefundState.succeeded (some entry) false,
        refunded_store actor rid entry now id (refund_reason text) o w d,
      )
  unfolding refund_payment
  refund-posts o w short found was by funded covered new first fresh nonzero = ground (
    arith,
    update-update id (set_status refunded) (set_status refunding) (set_status refunded) d.orders
        (λ _. refl),
  )

  -- In a sound store, when no database call fails, a refund of a paid manual order that the wallet
  -- covers is made, under a new refund id and with a reason that is not too long.
  pub refund_payment-refunds :
      (o : Order) (w : Wallet)
      → IsSound d
      → refund_reason_too_long (refund_reason text) ≡ false
      → find_order id d ≡ some o
      → o.status ≡ paid
      → o.provider ≡ manual
      → find_wallet o.user d ≡ some w
      → ltb_ℤ w.balance o.amount ≡ false
      → lookup rid d.refunds ≡ none
      → transact (refund_payment actor rid entry now id text) no_faults d ≡ (
        order_refunded id (sub64 w.balance o.amount) rid RefundState.succeeded (some entry) false,
        refunded_store actor rid entry now id (refund_reason text) o w d,
      )
  unfolding ◌-ℤ◌
  refund_payment-refunds o w h short found was by funded covered new =
      refund-posts o w short found was by funded covered new (ground (arith, h.orders id o found))
        (ground (arith, h.orders id o found)) (ground (arith, h.orders id o found))

  -- When no database call fails, a refund of an order that is refunded already, with a reason that
  -- is not too long, changes nothing and answers with the refund that there is.
  pub refund_payment-replay :
      (o : Order) (r : Refund) (k : ℕ) (w : Wallet)
      → refund_reason_too_long (refund_reason text) ≡ false
      → find_order id d ≡ some o
      → o.status ≡ refunded
      → find_refund id d.refunds ≡ some (k, r)
      → find_wallet r.user d ≡ some w
      → transact (refund_payment actor rid entry now id text) no_faults d
        ≡ (order_refunded id w.balance k r.status r.ledger_entry true, d)
  unfolding refund_payment
  refund_payment-replay o r k w short found was first funded = ground arith

-- Adding an amount and taking it away again gives back the balance, which covers it.
add_then_sub :
    (a b : ℤ)
    → pos 0 ≤ℤ a
    → pos 1 ≤ℤ b
    → in_int64 (a +ℤ b) ≡ true
    → (sub64 (a +ℤ b) b ≡ a) × (ltb_ℤ (a +ℤ b) b ≡ false)
unfolding sub64 ◌+ℤ◌ ◌-ℤ◌
add_then_sub a b low more fits = ground arith

-- In a sound store, a pending manual order that is confirmed and then refunded, by requests that no
-- database call fails, leaves the balance of its user as it was: where the confirmed balance fits
-- in an int64, the refund id is new and the reason is not too long.
pub confirm_then_refund :
    (actor entry now id rid entry' now' : ℕ) (text : String) (d : Store) (o : Order) (w : Wallet)
    → IsSound d
    → find_order id d ≡ some o
    → o.status ≡ pending
    → o.provider ≡ manual
    → find_wallet o.user d ≡ some w
    → in_int64 (w.balance +ℤ o.amount) ≡ true
    → lookup rid d.refunds ≡ none
    → refund_reason_too_long (refund_reason text) ≡ false
    → let d1 = (transact (mark_payment_paid actor entry now id) no_faults d).1 in
      let d2 = (transact (refund_payment actor rid entry' now' id text) no_faults d1).1 in
      (v : Wallet) × (find_wallet o.user d2 ≡ some v) × (v.balance ≡ w.balance)
confirm_then_refund actor entry now id rid entry' now' text d o w h found was by funded fits new
      short =
    let d1 = credited actor entry now id o w d in
    let o1 = paid_by_hand now o in
    let w1 = bump (λ b. b +ℤ o.amount) w in
    let sound1 =
      topup-IsSound entry id o w (paid_by_hand now) d d1 h found was funded fits (refl, refl, refl)
        refl refl refl in
    let found1 = lookup-update_self id (paid_by_hand now) o d.orders found in
    let funded1 = lookup-update_self o.user (bump (λ b. b +ℤ o.amount)) w d.money.wallets funded in
    let (back, covered) =
      add_then_sub w.balance o.amount (h.books.agrees o.user w funded).nonneg
        (h.orders id o found).positive fits in
    rw
      (
        mark_payment_paid-pays actor entry now id d o w h found was funded fits,
        refund_payment-refunds actor rid entry' now' id text d1 o1 w1 sound1 short found1 refl by
            funded1 covered new,
      )
      (
        bump (λ _. sub64 w1.balance o.amount) w1,
        lookup-update_self o.user (bump (λ _. sub64 w1.balance o.amount)) w1 d1.money.wallets
            funded1,
        back,
      )
