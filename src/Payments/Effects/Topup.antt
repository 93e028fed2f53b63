-- ===== src/Payments/Effects/Topup.antt =====
-- The effect of `mark_payment_paid`.
use cloudmeter.Common.{
  ℕ, ◌≡◌, ◌⊎◌, inl, inr, Bool, true, none, some, ◌∷◌, arith, update, Option-cases,
}
use cloudmeter.Common.Int.{in_int64, ◌+ℤ◌, wrap64_lem}
use cloudmeter.Common.Tx.{transact}
use cloudmeter.Domain.{paid, pending}
use cloudmeter.Money.{Wallet, topup, find_entry}
use cloudmeter.Money.Post.{posted}
use cloudmeter.Payments.{Order, Store, find_order, find_wallet}
use cloudmeter.Payments.Topups.{credit_entry, mark_payment_paid}

abbrev pub paid_by_hand : ℕ → Order → Order
paid_by_hand now o = record o { status = paid; paid_at = some now }

-- The store after an order has been paid in full.
abbrev pub credited : (actor entry now id : ℕ) → Order → Wallet → Store → Store
credited actor entry now id o w d = record d {
  money = posted (credit_entry entry id o w) (λ b. b +ℤ o.amount) d.money;
  orders = update id (paid_by_hand now) d.orders;
  order_events =
      record { order = id; from = pending; to = paid; message = "manual payment verified" }
      ∷ d.order_events;
  audits = record { actor = actor; action = "payment.mark_paid"; resource = id } ∷ d.audits;
}

-- When an order is paid, and what the store is then.
pub record Credits (actor entry now id : ℕ) (d d' : Store) : Type 0 where
  pub order : Order
  pub wallet : Wallet
  pub found : find_order id d ≡ some order
  pub was_pending : order.status ≡ pending
  pub funded : find_wallet order.user d ≡ some wallet
  pub fits : in_int64 (wallet.balance +ℤ order.amount) ≡ true
  pub fresh : find_entry order.user (topup id) d.money.ledger ≡ none
  pub result : d' ≡ credited actor entry now id order wallet d

module _ (actor entry now id : ℕ) (faults : ℕ → Bool) (d : Store) where
  mark_payment_paid-cases :
      (o : Order) (w : Wallet)
      → find_order id d ≡ some o
      → find_wallet o.user d ≡ some w
      → let (r, d') = transact (mark_payment_paid actor entry now id) faults d in
        (d' ≡ d)
        ⊎ ((o.status ≡ pending)
            × (in_int64 (w.balance +ℤ o.amount) ≡ true)
            × (find_entry o.user (topup id) d.money.ledger ≡ none)
            × (d' ≡ credited actor entry now id o w d))
  unfolding mark_payment_paid
  mark_payment_paid-cases o w found funded = ground (arith, wrap64_lem (w.balance +ℤ o.amount))

  -- Whichever database calls fail, confirming an order leaves the database as it was, or makes the whole
  -- change of a payment: the last only for a pending order without a top-up in the ledger, whose amount
  -- and the balance of its user fit together in an int64.
  pub mark_payment_paid-effect :
      let (r, d') = transact (mark_payment_paid actor entry now id) faults d in
      (d' ≡ d) ⊎ Credits actor entry now id d d'
  unfolding mark_payment_paid
  mark_payment_paid-effect = elim (Option-cases (find_order id d)) [
    | inl missing ↦ inl (ground arith)
    | inr (o, found) ↦ elim (Option-cases (find_wallet o.user d)) [
      | inl missing ↦ inl (ground arith)
      | inr (w, funded) ↦ elim (mark_payment_paid-cases o w found funded) [
        | inl same ↦ inl same
        | inr (p, q, z, r) ↦ inr (record {
          order = o;
          wallet = w;
          found = found;
          was_pending = p;
          funded = funded;
          fits = q;
          fresh = z;
          result = r;
        })
      ]
    ]
  ]
