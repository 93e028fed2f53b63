-- ===== src/Payments/Effects/Refund.antt =====
-- The effect of `refund_payment`.
use Prim.Native.String.{String}
use cloudmeter.Common.{
  ℕ, ◌≡◌, refl, ◌⊎◌, inl, inr, Bool, false, none, some, ◌∷◌, arith, lookup, update, Option-cases,
  update-update,
}
use cloudmeter.Common.Int.{ltb_ℤ, sub64}
use cloudmeter.Common.Tx.{transact}
use cloudmeter.Domain.{paid, refunding, refunded, RefundState, processing}
use cloudmeter.Money.{Wallet, refund, find_entry}
use cloudmeter.Money.Post.{posted}
use cloudmeter.Payments.{
  Order, Refund, Store, find_order, find_wallet, find_refund, set_status, manual,
}
use cloudmeter.Payments.Refunds.{debit_entry, new_refund, refund_reason, refund_payment}

-- The store after a refund has been turned down.
abbrev pub rejected : (actor id : ℕ) → Store → Store
rejected actor id d = record d {
  audits = record { actor = actor; action = "payment.refund.rejected"; resource = id } ∷ d.audits;
}

abbrev pub finished : (entry now : ℕ) → Refund → Refund
finished entry now r = record r {
  status = RefundState.succeeded;
  ledger_entry = some entry;
  completed_at = some now;
}

-- The store after an order has been refunded.
abbrev pub refunded_store : (actor rid entry now id : ℕ) → String → Order → Wallet → Store → Store
refunded_store actor rid entry now id reason o w d = record d {
  money = posted (debit_entry entry id o w) (λ _. sub64 w.balance o.amount) d.money;
  orders = update id (set_status refunded) d.orders;
  order_events =
      record { order = id; from = refunding; to = refunded; message = "refund completed" }
      ∷ record { order = id; from = paid; to = refunding; message = "refund initiated" }
      ∷ d.order_events;
  refunds = update rid (finished entry now) ((rid, new_refund id o reason) ∷ d.refunds);
  refund_events =
      record {
        refund = rid;
        from = some processing;
        to = RefundState.succeeded;
        message = "refund completed";
      }
      ∷ record { refund = rid; from = none; to = processing; message = "refund requested" }
      ∷ d.refund_events;
  audits = record { actor = actor; action = "payment.refund"; resource = rid } ∷ d.audits;
}

-- When an order is refunded, and what the store is then.
pub record Refunds (actor rid entry now id : ℕ) (text : String) (d d' : Store) : Type 0 where
  pub order : Order
  pub wallet : Wallet
  pub found : find_order id d ≡ some order
  pub was_paid : order.status ≡ paid
  pub by_hand : order.provider ≡ manual
  pub funded : find_wallet order.user d ≡ some wallet
  pub covered : ltb_ℤ wallet.balance order.amount ≡ false
  pub new_id : lookup rid d.refunds ≡ none
  pub first : find_refund id d.refunds ≡ none
  pub fresh : find_entry order.user (refund id) d.money.ledger ≡ none
  pub result : d' ≡ refunded_store actor rid entry now id (refund_reason text) order wallet d

module _ (actor rid entry now id : ℕ) (text : String) (faults : ℕ → Bool) (d : Store) where
  refund_payment-cases :
      (o : Order) (w : Wallet)
      → find_order id d ≡ some o
      → find_wallet o.user d ≡ some w
      → let (r, d') = transact (refund_payment actor rid entry now id text) faults d in
        (d' ≡ d)
        ⊎ ((d' ≡ rejected actor id d)
            ⊎ ((o.status ≡ paid)
                × (o.provider ≡ manual)
                × (ltb_ℤ w.balance o.amount ≡ false)
                × (lookup rid d.refunds ≡ none)
                × (find_refund id d.refunds ≡ none)
                × (find_entry o.user (refund id) d.money.ledger ≡ none)
                × (d' ≡ refunded_store actor rid entry now id (refund_reason text) o w d)))
  unfolding refund_payment
  refund_payment-cases o w found funded = ground (
    arith,
    update-update id (set_status refunded) (set_status refunding) (set_status refunded) d.orders
        (λ _. refl),
  )

  refund_payment-no_wallet :
      (o : Order)
      → find_order id d ≡ some o
      → find_wallet o.user d ≡ none
      → let (r, d') = transact (refund_payment actor rid entry now id text) faults d in
        (d' ≡ d) ⊎ (d' ≡ rejected actor id d)
  unfolding refund_payment
  refund_payment-no_wallet o found missing = ground arith

  refund_payment-no_order :
      find_order id d ≡ none
      → (transact (refund_payment actor rid entry now id text) faults d).1 ≡ d
  unfolding refund_payment
  refund_payment-no_order missing = ground arith

  -- Whichever database calls fail, a refund request leaves the database as it was, or adds one
  -- audit row for a rejected refund, or makes the whole change of a refund: the last only for a
  -- paid manual order that has no refund and no refund entry yet, whose amount the wallet covers,
  -- under a new refund id.
  pub refund_payment-effect :
      let (r, d') = transact (refund_payment actor rid entry now id text) faults d in
      (d' ≡ d) ⊎ ((d' ≡ rejected actor id d) ⊎ Refunds actor rid entry now id text d d')
  refund_payment-effect = elim (Option-cases (find_order id d)) [
    | inl missing ↦ inl (refund_payment-no_order missing)
    | inr (o, found) ↦ elim (Option-cases (find_wallet o.user d)) [
      | inl missing ↦ elim (refund_payment-no_wallet o found missing) [
        | inl same ↦ inl same
        | inr turned_down ↦ inr (inl turned_down)
      ]
      | inr (w, funded) ↦ elim (refund_payment-cases o w found funded) [
        | inl same ↦ inl same
        | inr (inl turned_down) ↦ inr (inl turned_down)
        | inr (inr (p, m, c, n, f, z, r)) ↦ inr (
            inr (record {
              order = o;
              wallet = w;
              found = found;
              was_paid = p;
              by_hand = m;
              funded = funded;
              covered = c;
              new_id = n;
              first = f;
              fresh = z;
              result = r;
            }))
      ]
    ]
  ]
