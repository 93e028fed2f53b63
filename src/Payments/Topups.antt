-- ===== src/Payments/Topups.antt =====
-- `markPaymentPaid` of internal/httpapi/payment_features.go: an administrator confirms an order.
use cloudmeter.Common.{ℕ, not, true, false, some}
use cloudmeter.Common.Int.{add64}
use cloudmeter.Common.Tx.{
  ◌>>=◌, ◌>>◌, answer, reject_if, choose, begin, query_row, exec, write, commit,
}
use cloudmeter.Domain.{paid, pending}
use cloudmeter.Money.{Entry, topup, Wallet, insert_entry, add_balance}
use cloudmeter.Payments.{
  Order, Reply, error, order_paid, internal, Handler, is_pending, is_paid, find_order, find_wallet,
  set_order, log_order, log_audit, on_money,
}

-- An order that is paid already is answered from the wallet's balance.
already_paid : ℕ → Order → Handler Reply
already_paid id o = do
  w ← query_row internal internal (find_wallet o.user)
  commit internal
  answer (order_paid id w.balance true)

-- The reference is the order that the database reads the id as: the spelling of the id in the request is
-- not kept.
abbrev pub credit_entry : ℕ → ℕ → Order → Wallet → Entry
credit_entry entry id o w = record {
  id = entry;
  wallet = o.user;
  ref = topup id;
  amount = o.amount;
  balance_after = add64 w.balance o.amount;
}

-- A pending order is paid: the entry, the balance, the order, its event and the audit row.
credit_order : (actor entry now id : ℕ) → Order → Handler Reply
credit_order actor entry now id o = do
  w ← query_row internal internal (find_wallet o.user)
  exec internal (on_money (insert_entry (credit_entry entry id o w)))
  exec internal (on_money (add_balance o.user o.amount))
  write internal (set_order id (λ o. record o { status = paid; paid_at = some now }))
  write internal (
      log_order
        (record { order = id; from = pending; to = paid; message = "manual payment verified" }))
  write internal (log_audit (record { actor = actor; action = "payment.mark_paid"; resource = id }))
  commit internal
  answer (order_paid id (add64 w.balance o.amount) false)

unfoldable pub mark_payment_paid : (actor entry now id : ℕ) → Handler Reply
unfolding already_paid credit_order insert_entry add_balance add64
mark_payment_paid actor entry now id = do
  begin internal
  o ← query_row internal (error 404 "order_not_found") (find_order id)
  choose (is_paid o.status) (already_paid id o) (do
    reject_if (not (is_pending o.status)) (error 409 "order_not_pending")
    credit_order actor entry now id o)
