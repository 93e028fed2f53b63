-- ===== src/Payments/Refunds.antt =====
-- `refundPayment` of internal/httpapi/payment_features.go: an administrator refunds an order whole.
use Prim.Native.String.{String, count}
use cloudmeter.Common.{ℕ, ltb, Bool, not, true, false, Option, none, some, if◌then◌else◌}
use cloudmeter.Common.Int.{pos, sub64, ◌-ℤ◌, ltb_ℤ}
use cloudmeter.Common.Text.{trim_space, is_empty}
use cloudmeter.Common.Tx.{
  ◌>>=◌, ◌>>◌, answer, reject_if, choose, begin, query_row, exec, write, commit,
}
use cloudmeter.Domain.{paid, refunding, refunded, RefundState, processing}
use cloudmeter.Money.{Entry, refund, Wallet, insert_entry, set_balance}
use cloudmeter.Payments.{
  Order, Refund, Store, Reply, error, order_refunded, internal, Handler, is_paid, is_refunding,
  is_refunded, supports_immediate_refund, find_order, find_wallet, set_order, set_status, log_order,
  log_audit, on_money, find_refund, insert_refund, set_refund, log_refund,
}

-- `refundReasonTooLong` counts characters.
unfoldable pub refund_reason_too_long : String → Bool
refund_reason_too_long reason = ltb 500 (count reason)

-- The reason as it is recorded.
unfoldable pub refund_reason : String → String
unfolding trim_space
refund_reason text =
    let reason = trim_space text in if is_empty reason then "administrator full refund" else reason

-- The row of a finished refund with the wallet of its user.
abbrev pub refund_row : ℕ → Store → Option (ℕ × Refund × Wallet)
refund_row id d = elim (find_refund id d.refunds) [
  | none ↦ none
  | some (rid, r) ↦ elim (find_wallet r.user d) [ none ↦ none | some w ↦ some (rid, r, w) ]
]

already_refunded : ℕ → Handler Reply
already_refunded id = do
  (rid, r, w) ← query_row internal internal (refund_row id)
  commit internal
  answer (order_refunded id w.balance rid r.status r.ledger_entry true)

-- A refund that is turned down leaves an audit row and nothing else.
reject_refund : (actor id : ℕ) → Reply → Handler Reply
reject_refund actor id reply = do
  write internal
      (log_audit (record { actor = actor; action = "payment.refund.rejected"; resource = id }))
  commit internal
  answer reply

abbrev pub debit_entry : ℕ → ℕ → Order → Wallet → Entry
debit_entry entry id o w = record {
  id = entry;
  wallet = o.user;
  ref = refund id;
  amount = pos 0 -ℤ o.amount;
  balance_after = sub64 w.balance o.amount;
}

abbrev pub new_refund : ℕ → Order → String → Refund
new_refund id o reason = record {
  order = id;
  user = o.user;
  provider = o.provider;
  amount = o.amount;
  status = processing;
  reason = reason;
  ledger_entry = none;
  completed_at = none;
}

-- From the first change of the order to the commit.
perform_refund : (actor rid entry now id : ℕ) → String → Order → Wallet → Handler Reply
perform_refund actor rid entry now id reason o w = do
  write internal (set_order id (set_status refunding))
  write internal
      (log_order (record { order = id; from = paid; to = refunding; message = "refund initiated" }))
  exec internal (insert_refund rid (new_refund id o reason))
  write internal (
      log_refund
        (record { refund = rid; from = none; to = processing; message = "refund requested" }))
  exec internal (on_money (insert_entry (debit_entry entry id o w)))
  write internal (λ d. record d { money = set_balance o.user (sub64 w.balance o.amount) d.money })
  write internal (
      set_refund rid (λ r. record r {
        status = RefundState.succeeded;
        ledger_entry = some entry;
        completed_at = some now;
      }))
  write internal (
      log_refund (record {
        refund = rid;
        from = some processing;
        to = RefundState.succeeded;
        message = "refund completed";
      }))
  write internal (set_order id (set_status refunded))
  write internal (
      log_order
        (record { order = id; from = refunding; to = refunded; message = "refund completed" }))
  write internal (log_audit (record { actor = actor; action = "payment.refund"; resource = rid }))
  commit internal
  answer (order_refunded id (sub64 w.balance o.amount) rid RefundState.succeeded (some entry) false)

-- A paid order: the provider and the wallet are looked at first.
refund_paid : (actor rid entry now id : ℕ) → String → Order → Handler Reply
unfolding reject_refund perform_refund
refund_paid actor rid entry now id reason o =
    choose (not (supports_immediate_refund o.provider))
      (reject_refund actor id (error 503 "payment_provider_refund_unconfigured"))
      (do
        w ← query_row internal internal (find_wallet o.user)
        choose (ltb_ℤ w.balance o.amount)
            (reject_refund actor id (error 409 "insufficient_balance"))
            (perform_refund actor rid entry now id reason o w))

unfoldable pub refund_payment : (actor rid entry now id : ℕ) → String → Handler Reply
unfolding already_refunded refund_paid insert_entry set_balance sub64
refund_payment actor rid entry now id text = do
  reject_if (refund_reason_too_long (refund_reason text)) (error 400 "validation_failed")
  begin internal
  o ← query_row internal (error 404 "order_not_found") (find_order id)
  choose (is_refunded o.status) (already_refunded id) (do
    reject_if (is_refunding o.status) (error 409 "refund_in_progress")
    reject_if (not (is_paid o.status)) (error 409 "order_not_refundable")
    refund_paid actor rid entry now id (refund_reason text) o)
