-- ===== src/Payments/Operations.antt =====
-- `paymentOperation` and `recordPaymentOperation` of internal/httpapi/payment_operations.go, with the
-- providers of payment_provider.go: an administrator asks a provider for an order's state, or has it
-- closed. The first record of the request is a transaction of its own.
use Prim.Native.String.{String}
use cloudmeter.Common.{ℕ, Bool, ◌&&◌, not, true, false, Option, none, some, ◌∷◌, if◌then◌else◌}
use cloudmeter.Common.Text.{is_empty}
use cloudmeter.Common.Tx.{
  ◌>>=◌, ◌>>◌, answer, choose, begin, query_row, try_query, write, write_now, commit, go,
}
use cloudmeter.Domain.{OrderState, pending, closed}
use cloudmeter.Money.{is_some}
use cloudmeter.Payments.{
  Order, Store, Reply, error, operated, internal, Handler, Provider, manual, epay, other,
  EpayConfig, is_pending, is_closed, find_order, set_order, log_order, log_audit,
}

pub data Operation : Type 0 where
  ask close : Operation

abbrev pub is_close : Operation → Bool
is_close close = true
is_close ask = false

abbrev pub operation_name : Operation → String
operation_name ask = "query"
operation_name close = "close"

abbrev pub audit_action : Operation → String
audit_action ask = "payment.provider.query"
audit_action close = "payment.provider.close"

abbrev pub is_manual : Provider → Bool
is_manual manual = true
is_manual _ = false

-- What a provider says: the provider's status of the order, or an error; `unconfigured` is
-- errProviderOperationUnconfigured.
pub data Said : Type 0 where
  status : OrderState → Said
  unconfigured refused : Said

-- `manualPaymentProvider.ClosePayment`.
unfoldable pub manual_close : OrderState → Said
manual_close OrderState.closed = status closed
manual_close OrderState.pending = status closed
manual_close _ = refused

-- `QueryPayment` and `ClosePayment` of the two providers.
unfoldable pub ask_provider : Operation → Order → Said
unfolding manual_close
ask_provider ask o = if is_manual o.provider then status o.status else unconfigured
ask_provider close o = if is_manual o.provider then manual_close o.status else unconfigured

abbrev pub recorded : (actor id : ℕ) → Operation → String → Store → Store
recorded actor id op result d = record d {
  operations = record { order = id; operation = operation_name op; result = result } ∷ d.operations;
  audits = record { actor = actor; action = audit_action op; resource = id } ∷ d.audits;
}

-- `recordPaymentOperation`.
record_operation : (actor id : ℕ) → Operation → String → Handler (Unit {0})
record_operation actor id op result = do
  begin internal
  write internal (λ d. record d {
    operations =
        record { order = id; operation = operation_name op; result = result } ∷ d.operations;
  })
  write internal (log_audit (record { actor = actor; action = audit_action op; resource = id }))
  commit internal

-- A provider's error is recorded and answered.
fail_operation : (actor id : ℕ) → Operation → String → Reply → Handler (Unit {0})
unfolding record_operation
fail_operation actor id op result reply = do record_operation actor id op result; answer reply

-- The second transaction of a close: a pending order becomes closed.
close_order : (actor now id : ℕ) → Handler (Unit {0})
close_order actor now id = do
  begin internal
  current ← query_row internal internal (find_order id)
  choose (is_pending current.status)
      (do
        write internal (set_order id (λ o. record o { status = closed; closed_at = some now }))
        write internal (
            log_order
              (record { order = id; from = pending; to = closed; message = "manual order closed" }))
        write internal
            (log_audit (record { actor = actor; action = "payment.order.close"; resource = id })))
      (go tt)
  commit internal

module _ (decrypt : String → Option String) where
  abbrev pub epay_ready : Option EpayConfig → Bool
  epay_ready none = false
  epay_ready (some c) =
      c.enabled
      && not (is_empty c.merchant)
      && not (is_empty c.endpoint)
      && not (is_empty c.secret)
      && is_some (decrypt c.secret)

  -- `paymentProvider`: the providers that can be used.
  find_provider : Provider → Handler Bool
  find_provider manual = go true
  find_provider other = go false
  find_provider epay = do
    config ← try_query (λ d. d.epay_config)
    elim config [ none ↦ go false | some c ↦ go (epay_ready c) ]

  -- What follows once a provider has answered.
  take_answer : (actor now id : ℕ) → Operation → Order → Said → Handler Reply
  unfolding fail_operation record_operation close_order
  take_answer actor now id op o refused = do
    fail_operation actor id op "failed" (error 502 "payment_provider_operation_failed")
    answer internal
  take_answer actor now id op o unconfigured = do
    fail_operation actor id op "unconfigured" (error 503 "payment_provider_operation_failed")
    answer internal
  take_answer actor now id ask o (status s) = do
    record_operation actor id ask "succeeded"
    write_now (set_order id (λ o. record o { last_queried_at = some now }))
    answer (operated id o.status s)
  take_answer actor now id close o (status s) = do
    record_operation actor id close "succeeded"
    choose (is_closed s) (do close_order actor now id; answer (operated id closed s))
        (answer (operated id o.status s))

  unfoldable pub payment_operation : (actor now id : ℕ) → Operation → Handler Reply
  unfolding find_provider take_answer ask_provider fail_operation
  payment_operation actor now id op = do
    o ← query_row internal (error 404 "order_not_found") (find_order id)
    ready ← find_provider o.provider
    choose ready (take_answer actor now id op o (ask_provider op o)) (do
      fail_operation actor id op "unconfigured"
          (error 503 "payment_provider_operation_unconfigured")
      answer internal)
