-- ===== src/Payments.antt =====
-- Payment orders, refunds and their event logs (tables payment_orders, payment_order_events, refunds,
-- refund_events and audit_logs), and the statements on them of internal/httpapi/payment_features.go,
-- payment_operations.go, epay_callback.go and server.go. Ids and times are numbers: the program only
-- compares them. Metadata columns that no statement reads back are left out.
pub mod Refunds
pub mod Topups
pub mod Create
pub mod Adjust
pub mod Operations
pub mod Callback
pub mod Amount
pub mod Methods
pub mod Effects
mod Tests
pub mod Sound
pub mod System
pub mod Complete
use Prim.Native.String.{String}
use text.Mathlib.Text.{◌==◌ as str_eq}
use cloudmeter.Common.{
  ℕ, Bool, true, false, ◌&&◌, ◌||◌, not, Option, none, some, List, [], ◌∷◌, ◌==◌, if◌then◌else◌,
  lookup, update,
}
use cloudmeter.Common.Int.{ℤ, pos, leb_ℤ}
use cloudmeter.Common.Tx.{Tx}
use cloudmeter.Domain.{OrderState, RefundState, processing, pending}
use cloudmeter.Money.{Money, Wallet, is_some}

-- The configured providers; any other text is `other`.
pub data Provider : Type 0 where
  manual epay other : Provider

pub record Order : Type 0 where
  pub user : ℕ
  pub provider : Provider
  pub amount : ℤ
  pub status : OrderState
  pub provider_ref : Option String
  pub paid_at : Option ℕ
  pub closed_at : Option ℕ
  pub last_queried_at : Option ℕ
  pub payment_type : String
  pub idempotency_key : String

pub record OrderEvent : Type 0 where
  pub order : ℕ
  pub from : OrderState
  pub to : OrderState
  pub message : String

pub record Refund : Type 0 where
  pub order : ℕ
  pub user : ℕ
  pub provider : Provider
  pub amount : ℤ
  pub status : RefundState
  pub reason : String
  pub ledger_entry : Option ℕ
  pub completed_at : Option ℕ

pub record RefundEvent : Type 0 where
  pub refund : ℕ
  pub from : Option RefundState
  pub to : RefundState
  pub message : String

pub record Audit : Type 0 where
  pub actor : ℕ
  pub action : String
  pub resource : ℕ

-- A row of payment_provider_operations.
pub record ProviderOperation : Type 0 where
  pub order : ℕ
  pub operation : String
  pub result : String

pub record PaymentMethod : Type 0 where
  pub name : String
  pub type : String
  pub enabled : Bool
  pub min_amount : ℤ

-- The row of payment_provider_configs for EPay.
pub record EpayConfig : Type 0 where
  pub enabled : Bool
  pub merchant : String
  pub endpoint : String
  pub secret : String  -- encrypted
  pub payment_methods : List PaymentMethod

pub record Store : Type 0 where
  pub epay_config : Option EpayConfig
  pub other_configs : List (String × Bool)  -- the other providers, and whether they are enabled
  pub money : Money
  pub orders : List (ℕ × Order)
  pub order_events : List OrderEvent
  pub refunds : List (ℕ × Refund)
  pub refund_events : List RefundEvent
  pub operations : List ProviderOperation
  pub audits : List Audit

-- The answers of the handlers: a status and a code of an error, or the body of a success.
pub data Reply : Type 0 where
  error : ℕ → String → Reply
  order_created : (order : ℕ) → OrderState → ℤ → (checkout : Bool) → (idempotent : Bool) → Reply
  order_paid : (order : ℕ) → ℤ → (idempotent : Bool) → Reply
  order_refunded :
      (order : ℕ) → ℤ → (refund : ℕ) → RefundState → Option ℕ → (idempotent : Bool) → Reply
  wallet_adjusted : (entry : ℕ) → ℤ → (version : ℕ) → (idempotent : Bool) → Reply
  operated : (order : ℕ) → OrderState → OrderState → Reply
  callback_success : Reply

abbrev pub internal : Reply
internal = error 500 "internal_error"

abbrev pub Handler : Type 0 → Type 0
Handler A = Tx Store Reply A

abbrev pub is_pending : OrderState → Bool
is_pending OrderState.pending = true
is_pending _ = false

abbrev pub is_paid : OrderState → Bool
is_paid OrderState.paid = true
is_paid _ = false

abbrev pub is_closed : OrderState → Bool
is_closed OrderState.closed = true
is_closed _ = false

abbrev pub is_refunding : OrderState → Bool
is_refunding OrderState.refunding = true
is_refunding _ = false

abbrev pub is_refunded : OrderState → Bool
is_refunded OrderState.refunded = true
is_refunded _ = false

-- `supportsImmediateRefund`.
abbrev pub supports_immediate_refund : Provider → Bool
supports_immediate_refund manual = true
supports_immediate_refund _ = false

abbrev pub find_order : ℕ → Store → Option Order
find_order id d = lookup id d.orders

abbrev pub find_wallet : ℕ → Store → Option Wallet
find_wallet user d = lookup user d.money.wallets

abbrev same_key : ℕ → String → Order → Bool
same_key user key o = user == o.user && str_eq key o.idempotency_key

-- The order of a user under an idempotency key, with its id.
unfoldable pub find_by_key : ℕ → String → List (ℕ × Order) → Option (ℕ × Order)
find_by_key user key [] = none
find_by_key user key ((id, o) ∷ l) =
    if same_key user key o then some (id, o) else find_by_key user key l

-- INSERT INTO payment_orders: the id is new, a user has one order under a key, and the amount is
-- more than 0.
unfoldable pub insert_order : ℕ → Order → Store → Option Store
unfolding find_by_key
insert_order id o d =
    if is_some (lookup id d.orders)
      || is_some (find_by_key o.user o.idempotency_key d.orders)
      || leb_ℤ o.amount (pos 0)
    then none
    else some (record d { orders = (id, o) ∷ d.orders })

-- UPDATE payment_orders … WHERE id=$1.
abbrev pub set_order : ℕ → (Order → Order) → Store → Store
set_order id f d = record d { orders = update id f d.orders }

abbrev pub set_status : OrderState → Order → Order
set_status s o = record o { status = s }

abbrev pub log_order : OrderEvent → Store → Store
log_order e d = record d { order_events = e ∷ d.order_events }

abbrev pub log_audit : Audit → Store → Store
log_audit a d = record d { audits = a ∷ d.audits }

abbrev pub on_money : (Money → Option Money) → Store → Option Store
on_money f d = elim (f d.money) [ none ↦ none | some m ↦ some (record d { money = m }) ]

-- The refund of an order, with its id.
unfoldable pub find_refund : ℕ → List (ℕ × Refund) → Option (ℕ × Refund)
find_refund o [] = none
find_refund o ((id, r) ∷ l) = if o == r.order then some (id, r) else find_refund o l

-- INSERT INTO refunds: the id is new, and an order has at most one.
abbrev pub insert_refund : ℕ → Refund → Store → Option Store
insert_refund id r d =
    if is_some (lookup id d.refunds) || is_some (find_refund r.order d.refunds)
    then none
    else some (record d { refunds = (id, r) ∷ d.refunds })

abbrev pub set_refund : ℕ → (Refund → Refund) → Store → Store
set_refund id f d = record d { refunds = update id f d.refunds }

abbrev pub log_refund : RefundEvent → Store → Store
log_refund e d = record d { refund_events = e ∷ d.refund_events }
