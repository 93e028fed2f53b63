-- ===== src/Payments/Create.antt =====
-- `createPaymentOrder` of internal/httpapi/payment_features.go: a user asks to top up a wallet, once for
-- each idempotency key. net/url's parsing and the decryption of the stored secret are parameters; of
-- the checkout link the reply says only whether there is one.
use Prim.Native.String.{String}
use text.Mathlib.Text.{◌==◌ as str_eq}
use cloudmeter.Common.{
  ℕ, Bool, true, false, ◌&&◌, ◌||◌, not, Option, none, some, List, [], ◌∷◌, if◌then◌else◌,
}
use cloudmeter.Common.Int.{ℤ, pos, leb_ℤ, ltb_ℤ}
use cloudmeter.Common.Text.{trim_space, is_empty}
use cloudmeter.Common.Tx.{
  ◌>>=◌, ◌>>◌, answer, reject_if, begin, query, query_row, try_query, exec, commit, go,
}
use cloudmeter.Domain.{pending}
use cloudmeter.Payments.{
  Order, Store, Reply, error, order_created, internal, Handler, Provider, manual, epay, other,
  EpayConfig, PaymentMethod, find_by_key, insert_order,
}
use cloudmeter.Payments.Adjust.{equal_ℤ}

pub record CreateRequest : Type 0 where
  pub amount : ℤ
  pub provider : String
  pub payment_type : String
  pub idempotency_key : String

-- The parts of a parsed URL that the program looks at.
pub record Url : Type 0 where
  pub scheme : String
  pub host : String

-- An empty provider is the manual one.
abbrev pub provider_name : String → String
provider_name text = let name = trim_space text in if is_empty name then "manual" else name

abbrev pub provider_of : String → Provider
provider_of name =
    if str_eq name "manual" then manual else if str_eq name "epay" then epay else other

abbrev find_config : String → List (String × Bool) → Option Bool
find_config name [] = none
find_config name ((n, on) ∷ l) = if str_eq n name then some on else find_config name l

abbrev config_enabled : Option EpayConfig → Option Bool
config_enabled none = none
config_enabled (some c) = some c.enabled

-- A missing row, or a read that fails, leaves `enabled` false.
abbrev is_on : Option Bool → Bool
is_on none = false
is_on (some on) = on

-- SELECT enabled FROM payment_provider_configs WHERE provider=$1.
abbrev pub is_enabled : String → Store → Bool
is_enabled name d =
    if str_eq name "epay"
    then is_on (config_enabled d.epay_config)
    else is_on (find_config name d.other_configs)

-- The first configured method, where the request names none.
abbrev pub requested_type : String → List PaymentMethod → String
requested_type text [] = trim_space text
requested_type text (m ∷ _) = let name = trim_space text in if is_empty name then m.type else name

-- The first enabled method of a type.
unfoldable pub find_method : String → List PaymentMethod → Option PaymentMethod
find_method type [] = none
find_method type (m ∷ l) = if m.enabled && str_eq m.type type then some m else find_method type l

abbrev provider_eq : Provider → Provider → Bool
provider_eq manual manual = true
provider_eq epay epay = true
provider_eq other other = true
provider_eq _ _ = false

abbrev pub new_order : ℕ → Provider → String → ℤ → String → Order
new_order user provider type amount key = record {
  user = user;
  provider = provider;
  amount = amount;
  status = pending;
  provider_ref = none;
  paid_at = none;
  closed_at = none;
  last_queried_at = none;
  payment_type = type;
  idempotency_key = key;
}

module _ (parse_url : String → Option Url) (decrypt : String → Option String) where
  -- `epayPurchaseEndpoint(endpoint)` succeeds.
  abbrev endpoint_is_valid : String → Bool
  endpoint_is_valid endpoint = elim (parse_url endpoint) [
    | none ↦ false
    | some u ↦ not (is_empty u.scheme || is_empty u.host)
  ]

  -- The payment type, the endpoint and the decrypted secret of an EPay order.
  epay_details : ℤ → String → Handler (String × String × String)
  epay_details amount text = do
    (c : EpayConfig) ← query_row internal internal (λ d. d.epay_config)
    elim (find_method (requested_type text c.payment_methods) c.payment_methods) [
      | none ↦ answer (error 400 "payment_method_unavailable")
      | some m ↦ (do
        reject_if (ltb_ℤ amount m.min_amount) (error 400 "minimum_topup")
        reject_if (is_empty c.endpoint || is_empty c.secret) (error 503 "payment_provider_pending")
        elim (decrypt c.secret) [
          | none ↦ answer internal
          | some secret ↦ go (requested_type text c.payment_methods, c.endpoint, secret)
        ])
    ]

  -- The transaction, and the checkout link.
  place_order : (user id : ℕ) → Provider → String → String → String → ℤ → String → Handler Reply
  place_order user id provider type endpoint secret amount key = do
    begin internal
    existing ← query internal (λ d. find_by_key user key d.orders)
    elim existing [
      | some (oid, o) ↦ (do
        reject_if
            (not (provider_eq o.provider provider)
              || not (str_eq o.payment_type type)
              || not (equal_ℤ o.amount amount))
            (error 409 "idempotency_conflict")
        commit internal
        answer (
            order_created oid o.status o.amount
              (provider_eq o.provider epay
                && not (is_empty endpoint)
                && not (is_empty secret)
                && endpoint_is_valid endpoint)
              true))
      | none ↦ (do
        exec internal (insert_order id (new_order user provider type amount key))
        commit internal
        reject_if (provider_eq provider epay && not (endpoint_is_valid endpoint))
            (error 503 "payment_provider_pending")
        answer (order_created id pending amount (provider_eq provider epay) false))
    ]

  unfoldable pub create_payment_order : (user id : ℕ) → CreateRequest → Handler Reply
  unfolding epay_details place_order insert_order
  create_payment_order user id q = do
    let name = provider_name q.provider
    let key = trim_space q.idempotency_key
    reject_if (leb_ℤ q.amount (pos 0) || ltb_ℤ (pos 100000000) q.amount || is_empty key)
        (error 400 "validation_failed")
    on ← try_query (is_enabled name)
    reject_if (not (is_on on)) (error 503 "payment_provider_unavailable")
    elim (provider_of name) [
      | other ↦ answer (error 400 "validation_failed")
      | manual ↦ place_order user id manual "" "" "" q.amount key
      | epay ↦ (do
        (type, endpoint, secret) ← epay_details q.amount q.payment_type
        place_order user id epay type endpoint secret q.amount key)
    ]
