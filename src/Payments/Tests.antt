-- ===== src/Payments/Tests.antt =====
-- The money requests on a small store, and the results at concrete requests.
use cloudmeter.Common.{
  ◌≤◌, ◌↔◌, ℕ, ◌≡◌, ◌⊎◌, refl, true, false, none, some, List, [], ◌∷◌, arith, lookup, All,
}
use cloudmeter.Common.Int.{negsuc, add64, ℤ, pos, ◌+ℤ◌, ◌-ℤ◌}
use cloudmeter.Common.Text.{trim_space, trim_left, trim_right, is_space}
use cloudmeter.Common.Tx.{transact}
use cloudmeter.Domain.{OrderState, pending, paid, refunded, RefundState}
use cloudmeter.Money.{insert_entry, set_balance, Entry, adjustment, Wallet, topup, find_entry}
use cloudmeter.Payments.{
  error, wallet_adjusted, Provider, manual, epay, Order, Refund, Store, PaymentMethod, EpayConfig,
  order_paid, find_order, find_refund,
}
use cloudmeter.Payments.Amount.{parse_amount_cents, cents_amount_text, parsing}
use cloudmeter.Payments.Amount.RoundTrip.{parse_amount_cents-cents_amount_text}
use cloudmeter.Payments.Adjust.{adjust_wallet, set_balance_if}
use cloudmeter.Payments.Adjust.Repeat.{adjust_wallet-again}
use cloudmeter.Payments.Callback.{Form, epay_callback}
use cloudmeter.Payments.Complete.{no_faults, mark_payment_paid-pays, confirm_then_refund}
use cloudmeter.Payments.Create.{CreateRequest, create_payment_order}
use cloudmeter.Payments.Effects.Adjust.{adjusted, Adjusts, adjust_wallet-effect}
use cloudmeter.Payments.Effects.Callback.{Verified, epay_callback-effect}
use cloudmeter.Payments.Effects.Create.{Creates, create_payment_order-effect}
use cloudmeter.Payments.Effects.Operation.{Operates, payment_operation-effect}
use cloudmeter.Payments.Effects.Refund.{Refunds, rejected, refund_payment-effect}
use cloudmeter.Payments.Effects.Topup.{Credits, credited, mark_payment_paid-effect}
use cloudmeter.Payments.Methods.{accepted, validated_payment_methods, trim_all}
use cloudmeter.Payments.Methods.Valid.{IsMethod, types_of, validated_payment_methods_lem}
use cloudmeter.Runtime.Value.{Distinct}
use cloudmeter.Payments.Operations.{payment_operation, close}
use cloudmeter.Payments.Refunds.{refund_payment, refund_reason_too_long, refund_reason}
use cloudmeter.Payments.Sound.{IsSound}
use cloudmeter.Payments.System.{Outside, after, mark_paid, here, next}
use cloudmeter.Payments.System.Orders.{Follows, serve-OrderPath}
use cloudmeter.Payments.System.Sound.{Reach-IsSound}
use cloudmeter.Payments.Topups.{mark_payment_paid}

abbrev order : Provider → OrderState → Order
order provider status = record {
  user = 1;
  provider = provider;
  amount = pos 500;
  status = status;
  provider_ref = none;
  paid_at = none;
  closed_at = none;
  last_queried_at = none;
  payment_type = "";
  idempotency_key = "k";
}

abbrev wallet : ℤ → Wallet
wallet balance = record { balance = balance; version = 0 }

abbrev config : EpayConfig
config = record {
  enabled = true;
  merchant = "m";
  endpoint = "https://pay.example";
  secret = "s";
  payment_methods = [];
}

abbrev store_of : ℤ → Order → List (ℕ × Refund) → Store
store_of balance o refunds = record {
  epay_config = some config;
  other_configs = ("manual", true) ∷ [];
  money = record { wallets = (1, wallet balance) ∷ []; ledger = [] };
  orders = (7, o) ∷ [];
  order_events = [];
  refunds = refunds;
  refund_events = [];
  operations = [];
  audits = [];
}

-- One pending order, and an empty wallet.
abbrev fresh : Store
fresh = store_of (pos 0) (order manual pending) []

fresh-IsSound : IsSound fresh
unfolding find_entry find_refund
fresh-IsSound = record {
  books = record { agrees = λ u w got. ground (arith, got) };
  unbooked = λ id missing. ground (arith, missing);
  orders = λ id o got. ground (arith, got);
}

-- The order is paid: 5.00 of the wallet come from its top-up.
abbrev paid_store : Store
paid_store = record (store_of (pos 500) (order manual paid) []) {
  money = record {
    wallets = (1, wallet (pos 500)) ∷ [];
    ledger =
        record { id = 20; wallet = 1; ref = topup 7; amount = pos 500; balance_after = pos 500 }
        ∷ [];
  };
}

paid_store-IsSound : IsSound paid_store
unfolding find_entry find_refund ◌+ℤ◌
paid_store-IsSound = record {
  books = record { agrees = λ u w got. ground (arith, got) };
  unbooked = λ id missing. ground (arith, missing);
  orders = λ id o got. ground (arith, got);
}

abbrev past_refund : Refund
past_refund = record {
  order = 7;
  user = 1;
  provider = manual;
  amount = pos 500;
  status = RefundState.succeeded;
  reason = "late";
  ledger_entry = some 21;
  completed_at = some 90;
}

abbrev refunded_before : Store
refunded_before = store_of (pos 0) (order manual refunded) ((30, past_refund) ∷ [])

abbrev outside : Outside
outside = record {
  md5_hex = λ _. "0";
  decrypt = λ s. some s;
  uuid_of = λ _. some 7;
  parse_url = λ _. none;
}

abbrev form : Form
form =
    ("sign", "0")
    ∷ ("sign_type", "MD5")
    ∷ ("out_trade_no", "7")
    ∷ ("money", "5.00")
    ∷ ("trade_status", "TRADE_SUCCESS")
    ∷ ("trade_no", "t1")
    ∷ ("pid", "m")
    ∷ []

-- A signed fraction is read as a number of cents: "1.+5" is 105.
signed_fraction : parse_amount_cents "1.+5" ≡ some (pos 105)
unfolding parsing ◌-ℤ◌
signed_fraction = refl

Reach-IsSound_example : IsSound (after outside (mark_paid 9 20 100 7) no_faults fresh)
Reach-IsSound_example =
    Reach-IsSound outside fresh-IsSound (next here (mark_paid 9 20 100 7) no_faults)

serve-OrderPath_example :
    (o : Order) × (find_order 7 (after outside (mark_paid 9 20 100 7) no_faults fresh) ≡ some o)
    × Follows (order manual pending) o
serve-OrderPath_example =
    serve-OrderPath outside (mark_paid 9 20 100 7) no_faults fresh 7 (order manual pending) refl

epay_callback-effect_example :
    let d = store_of (pos 0) (order epay pending) [] in
    let d' =
      (transact (epay_callback (λ _. "0") (λ s. some s) (λ _. some 7) 20 100 form) no_faults d).1 in
    (d' ≡ d) ⊎ Verified (λ _. "0") (λ s. some s) (λ _. some 7) 20 100 form d d'
epay_callback-effect_example =
    epay_callback-effect (λ _. "0") (λ s. some s) (λ _. some 7) 20 100 form no_faults
      (store_of (pos 0) (order epay pending) [])

refund_payment-effect_example :
    let d' = (transact (refund_payment 9 30 21 100 7 "late") no_faults paid_store).1 in
    (d' ≡ paid_store)
    ⊎ ((d' ≡ rejected 9 7 paid_store) ⊎ Refunds 9 30 21 100 7 "late" paid_store d')
refund_payment-effect_example = refund_payment-effect 9 30 21 100 7 "late" no_faults paid_store

mark_payment_paid-effect_example :
    let d' = (transact (mark_payment_paid 9 20 100 7) no_faults fresh).1 in
    (d' ≡ fresh) ⊎ Credits 9 20 100 7 fresh d'
mark_payment_paid-effect_example = mark_payment_paid-effect 9 20 100 7 no_faults fresh

adjust_wallet-effect_example :
    let d' = (transact (adjust_wallet 9 22 1 (pos 300) "gift") no_faults fresh).1 in
    (d' ≡ fresh) ⊎ Adjusts 9 22 1 (pos 300) "gift" fresh d'
adjust_wallet-effect_example = adjust_wallet-effect 9 22 1 (pos 300) "gift" no_faults fresh

payment_operation-effect_example :
    Operates 9 100 7 close fresh
      (transact (payment_operation (λ s. some s) 9 100 7 close) no_faults fresh).1
payment_operation-effect_example =
    payment_operation-effect (λ s. some s) 9 100 7 no_faults fresh close

abbrev top_up : CreateRequest
top_up = record { amount = pos 500; provider = ""; payment_type = ""; idempotency_key = "k2" }

create_payment_order-effect_example :
    let d' =
      (transact (create_payment_order (λ _. none) (λ s. some s) 1 8 top_up) no_faults fresh).1 in
    (d' ≡ fresh) ⊎ Creates 1 8 top_up fresh d'
create_payment_order-effect_example =
    create_payment_order-effect (λ _. none) (λ s. some s) 1 8 top_up no_faults fresh

short_reason : refund_reason_too_long (refund_reason "late") ≡ false
unfolding refund_reason_too_long refund_reason
short_reason = refl

confirm_then_refund_example :
    let d1 = (transact (mark_payment_paid 9 20 100 7) no_faults fresh).1 in
    let d2 = (transact (refund_payment 9 30 21 110 7 "late") no_faults d1).1 in
    (v : Wallet) × (lookup 1 d2.money.wallets ≡ some v) × (v.balance ≡ pos 0)
unfolding ◌+ℤ◌
confirm_then_refund_example =
    confirm_then_refund 9 20 100 7 30 21 110 "late" fresh (order manual pending) (wallet (pos 0))
      fresh-IsSound refl refl refl refl refl refl short_reason

mark_payment_paid-pays_example : transact (mark_payment_paid 9 20 100 7) no_faults fresh ≡ (
  order_paid 7 (pos 0 +ℤ pos 500) false,
  credited 9 20 100 7 (order manual pending) (wallet (pos 0)) fresh,
)
unfolding ◌+ℤ◌
mark_payment_paid-pays_example =
    mark_payment_paid-pays 9 20 100 7 fresh (order manual pending) (wallet (pos 0)) fresh-IsSound
      refl refl refl refl

parse_amount_cents-cents_amount_text_example :
    parse_amount_cents (cents_amount_text 12345) ≡ some (pos 12345)
parse_amount_cents-cents_amount_text_example =
    parse_amount_cents-cents_amount_text 12345 (ground arith)

abbrev method : PaymentMethod
method = record { name = " Card "; type = "card"; enabled = true; min_amount = pos 100 }

abbrev stored_method : PaymentMethod
stored_method = record { name = "Card"; type = "card"; enabled = true; min_amount = pos 100 }

validated_payment_methods_lem_example :
    (validated_payment_methods (method ∷ []) ≡ accepted (stored_method ∷ [])) ↔ (
      (1 ≤ 1)
      × (1 ≤ 20)
      × (stored_method ∷ [] ≡ trim_all (method ∷ []))
      × All IsMethod (stored_method ∷ [])
      × Distinct (types_of (stored_method ∷ [])))
validated_payment_methods_lem_example =
    validated_payment_methods_lem (method ∷ []) (stored_method ∷ [])

-- A debit of 3.00 that was made, and left 2.00.
abbrev debit : Entry
debit = record {
  id = 22;
  wallet = 1;
  ref = adjustment "fee";
  amount = negsuc 299;
  balance_after = pos 200;
}

abbrev before_debit : Store
before_debit = store_of (pos 500) (order manual pending) []

abbrev after_debit : Store
after_debit = adjusted 9 22 1 (negsuc 299) "fee" (wallet (pos 500)) before_debit

debit_runs :
    transact (adjust_wallet 9 22 1 (negsuc 299) "fee") no_faults before_debit
    ≡ (wallet_adjusted 22 (pos 200) 1 false, after_debit)
unfolding adjust_wallet insert_entry set_balance_if set_balance add64 ◌+ℤ◌ find_entry trim_space
    trim_left trim_right is_space
debit_runs = refl

-- The debit is not covered twice.
adjust_wallet-again_example :
    ((transact (adjust_wallet 9 23 1 (negsuc 299) "fee") no_faults after_debit).1 ≡ after_debit)
    × ((transact (adjust_wallet 9 23 1 (negsuc 299) "fee") no_faults after_debit).0
        ≡ error 409 "insufficient_balance")
unfolding add64 ◌+ℤ◌
adjust_wallet-again_example =
    adjust_wallet-again 9 22 9 23 1 (negsuc 299) "fee" no_faults before_debit 22 (pos 200) 1
      after_debit debit_runs no_faults
