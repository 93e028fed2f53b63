-- ===== src/Payments/Callback.antt =====
-- `epayCallback` and `epaySignature` of internal/httpapi/epay_callback.go: EPay reports a paid order.
-- The MD5 digest in hexadecimal, the decryption of the stored secret and the database's reading of a
-- text as a UUID are parameters.
use Prim.Native.Char.{code}
use Prim.Native.String
use Prim.Native.String.{String, [], ◌∷◌, compare}
use Prim.Native.Nat.{Ordering}
use text.Mathlib.Text.{◌==◌ as str_eq}
use cloudmeter.Common.{
  ℕ, ◌+◌, leb, Bool, true, false, ◌&&◌, ◌||◌, not, Option, none, some, List, ◌==◌, if◌then◌else◌,
}
use cloudmeter.Common.Int.{ℤ, pos, add64, leb_ℤ}
use cloudmeter.Common.Text.{trim_space, is_empty}
use cloudmeter.Common.Tx.{
  ◌>>=◌, ◌>>◌, answer, reject_if, choose, begin, query, query_row, exec, write, commit,
}
use cloudmeter.Domain.{paid, pending}
use cloudmeter.Money.{insert_entry, add_balance}
use cloudmeter.Payments.{
  Order, Store, Reply, error, callback_success, internal, Handler, Provider, epay, EpayConfig,
  is_pending, is_paid, find_order, find_wallet, set_order, log_order, on_money,
}
use cloudmeter.Payments.Adjust.{equal_ℤ}
use cloudmeter.Payments.Amount.{parse_amount_cents}
use cloudmeter.Payments.Topups.{credit_entry}

-- The form's fields, the first value of each.
abbrev pub Form : Type 0
Form = List (String × String)

-- `values[key]`, empty if the key is missing.
unfoldable pub field : String → Form → String
field k List.[] = ""
field k (List.◌∷◌ (j, v) m) = if str_eq j k then v else field k m

-- A letter of ASCII in lower case.
abbrev pub lower_code : ℕ → ℕ
lower_code c = if leb b'A' c && leb c b'Z' then c + 32 else c

-- Whether the first text, in lower case, is the second.
unfoldable pub equals_lowered : String → String → Bool
equals_lowered [] [] = true
equals_lowered (c ∷ s) (d ∷ t) = lower_code (code c) == code d && equals_lowered s t
equals_lowered _ _ = false

-- sort.Strings, by insertion of each key with its value.
insert_key : String × String → Form → Form
insert_key (k, v) List.[] = List.◌∷◌ (k, v) List.[]
insert_key (k, v) (List.◌∷◌ (j, w) m) =
    let later = List.◌∷◌ (j, w) (insert_key (k, v) m) in
    elim (compare k j) [ Ordering.gt ↦ later | _ ↦ List.◌∷◌ (k, v) (List.◌∷◌ (j, w) m) ]

-- The fields that are signed, in the order of their keys.
signed_fields : Form → Form
unfolding insert_key
signed_fields List.[] = List.[]
signed_fields (List.◌∷◌ (k, v) m) =
    let rest = signed_fields m in
    if str_eq k "sign" || str_eq k "sign_type" || is_empty v then rest else insert_key (k, v) rest

-- strings.Join of the pairs `k=v` at `&`.
join_fields : Form → String
join_fields List.[] = ""
join_fields (List.◌∷◌ (k, v) List.[]) = String.◌++◌ k (String.◌++◌ "=" v)
join_fields (List.◌∷◌ (k, v) (List.◌∷◌ p m)) =
    String.◌++◌ k (String.◌++◌ "=" (String.◌++◌ v (String.◌++◌ "&" (join_fields (List.◌∷◌ p m)))))

abbrev pub is_epay : Provider → Bool
is_epay epay = true
is_epay _ = false

abbrev pub has_ref : String → Option String → Bool
has_ref t none = false
has_ref t (some r) = str_eq r t

-- Whether another EPay order has the reference.
unfoldable pub ref_taken : String → ℕ → List (ℕ × Order) → Bool
ref_taken t id List.[] = false
ref_taken t id (List.◌∷◌ (j, o) l) =
    is_epay o.provider && has_ref t o.provider_ref && not (j == id) || ref_taken t id l

-- SELECT … WHERE id=$1 AND provider='epay'.
abbrev pub find_epay_order : ℕ → Store → Option Order
find_epay_order id d = elim (find_order id d) [
  | none ↦ none
  | some o ↦ if is_epay o.provider then some o else none
]

unfoldable pub epay_signature : (md5_hex : String → String) → Form → String → String
unfolding signed_fields join_fields
epay_signature md5_hex values secret =
    md5_hex (String.◌++◌ (join_fields (signed_fields values)) secret)

-- A pending order is paid: the entry, the balance, the order and its event.
settle_order : (entry now id : ℕ) → (trade : String) → Order → Handler Reply
settle_order entry now id trade o = do
  w ← query_row internal internal (find_wallet o.user)
  exec internal (on_money (insert_entry (credit_entry entry id o w)))
  exec internal (on_money (add_balance o.user o.amount))
  write internal (
      set_order id (λ o. record o { status = paid; paid_at = some now; provider_ref = some trade }))
  write internal (
      log_order
        (record { order = id; from = pending; to = paid; message = "EPay callback verified" }))
  commit internal
  answer callback_success

-- The transaction of a callback whose signature and amount are good.
unfoldable pub settle : (entry now : ℕ) → (id : ℕ) → (trade : String) → ℤ → Handler Reply
unfolding settle_order insert_entry add_balance add64
settle entry now id trade amount = do
  begin internal
  o ← query_row internal (error 404 "order_not_found") (find_epay_order id)
  reject_if (not (equal_ℤ o.amount amount)) (error 400 "amount_mismatch")
  taken ← query internal (λ d. ref_taken trade id d.orders)
  reject_if taken (error 409 "provider_reference_reused")
  choose (is_paid o.status) (answer callback_success) (do
    reject_if (not (is_pending o.status)) (error 409 "order_not_pending")
    settle_order entry now id trade o)

module _ (md5_hex : String → String) (decrypt : String → Option String)
    (uuid_of : String → Option ℕ) where
  -- From the stored configuration on.
  unfoldable pub verify : (entry now : ℕ) → Form → EpayConfig → Handler Reply
  verify entry now values c = do
    reject_if
        (not c.enabled
          || is_empty c.secret
          || is_empty c.merchant
          || not (str_eq (trim_space (field "pid" values)) c.merchant))
        (error 403 "callback_rejected")
    elim (decrypt c.secret) [
      | none ↦ answer internal
      | some secret ↦ (do
        reject_if
            (not (
              equals_lowered (trim_space (field "sign" values))
                (epay_signature md5_hex values secret)))
            (error 403 "invalid_signature")
        elim (parse_amount_cents (trim_space (field "money" values))) [
          | none ↦ answer (error 400 "invalid_amount")
          | some amount ↦ (do
            reject_if (leb_ℤ amount (pos 0)) (error 400 "invalid_amount")
            elim (uuid_of (trim_space (field "out_trade_no" values))) [
              | none ↦ begin internal >> answer internal
              | some id ↦ settle entry now id (trim_space (field "trade_no" values)) amount
            ])
        ])
    ]

  abbrev pub succeeded_trade : String → Bool
  succeeded_trade status = str_eq status "TRADE_SUCCESS" || str_eq status "SUCCESS"

  unfoldable pub epay_callback : (entry now : ℕ) → Form → Handler Reply
  epay_callback entry now values = do
    reject_if
        (is_empty (trim_space (field "sign" values))
          || is_empty (trim_space (field "out_trade_no" values))
          || is_empty (trim_space (field "money" values))
          || is_empty (trim_space (field "trade_status" values))
          || is_empty (trim_space (field "trade_no" values)))
        (error 400 "invalid_callback")
    reject_if (not (equals_lowered (trim_space (field "sign_type" values)) "md5"))
        (error 400 "unsupported_signature_type")
    reject_if (not (succeeded_trade (trim_space (field "trade_status" values))))
        (error 409 "payment_not_succeeded")
    c ← query_row internal internal (λ d. d.epay_config)
    verify entry now values c
