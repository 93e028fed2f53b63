-- ===== src/Payments/Effects/Callback.antt =====
-- The effect of `epay_callback`.
use Prim.Native.String.{String}
use cloudmeter.Common.{
  ℕ, ◌≡◌, ◌⊎◌, inl, inr, Bool, true, false, Option, none, some, ◌∷◌, arith, update, Option-cases,
}
use cloudmeter.Common.Int.{ℤ, pos, ◌+ℤ◌, in_int64, leb_ℤ, wrap64_lem}
use cloudmeter.Common.Text.{trim_space}
use cloudmeter.Common.Tx.{transact, Session, ended}
use cloudmeter.Domain.{paid, pending}
use cloudmeter.Money.{Wallet, topup, find_entry}
use cloudmeter.Money.Post.{posted}
use cloudmeter.Payments.{Order, Store, EpayConfig, epay, find_order, find_wallet}
use cloudmeter.Payments.Adjust.{equal_ℤ}
use cloudmeter.Payments.Amount.{parse_amount_cents}
use cloudmeter.Payments.Topups.{credit_entry}
use cloudmeter.Payments.Callback.{
  Form, field, equals_lowered, ref_taken, epay_signature, settle, verify, epay_callback,
}

abbrev pub paid_by_epay : ℕ → String → Order → Order
paid_by_epay now trade o = record o { status = paid; paid_at = some now; provider_ref = some trade }

-- The store after EPay's report of a paid order.
abbrev pub settled : (entry now id : ℕ) → String → Order → Wallet → Store → Store
settled entry now id trade o w d = record d {
  money = posted (credit_entry entry id o w) (λ b. b +ℤ o.amount) d.money;
  orders = update id (paid_by_epay now trade) d.orders;
  order_events =
      record { order = id; from = pending; to = paid; message = "EPay callback verified" }
      ∷ d.order_events;
}

-- When an order is paid by a callback, and what the store is then.
pub record Settles (entry now id : ℕ) (trade : String) (amount : ℤ) (d d' : Store) : Type 0 where
  pub order : Order
  pub wallet : Wallet
  pub found : find_order id d ≡ some order
  pub was_pending : order.status ≡ pending
  pub by_epay : order.provider ≡ epay
  pub same_amount : equal_ℤ order.amount amount ≡ true
  pub new_trade : ref_taken trade id d.orders ≡ false
  pub funded : find_wallet order.user d ≡ some wallet
  pub fits : in_int64 (wallet.balance +ℤ order.amount) ≡ true
  pub fresh : find_entry order.user (topup id) d.money.ledger ≡ none
  pub result : d' ≡ settled entry now id trade order wallet d

module _ (entry now id : ℕ) (trade : String) (amount : ℤ) (s : Session Store) where
  settle-cases :
      (o : Order) (w : Wallet)
      → find_order id s.saved ≡ some o
      → find_wallet o.user s.saved ≡ some w
      → let d' = (ended (settle entry now id trade amount s)).1 in
        (d' ≡ s.saved)
        ⊎ ((o.status ≡ pending)
            × (o.provider ≡ epay)
            × (equal_ℤ o.amount amount ≡ true)
            × (ref_taken trade id s.saved.orders ≡ false)
            × (in_int64 (w.balance +ℤ o.amount) ≡ true)
            × (find_entry o.user (topup id) s.saved.money.ledger ≡ none)
            × (d' ≡ settled entry now id trade o w s.saved))
  unfolding settle
  settle-cases o w found funded = ground (arith, wrap64_lem (w.balance +ℤ o.amount))

  settle-no_wallet :
      (o : Order)
      → find_order id s.saved ≡ some o
      → find_wallet o.user s.saved ≡ none
      → (ended (settle entry now id trade amount s)).1 ≡ s.saved
  unfolding settle
  settle-no_wallet o found missing = ground arith

  settle-no_order :
      find_order id s.saved ≡ none → (ended (settle entry now id trade amount s)).1 ≡ s.saved
  unfolding settle
  settle-no_order missing = ground arith

  settle-effect :
      let d' = (ended (settle entry now id trade amount s)).1 in
      (d' ≡ s.saved) ⊎ Settles entry now id trade amount s.saved d'
  settle-effect = elim (Option-cases (find_order id s.saved)) [
    | inl missing ↦ inl (settle-no_order missing)
    | inr (o, found) ↦ elim (Option-cases (find_wallet o.user s.saved)) [
      | inl missing ↦ inl (settle-no_wallet o found missing)
      | inr (w, funded) ↦ elim (settle-cases o w found funded) [
        | inl same ↦ inl same
        | inr (p, v, a, t, q, z, r) ↦ inr (record {
          order = o;
          wallet = w;
          found = found;
          was_pending = p;
          by_epay = v;
          same_amount = a;
          new_trade = t;
          funded = funded;
          fits = q;
          fresh = z;
          result = r;
        })
      ]
    ]
  ]

module _ (md5_hex : String → String) (decrypt : String → Option String)
    (uuid_of : String → Option ℕ) where
  -- What a callback has shown when it pays an order: EPay is enabled, the signature over the signed
  -- fields is right under the decrypted secret, and the fields name the order and its amount.
  pub record Verified (entry now : ℕ) (values : Form) (d d' : Store) : Type 0 where
    pub config : EpayConfig
    pub secret : String
    pub id : ℕ
    pub amount : ℤ
    pub configured : d.epay_config ≡ some config
    pub enabled : config.enabled ≡ true
    pub decrypted : decrypt config.secret ≡ some secret
    pub signed :
        equals_lowered (trim_space (field "sign" values)) (epay_signature md5_hex values secret)
        ≡ true
    pub read : parse_amount_cents (trim_space (field "money" values)) ≡ some amount
    pub positive : leb_ℤ amount (pos 0) ≡ false
    pub named : uuid_of (trim_space (field "out_trade_no" values)) ≡ some id
    pub settles : Settles entry now id (trim_space (field "trade_no" values)) amount d d'

  module _ (entry now : ℕ) (values : Form) (c : EpayConfig) (s : Session Store) where
    verify-cases :
        (secret : String) (amount : ℤ) (id : ℕ)
        → decrypt c.secret ≡ some secret
        → parse_amount_cents (trim_space (field "money" values)) ≡ some amount
        → uuid_of (trim_space (field "out_trade_no" values)) ≡ some id
        → let d' = (ended (verify md5_hex decrypt uuid_of entry now values c s)).1 in
          (d' ≡ s.saved)
          ⊎ ((c.enabled ≡ true)
              × (equals_lowered
                    (trim_space (field "sign" values))
                    (epay_signature md5_hex values secret)
                  ≡ true)
              × (leb_ℤ amount (pos 0) ≡ false)
              × (d'
                  ≡ (ended
                      (settle entry now id (trim_space (field "trade_no" values)) amount s)).1))
    unfolding verify
    verify-cases secret amount id a b e = ground arith

    verify-no_secret :
        decrypt c.secret ≡ none
        → (ended (verify md5_hex decrypt uuid_of entry now values c s)).1 ≡ s.saved
    unfolding verify
    verify-no_secret e = ground arith

    verify-no_amount :
        (secret : String)
        → decrypt c.secret ≡ some secret
        → parse_amount_cents (trim_space (field "money" values)) ≡ none
        → (ended (verify md5_hex decrypt uuid_of entry now values c s)).1 ≡ s.saved
    unfolding verify
    verify-no_amount secret a e = ground arith

    verify-no_id :
        (secret : String) (amount : ℤ)
        → decrypt c.secret ≡ some secret
        → parse_amount_cents (trim_space (field "money" values)) ≡ some amount
        → uuid_of (trim_space (field "out_trade_no" values)) ≡ none
        → (ended (verify md5_hex decrypt uuid_of entry now values c s)).1 ≡ s.saved
    unfolding verify
    verify-no_id secret amount a b e = ground arith

    verify-effect :
        s.saved.epay_config ≡ some c
        → let d' = (ended (verify md5_hex decrypt uuid_of entry now values c s)).1 in
          (d' ≡ s.saved) ⊎ Verified entry now values s.saved d'
    verify-effect configured = elim (Option-cases (decrypt c.secret)) [
      | inl none_a ↦ inl (verify-no_secret none_a)
      | inr (secret, a) ↦
          elim (Option-cases (parse_amount_cents (trim_space (field "money" values)))) [
            | inl none_b ↦ inl (verify-no_amount secret a none_b)
            | inr (amount, b) ↦
                elim (Option-cases (uuid_of (trim_space (field "out_trade_no" values)))) [
                  | inl none_e ↦ inl (verify-no_id secret amount a b none_e)
                  | inr (id, e) ↦
                      from_cases secret amount id a b e (verify-cases secret amount id a b e)
                ]
          ]
    ]
      where
        d' : Store
        d' = (ended (verify md5_hex decrypt uuid_of entry now values c s)).1

        from_settle :
            (secret : String) (amount : ℤ) (id : ℕ)
            → decrypt c.secret ≡ some secret
            → parse_amount_cents (trim_space (field "money" values)) ≡ some amount
            → uuid_of (trim_space (field "out_trade_no" values)) ≡ some id
            → c.enabled ≡ true
            → equals_lowered
                (trim_space (field "sign" values))
                (epay_signature md5_hex values secret)
              ≡ true
            → leb_ℤ amount (pos 0) ≡ false
            → (d' ≡ s.saved)
              ⊎ Settles entry now id (trim_space (field "trade_no" values)) amount s.saved d'
            → (d' ≡ s.saved) ⊎ Verified entry now values s.saved d'
        from_settle secret amount id a b e on sign more (inl same) = inl same
        from_settle secret amount id a b e on sign more (inr st) = inr (record {
          config = c;
          secret = secret;
          id = id;
          amount = amount;
          configured = configured;
          enabled = on;
          decrypted = a;
          signed = sign;
          read = b;
          positive = more;
          named = e;
          settles = st;
        })

        from_cases :
            (secret : String) (amount : ℤ) (id : ℕ)
            → decrypt c.secret ≡ some secret
            → parse_amount_cents (trim_space (field "money" values)) ≡ some amount
            → uuid_of (trim_space (field "out_trade_no" values)) ≡ some id
            → (d' ≡ s.saved)
              ⊎ ((c.enabled ≡ true)
                  × (equals_lowered
                        (trim_space (field "sign" values))
                        (epay_signature md5_hex values secret)
                      ≡ true)
                  × (leb_ℤ amount (pos 0) ≡ false)
                  × (d'
                      ≡ (ended
                          (settle entry now id (trim_space (field "trade_no" values)) amount s)).1))
            → (d' ≡ s.saved) ⊎ Verified entry now values s.saved d'
        from_cases secret amount id a b e (inl same) = inl same
        from_cases secret amount id a b e (inr (on, sign, more, same)) =
            from_settle secret amount id a b e on sign more
              (rw same (settle-effect entry now id (trim_space (field "trade_no" values)) amount s))

  module _ (entry now : ℕ) (values : Form) (faults : ℕ → Bool) (d : Store) where
    epay_callback-start :
        (c : EpayConfig)
        → d.epay_config ≡ some c
        → let d' = (transact (epay_callback md5_hex decrypt uuid_of entry now values) faults d).1 in
          (d' ≡ d)
          ⊎ (d'
              ≡ (ended (
                  verify md5_hex decrypt uuid_of entry now values c
                    (record { work = d; saved = d; calls = 1; faults = faults }))).1)
    unfolding epay_callback
    epay_callback-start c e = ground arith

    epay_callback-no_config :
        d.epay_config ≡ none
        → (transact (epay_callback md5_hex decrypt uuid_of entry now values) faults d).1 ≡ d
    unfolding epay_callback
    epay_callback-no_config e = ground arith

    -- Whichever database calls fail, a callback leaves the database as it was, or pays one order in
    -- whole: the last only with EPay enabled and the right signature, for a pending EPay order of
    -- the same amount, under a trade number that no other EPay order has.
    pub epay_callback-effect :
        let (r, d') = transact (epay_callback md5_hex decrypt uuid_of entry now values) faults d in
        (d' ≡ d) ⊎ Verified entry now values d d'
    epay_callback-effect = elim (Option-cases d.epay_config) [
      | inl e ↦ inl (epay_callback-no_config e)
      | inr (c, e) ↦ elim (epay_callback-start c e) [
        | inl same ↦ inl same
        | inr same ↦ rw same (
            verify-effect entry now values c
              (record { work = d; saved = d; calls = 1; faults = faults }) e)
      ]
    ]
