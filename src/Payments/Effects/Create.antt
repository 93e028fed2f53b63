-- ===== src/Payments/Effects/Create.antt =====
-- The effect of `create_payment_order`.
use Prim.Native.String.{String}
use cloudmeter.Common.{
  ℕ, ◌≡◌, refl, ◌⊎◌, inl, inr, Bool, false, Option, none, some, ◌∷◌, arith, Option-cases,
}
use cloudmeter.Common.Int.{ℤ, pos, ltb_ℤ, leb_ℤ}
use cloudmeter.Common.Text.{trim_space}
use cloudmeter.Common.Tx.{transact}
use cloudmeter.Payments.{
  Store, EpayConfig, PaymentMethod, Provider, manual, epay, other, find_order, find_by_key,
}
use cloudmeter.Payments.Create.{
  CreateRequest, Url, provider_name, provider_of, create_payment_order, new_order, find_method,
  requested_type,
}

-- The store after an order has been made.
abbrev pub created : (user id : ℕ) → Provider → String → ℤ → String → Store → Store
created user id provider type amount key d = record d {
  orders = (id, new_order user provider type amount key) ∷ d.orders;
}

-- When an order is made, and what the store is then.
pub record Creates (user id : ℕ) (q : CreateRequest) (d d' : Store) : Type 0 where
  pub type : String
  pub positive : leb_ℤ q.amount (pos 0) ≡ false
  pub bounded : ltb_ℤ (pos 100000000) q.amount ≡ false
  pub new_id : find_order id d ≡ none
  pub new_key : find_by_key user (trim_space q.idempotency_key) d.orders ≡ none
  pub result :
      d'
      ≡ created user id
          (provider_of (provider_name q.provider))
          type
          q.amount
          (trim_space q.idempotency_key)
          d

module _ (parse_url : String → Option Url) (decrypt : String → Option String) (user id : ℕ)
    (q : CreateRequest) (faults : ℕ → Bool) (d : Store) where
  -- The order is as it was, or has been made.
  abbrev Outcome : String → Type 0
  Outcome type =
      let (r, d') = transact (create_payment_order parse_url decrypt user id q) faults d in
      (d' ≡ d)
      ⊎ ((leb_ℤ q.amount (pos 0) ≡ false)
          × (ltb_ℤ (pos 100000000) q.amount ≡ false)
          × (find_order id d ≡ none)
          × (find_by_key user (trim_space q.idempotency_key) d.orders ≡ none)
          × (d'
              ≡ created user id (provider_of (provider_name q.provider)) type q.amount
                  (trim_space q.idempotency_key) d))

  create-manual : provider_of (provider_name q.provider) ≡ manual → Outcome ""
  unfolding create_payment_order
  create-manual p = ground arith

  create-other : provider_of (provider_name q.provider) ≡ other → Outcome ""
  unfolding create_payment_order
  create-other p = ground arith

  create-no_config :
      provider_of (provider_name q.provider) ≡ epay → d.epay_config ≡ none → Outcome ""
  unfolding create_payment_order
  create-no_config p e = ground arith

  create-no_method :
      (c : EpayConfig)
      → provider_of (provider_name q.provider) ≡ epay
      → d.epay_config ≡ some c
      → find_method (requested_type q.payment_type c.payment_methods) c.payment_methods ≡ none
      → Outcome ""
  unfolding create_payment_order
  create-no_method c p e m = ground arith

  create-no_secret :
      (c : EpayConfig)
      → provider_of (provider_name q.provider) ≡ epay
      → d.epay_config ≡ some c
      → decrypt c.secret ≡ none
      → Outcome ""
  unfolding create_payment_order
  create-no_secret c p e m = ground arith

  create-epay :
      (c : EpayConfig) (m : PaymentMethod) (secret : String)
      → provider_of (provider_name q.provider) ≡ epay
      → d.epay_config ≡ some c
      → find_method (requested_type q.payment_type c.payment_methods) c.payment_methods ≡ some m
      → decrypt c.secret ≡ some secret
      → Outcome (requested_type q.payment_type c.payment_methods)
  unfolding create_payment_order
  create-epay c m secret p e f s = ground arith

  made :
      (type : String)
      → Outcome type
      → let (r, d') = transact (create_payment_order parse_url decrypt user id q) faults d in
        (d' ≡ d) ⊎ Creates user id q d d'
  made type (inl same) = inl same
  made type (inr (p, b, n, k, r)) =
      inr (record { type = type; positive = p; bounded = b; new_id = n; new_key = k; result = r })

  by_provider :
      (v : Provider)
      → provider_of (provider_name q.provider) ≡ v
      → let (r, d') = transact (create_payment_order parse_url decrypt user id q) faults d in
        (d' ≡ d) ⊎ Creates user id q d d'
  by_provider manual p = made "" (create-manual p)
  by_provider other p = made "" (create-other p)
  by_provider epay p = elim (Option-cases d.epay_config) [
    | inl e ↦ made "" (create-no_config p e)
    | inr (c, e) ↦
        elim (Option-cases
          (find_method (requested_type q.payment_type c.payment_methods) c.payment_methods)) [
            | inl n ↦ made "" (create-no_method c p e n)
            | inr (m, f) ↦ elim (Option-cases (decrypt c.secret)) [
              | inl n ↦ made "" (create-no_secret c p e n)
              | inr (secret, s) ↦
                  made (requested_type q.payment_type c.payment_methods)
                    (create-epay c m secret p e f s)
            ]
          ]
  ]

  -- Whichever database calls fail, a request for an order leaves the database as it was, or adds one
  -- pending order under a new id and a new key of the user, for an amount from 1 to 100000000.
  pub create_payment_order-effect :
      let (r, d') = transact (create_payment_order parse_url decrypt user id q) faults d in
      (d' ≡ d) ⊎ Creates user id q d d'
  create_payment_order-effect = by_provider (provider_of (provider_name q.provider)) refl
