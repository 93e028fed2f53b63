-- ===== src/Subscription/Atomic.antt =====
-- The effect of a whole `purchase_subscription`.
use Prim.Native.String.{String}
use cloudmeter.Common.{
  ℕ, ◌≡◌, ◌∙◌, ◌⊎◌, inl, inr, Bool, true, false, Option, none, some, arith, lookup, Option-cases,
}
use cloudmeter.Common.Int.{ℤ, ltb_ℤ}
use cloudmeter.Common.Text.{trim_space}
use cloudmeter.Common.Tx.{transact, Session, ended}
use cloudmeter.Money.{Wallet}
use cloudmeter.Subscription.{Time, Current, Quote, quote_subscription}
use cloudmeter.Subscription.Effect.{refused, charged, completed, complete_purchase-run}
use cloudmeter.Subscription.Purchase.{
  PlanVersion, Bought, Store, is_charged, refuse_purchase, complete_purchase, buy_version,
  purchase_subscription, find_plan, paid_baseline, running_price, find_purchase,
}

-- The quote of a purchase.
abbrev pub quote_of : (user version : ℕ) → Time → PlanVersion → Option Current → Store → Quote
quote_of user version now v current d =
    quote_subscription now current v.plan version v.price
      (paid_baseline now current (running_price user now d.plans d.purchases))

-- What a purchase has found: the plan version, the wallet, and no purchase under its key.
pub record Offer (user version : ℕ) (key : String) (d : Store) : Type 0 where
  pub plan : PlanVersion
  pub wallet : Wallet
  pub planned : find_plan version d ≡ some plan
  pub funded : lookup user d.money.wallets ≡ some wallet
  pub new_key : find_purchase user key d.purchases ≡ none

module _ (grant_credit : ℕ → Store → Option ℤ) (entry user version id : ℕ) (now : Time) where
  abbrev pub quoted : {key : String} {d : Store} → Offer user version key d → Quote
  quoted {d} o = quote_of user version now o.plan (lookup user d.subscriptions) d

  -- What a purchase may leave in the database.
  pub data Purchased (key : String) (d d' : Store) : Type 0 where
    unchanged : d' ≡ d → Purchased key d d'
    was_refused :
        (o : Offer user version key d)
        → ltb_ℤ o.wallet.balance (quoted o).amount ≡ true
        → d' ≡ refused user version id (lookup user d.subscriptions) key (quoted o) o.wallet d
        → Purchased key d d'
    was_free :
        (o : Offer user version key d)
        → ltb_ℤ o.wallet.balance (quoted o).amount ≡ false
        → is_charged (quoted o) ≡ false
        → d'
          ≡ completed grant_credit entry user version id now o.plan
              (lookup user d.subscriptions)
              key
              (quoted o)
              o.wallet
              d
        → Purchased key d d'
    was_charged :
        (o : Offer user version key d)
        → ltb_ℤ o.wallet.balance (quoted o).amount ≡ false
        → is_charged (quoted o) ≡ true
        → d'
          ≡ completed grant_credit entry user version id now o.plan
              (lookup user d.subscriptions)
              key
              (quoted o)
              o.wallet
              (charged entry user id (quoted o) o.wallet d)
        → Purchased key d d'

  module _ (valid_uuid : Bool) (text : String) (faults : ℕ → Bool) (d : Store) where
    abbrev after : Store
    after =
        (transact (purchase_subscription grant_credit valid_uuid entry user version id now text)
          faults d).1

    -- The session in which the quote is known.
    abbrev at_call : ℕ → Session Store
    at_call n = record { work = d; saved = d; calls = n; faults = faults }

    after_purchase : Offer user version (trim_space text) d → ℕ → Store
    after_purchase o n =
        (ended (
          complete_purchase grant_credit entry user version id now o.plan
            (lookup user d.subscriptions) (trim_space text) (quoted o) o.wallet (at_call n))).1

    Offer-cases :
        (o : Offer user version (trim_space text) d)
        → (after ≡ d)
          ⊎ (((ltb_ℤ o.wallet.balance (quoted o).amount ≡ true)
                × (after
                    ≡ refused user version id
                        (lookup user d.subscriptions)
                        (trim_space text)
                        (quoted o)
                        o.wallet
                        d))
              ⊎ ((ltb_ℤ o.wallet.balance (quoted o).amount ≡ false)
                  × ((after ≡ after_purchase o 9) ⊎ (after ≡ after_purchase o 8))))
    unfolding purchase_subscription buy_version refuse_purchase after_purchase
    Offer-cases o = ground (arith, o.planned, o.funded, o.new_key)

    no_plan-unchanged : find_plan version d ≡ none → after ≡ d
    unfolding purchase_subscription
    no_plan-unchanged h = ground arith

    no_wallet-unchanged : lookup user d.money.wallets ≡ none → after ≡ d
    unfolding purchase_subscription buy_version
    no_wallet-unchanged h = ground arith

    known_key-unchanged :
        (k : ℕ) (b : Bought)
        → find_purchase user (trim_space text) d.purchases ≡ some (k, b)
        → after ≡ d
    unfolding purchase_subscription
    known_key-unchanged k b h = ground arith

    completed-Purchased :
        (o : Offer user version (trim_space text) d) (n : ℕ)
        → ltb_ℤ o.wallet.balance (quoted o).amount ≡ false
        → after ≡ after_purchase o n
        → Purchased (trim_space text) d after
    unfolding after_purchase
    completed-Purchased o n covered e =
        elim (complete_purchase-run grant_credit entry user version id now o.plan
          (lookup user d.subscriptions) (trim_space text) (quoted o) o.wallet (at_call n)
          o.new_key) [
            | inl same ↦ unchanged (e ∙ same)
            | inr (inl (c, e')) ↦ was_charged o covered c (e ∙ e')
            | inr (inr (c, e')) ↦ was_free o covered c (e ∙ e')
          ]

    Offer-Purchased : Offer user version (trim_space text) d → Purchased (trim_space text) d after
    Offer-Purchased o = elim (Offer-cases o) [
      | inl same ↦ unchanged same
      | inr (inl (short, e)) ↦ was_refused o short e
      | inr (inr (covered, inl e)) ↦ completed-Purchased o 9 covered e
      | inr (inr (covered, inr e)) ↦ completed-Purchased o 8 covered e
    ]

    -- Whichever database calls fail, a purchase leaves the database as it was, commits the attempt of a
    -- wallet that cannot pay the quote (a purchase row, a notice and an audit row, and nothing else), or
    -- makes the whole of a purchase; a wallet is charged the quote only where its balance covers it, and
    -- no key is bought under twice.
    pub purchase_subscription-effect : Purchased (trim_space text) d after
    purchase_subscription-effect = elim (Option-cases (find_plan version d)) [
      | inl e ↦ unchanged (no_plan-unchanged e)
      | inr (v, planned) ↦ elim (Option-cases (lookup user d.money.wallets)) [
        | inl e ↦ unchanged (no_wallet-unchanged e)
        | inr (w, funded) ↦ elim (Option-cases (find_purchase user (trim_space text) d.purchases)) [
          | inl e ↦
              Offer-Purchased
                (record { plan = v; wallet = w; planned = planned; funded = funded; new_key = e })
          | inr ((k, b), e) ↦ unchanged (known_key-unchanged k b e)
        ]
      ]
    ]
