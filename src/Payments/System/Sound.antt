-- ===== src/Payments/System/Sound.antt =====
-- Soundness through every request.
use cloudmeter.Common.{ℕ, refl, Bool, inl, inr, arith}
use cloudmeter.Common.Int.{ℤ, IsInt64}
use cloudmeter.Payments.{Store}
use cloudmeter.Payments.Effects.Topup.{Credits, paid_by_hand, mark_payment_paid-effect}
use cloudmeter.Payments.Effects.Create.{Creates, create_payment_order-effect}
use cloudmeter.Payments.Effects.Refund.{Refunds, refund_payment-effect}
use cloudmeter.Payments.Effects.Adjust.{Adjusts, adjust_wallet-effect}
use cloudmeter.Payments.Effects.Operation.{
  Operates, asked_at, closed_by_hand, unchanged, only_recorded, asked, was_closed,
  payment_operation-effect,
}
use cloudmeter.Payments.Effects.Callback.{Settles, paid_by_epay, epay_callback-effect}
use cloudmeter.Payments.Create.{CreateRequest, new_order, provider_of, provider_name}
use cloudmeter.Payments.Operations.{Operation}
use cloudmeter.Payments.Refunds.{refund_reason}
use cloudmeter.Payments.Sound.{IsSound}
use cloudmeter.Payments.Sound.Paid.{topup-IsSound}
use cloudmeter.Payments.Sound.Refunded.{refund-IsSound}
use cloudmeter.Payments.Sound.Adjusted.{adjust-IsSound}
use cloudmeter.Payments.Sound.Kept.{kept-IsSound, logged-IsSound, created-IsSound}
use cloudmeter.Payments.System.{
  Request, create, mark_paid, refund, adjust, operate, callback, Outside, serve, after, Reach, here,
  next,
}
use cloudmeter.Common.Text.{trim_space}
use Prim.Native.String.{String}

Credits-IsSound :
    {actor entry now id : ℕ} {d d' : Store}
    → IsSound d
    → Credits actor entry now id d d'
    → IsSound d'
Credits-IsSound {entry} {now} {id} {d} {d'} h c =
    topup-IsSound entry id c.order c.wallet (paid_by_hand now) d d' h c.found c.was_pending c.funded
      c.fits (refl, refl, refl) (rw c.result refl) (rw c.result refl) (rw c.result refl)

Settles-IsSound :
    {entry now id : ℕ} {trade : String} {amount : ℤ} {d d' : Store}
    → IsSound d
    → Settles entry now id trade amount d d'
    → IsSound d'
Settles-IsSound {entry} {now} {id} {trade} {d} {d'} h c =
    topup-IsSound entry id c.order c.wallet (paid_by_epay now trade) d d' h c.found c.was_pending
      c.funded c.fits (refl, refl, refl) (rw c.result refl) (rw c.result refl) (rw c.result refl)

Refunds-IsSound :
    {actor rid entry now id : ℕ} {reason : String} {d d' : Store}
    → IsSound d
    → Refunds actor rid entry now id reason d d'
    → IsSound d'
Refunds-IsSound {rid} {entry} {now} {id} {reason} {d} {d'} h c =
    refund-IsSound rid entry now id (refund_reason reason) c.order c.wallet d d' h c.found
      c.was_paid c.funded c.covered c.new_id (rw c.result refl) (rw c.result refl)
      (rw c.result refl)

Adjusts-IsSound :
    {actor entry user : ℕ} {amount : ℤ} {ref : String} {d d' : Store}
    → IsInt64 amount
    → IsSound d
    → Adjusts actor entry user amount ref d d'
    → IsSound d'
Adjusts-IsSound {entry} {user} {amount} {ref} {d} {d'} fits h c =
    adjust-IsSound entry user (trim_space ref) amount c.wallet d d' h fits c.funded c.covered
      (rw c.result refl) (rw c.result refl) (rw c.result refl)

Creates-IsSound :
    {user id : ℕ} {q : CreateRequest} {d d' : Store}
    → IsSound d
    → Creates user id q d d'
    → IsSound d'
Creates-IsSound {user} {id} {q} {d} {d'} h c =
    created-IsSound id
      (new_order user (provider_of (provider_name q.provider)) c.type q.amount
        (trim_space q.idempotency_key))
      d d' h c.new_id refl (ground (arith, c.positive)) (ground (arith, c.positive, c.bounded))
      (rw c.result refl) (rw c.result refl) (rw c.result refl)

Operates-IsSound :
    {actor now id : ℕ} {op : Operation} {d d' : Store}
    → IsSound d
    → Operates actor now id op d d'
    → IsSound d'
Operates-IsSound h (unchanged e) = rw e h
Operates-IsSound {d} {d'} h (only_recorded result e) =
    logged-IsSound d d' h (rw e refl) (rw e refl) (rw e refl)
Operates-IsSound {now} {id} {d} {d'} h (asked _ e) =
    kept-IsSound id (asked_at now) d d' h (λ o found. (refl, refl, inl refl)) (rw e refl)
      (rw e refl) (rw e refl)
Operates-IsSound {now} {id} {d} {d'} h (was_closed o _ found p _ e) =
    kept-IsSound id (closed_by_hand now) d d' h
      (λ q found'. (refl, refl, inr (ground (arith, found, found', p), refl))) (rw e refl)
      (rw e refl) (rw e refl)

module _ (e : Outside) where
  -- Every request keeps the store sound, whichever of its database calls fail.
  pub serve-IsSound :
      (r : Request) (faults : ℕ → Bool) (d : Store) → IsSound d → IsSound (after e r faults d)
  unfolding serve
  serve-IsSound (create user id q) faults d h =
      elim (create_payment_order-effect e.parse_url e.decrypt user id q faults d) [
        | inl same ↦ rw same h
        | inr c ↦ Creates-IsSound h c
      ]
  serve-IsSound (mark_paid actor entry now id) faults d h =
      elim (mark_payment_paid-effect actor entry now id faults d) [
        | inl same ↦ rw same h
        | inr c ↦ Credits-IsSound h c
      ]
  serve-IsSound (refund actor rid entry now id reason) faults d h =
      elim (refund_payment-effect actor rid entry now id reason faults d) [
        | inl same ↦ rw same h
        | inr (inl turned_down) ↦
            logged-IsSound d _ h (rw turned_down refl) (rw turned_down refl) (rw turned_down refl)
        | inr (inr c) ↦ Refunds-IsSound h c
      ]
  serve-IsSound (adjust actor entry user amount fits ref) faults d h =
      elim (adjust_wallet-effect actor entry user amount ref faults d) [
        | inl same ↦ rw same h
        | inr c ↦ Adjusts-IsSound fits h c
      ]
  serve-IsSound (operate actor now id op) faults d h =
      Operates-IsSound h (payment_operation-effect e.decrypt actor now id faults d op)
  serve-IsSound (callback entry now values) faults d h =
      elim (epay_callback-effect e.md5_hex e.decrypt e.uuid_of entry now values faults d) [
        | inl same ↦ rw same h
        | inr v ↦ Settles-IsSound h v.settles
      ]

  -- From a sound store, whatever requests are served one after another and whichever of their
  -- database calls fail, every store that is reached is sound: each balance is the sum of its
  -- entries, not negative and within an int64; each order has exactly the entries and the refund
  -- that its state calls for, and no order stays between paid and refunded.
  pub Reach-IsSound : {d d' : Store} → IsSound d → Reach e d d' → IsSound d'
  Reach-IsSound h here = h
  Reach-IsSound h (next {d'} s r faults) = serve-IsSound r faults d' (Reach-IsSound h s)
