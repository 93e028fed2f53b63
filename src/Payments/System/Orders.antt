-- ===== src/Payments/System/Orders.antt =====
-- What becomes of an order through the requests.
use cloudmeter.Common.{
  ℕ, ◌≡◌, refl, sym, Bool, true, some, inl, inr, arith, ==_iff, ◌==◌, Bool-cases, update,
  lookup-update_self, lookup-update_ne, ◌∙◌,
}
use cloudmeter.Common.Int.{ℤ}
use Prim.Native.String.{String}
use cloudmeter.Domain.{OrderState, pending, paid, closed, refunding, refunded, order_transition}
use cloudmeter.Domain.Laws.{OrderPath}
use cloudmeter.Payments.{Order, Store, find_order, set_status}
use cloudmeter.Payments.Effects.Topup.{Credits, paid_by_hand, mark_payment_paid-effect}
use cloudmeter.Payments.Effects.Create.{Creates, create_payment_order-effect}
use cloudmeter.Payments.Effects.Refund.{Refunds, refund_payment-effect}
use cloudmeter.Payments.Effects.Adjust.{adjust_wallet-effect}
use cloudmeter.Payments.Effects.Operation.{
  Operates, asked_at, closed_by_hand, unchanged, only_recorded, asked, was_closed,
  payment_operation-effect,
}
use cloudmeter.Payments.Effects.Callback.{Settles, paid_by_epay, epay_callback-effect}
use cloudmeter.Payments.Create.{CreateRequest}
use cloudmeter.Payments.Operations.{Operation}
use cloudmeter.Payments.System.{
  Request, create, mark_paid, refund, adjust, operate, callback, Outside, serve, after,
}

-- What an order may have become: its state by moves of the table, for the same user and amount.
pub record Follows (o o' : Order) : Type 0 where
  pub path : OrderPath o.status o'.status
  pub user : o'.user ≡ o.user
  pub amount : o'.amount ≡ o.amount

abbrev pub Kept : Order → ℕ → Store → Type 0
Kept o id d' = (o' : Order) × (find_order id d' ≡ some o') × Follows o o'

Kept-same :
    (id : ℕ) (o : Order) (d d' : Store)
    → find_order id d ≡ some o
    → d'.orders ≡ d.orders
    → Kept o id d'
Kept-same id o d d' found os =
    (o, rw os found, record { path = OrderPath.here; user = refl; amount = refl })

-- An update of one order keeps that order and every other.
Kept-update :
    (j id : ℕ) (f : Order → Order) (o : Order) (d d' : Store)
    → find_order j d ≡ some o
    → (id ≡ j → Follows o (f o))
    → d'.orders ≡ update id f d.orders
    → Kept o j d'
Kept-update j id f o d d' found step os = elim (Bool-cases (j == id)) [
  | inl same ↦
      let e = (==_iff j id).0 same in
      (f o, rw os (rw (sym e) (lookup-update_self j f o d.orders found)), step (sym e))
  | inr differ ↦ (
    o,
    rw os ((ground (arith, lookup-update_ne j id f d.orders)) ∙ found),
    record { path = OrderPath.here; user = refl; amount = refl },
  )
]

-- One allowed move.
move :
    (o o' : Order) (s t : OrderState)
    → o.status ≡ s
    → o'.status ≡ t
    → order_transition s t ≡ true
    → o'.user ≡ o.user
    → o'.amount ≡ o.amount
    → Follows o o'
move o o' s t is was h u a = record {
  path = rw (is, was) (OrderPath.next OrderPath.here h);
  user = u;
  amount = a;
}

same_order :
    (d : Store) (id j : ℕ) (o o' : Order)
    → find_order id d ≡ some o
    → find_order j d ≡ some o'
    → id ≡ j
    → o ≡ o'
same_order d id j o o' found found' e = ground (arith, found, found', e)

Credits-Kept :
    (j : ℕ) (d d' : Store) (o : Order) {actor entry now id : ℕ}
    → find_order j d ≡ some o
    → Credits actor entry now id d d'
    → Kept o j d'
unfolding order_transition
Credits-Kept j d d' o {now} {id} found c =
    Kept-update j id (paid_by_hand now) o d d' found
      (λ e.
        move o (paid_by_hand now o) pending paid
          (rw (sym (same_order d id j c.order o c.found found e)) c.was_pending) refl refl refl
          refl)
      (rw c.result refl)

Settles-Kept :
    (j : ℕ) (d d' : Store) (o : Order) {entry now id : ℕ} {trade : String} {amount : ℤ}
    → find_order j d ≡ some o
    → Settles entry now id trade amount d d'
    → Kept o j d'
unfolding order_transition
Settles-Kept j d d' o {now} {id} {trade} found c =
    Kept-update j id (paid_by_epay now trade) o d d' found
      (λ e.
        move o (paid_by_epay now trade o) pending paid
          (rw (sym (same_order d id j c.order o c.found found e)) c.was_pending) refl refl refl
          refl)
      (rw c.result refl)

Refunds-Kept :
    (j : ℕ) (d d' : Store) (o : Order) {actor rid entry now id : ℕ} {reason : String}
    → find_order j d ≡ some o
    → Refunds actor rid entry now id reason d d'
    → Kept o j d'
unfolding order_transition
Refunds-Kept j d d' o {id} found c =
    Kept-update j id (set_status refunded) o d d' found
      (λ e. record {
        path =
            rw (sym (same_order d id j c.order o c.found found e), c.was_paid)
              (OrderPath.next {t = refunding} (OrderPath.next OrderPath.here refl) refl);
        user = refl;
        amount = refl;
      })
      (rw c.result refl)

Creates-Kept :
    (j : ℕ) (d d' : Store) (o : Order) {user id : ℕ} {q : CreateRequest}
    → find_order j d ≡ some o
    → Creates user id q d d'
    → Kept o j d'
Creates-Kept j d d' o {id} found c = (
  o,
  ground (arith, found, c.new_id, c.result),
  record { path = OrderPath.here; user = refl; amount = refl },
)

Operates-Kept :
    (j : ℕ) (d d' : Store) (o : Order) {actor now id : ℕ} {op : Operation}
    → find_order j d ≡ some o
    → Operates actor now id op d d'
    → Kept o j d'
unfolding order_transition
Operates-Kept j d d' o found (unchanged e) = Kept-same j o d d' found (rw e refl)
Operates-Kept j d d' o found (only_recorded result e) = Kept-same j o d d' found (rw e refl)
Operates-Kept j d d' o {now} {id} found (asked _ e) =
    Kept-update j id (asked_at now) o d d' found
      (λ _. record { path = OrderPath.here; user = refl; amount = refl }) (rw e refl)
Operates-Kept j d d' o {now} {id} found (was_closed q _ found' p _ e) =
    Kept-update j id (closed_by_hand now) o d d' found
      (λ same.
        move o (closed_by_hand now o) pending closed
          (rw (sym (same_order d id j q o found' found same)) p) refl refl refl refl)
      (rw e refl)

module _ (e : Outside) where
  -- No request removes an order or changes its user or amount, and its state moves only as the table
  -- of order transitions allows, whichever database calls fail.
  pub serve-OrderPath :
      (r : Request) (faults : ℕ → Bool) (d : Store) (id : ℕ) (o : Order)
      → find_order id d ≡ some o
      → (o' : Order) × (find_order id (after e r faults d) ≡ some o') × Follows o o'
  unfolding serve
  serve-OrderPath (create user k q) faults d id o found =
      let d' = after e (create user k q) faults d in
      elim (create_payment_order-effect e.parse_url e.decrypt user k q faults d) [
        | inl same ↦ Kept-same id o d d' found (rw same refl)
        | inr c ↦ Creates-Kept id d d' o found c
      ]
  serve-OrderPath (mark_paid actor entry now k) faults d id o found =
      let d' = after e (mark_paid actor entry now k) faults d in
      elim (mark_payment_paid-effect actor entry now k faults d) [
        | inl same ↦ Kept-same id o d d' found (rw same refl)
        | inr c ↦ Credits-Kept id d d' o found c
      ]
  serve-OrderPath (refund actor rid entry now k reason) faults d id o found =
      let d' = after e (refund actor rid entry now k reason) faults d in
      elim (refund_payment-effect actor rid entry now k reason faults d) [
        | inl same ↦ Kept-same id o d d' found (rw same refl)
        | inr (inl turned_down) ↦ Kept-same id o d d' found (rw turned_down refl)
        | inr (inr c) ↦ Refunds-Kept id d d' o found c
      ]
  serve-OrderPath (adjust actor entry user amount fits ref) faults d id o found =
      let d' = after e (adjust actor entry user amount fits ref) faults d in
      elim (adjust_wallet-effect actor entry user amount ref faults d) [
        | inl same ↦ Kept-same id o d d' found (rw same refl)
        | inr c ↦ Kept-same id o d d' found (rw c.result refl)
      ]
  serve-OrderPath (operate actor now k op) faults d id o found =
      let d' = after e (operate actor now k op) faults d in
      Operates-Kept id d d' o found (payment_operation-effect e.decrypt actor now k faults d op)
  serve-OrderPath (callback entry now values) faults d id o found =
      let d' = after e (callback entry now values) faults d in
      elim (epay_callback-effect e.md5_hex e.decrypt e.uuid_of entry now values faults d) [
        | inl same ↦ Kept-same id o d d' found (rw same refl)
        | inr v ↦ Settles-Kept id d d' o found v.settles
      ]
