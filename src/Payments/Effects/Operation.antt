-- ===== src/Payments/Effects/Operation.antt =====
-- The effect of `payment_operation`.
use Prim.Native.String.{String}
use cloudmeter.Common.{
  ℕ, ◌≡◌, refl, ◌⊎◌, inl, inr, Bool, Option, none, some, ◌∷◌, arith, update, Option-cases,
}
use cloudmeter.Common.Tx.{transact}
use cloudmeter.Domain.{pending, closed}
use cloudmeter.Payments.{Order, Store, find_order, manual, find_order}
use cloudmeter.Payments.Operations.{Operation, ask, close, recorded, payment_operation}

abbrev pub asked_at : ℕ → Order → Order
asked_at now o = record o { last_queried_at = some now }

abbrev pub closed_by_hand : ℕ → Order → Order
closed_by_hand now o = record o { status = closed; closed_at = some now }

-- The store after a provider was asked about an order.
abbrev pub queried : (actor now id : ℕ) → Store → Store
queried actor now id d =
    let s = recorded actor id ask "succeeded" d in
    record s { orders = update id (asked_at now) d.orders }

-- The store after a pending order was closed.
abbrev pub closed_store : (actor now id : ℕ) → Store → Store
closed_store actor now id d =
    let s = recorded actor id close "succeeded" d in
    record s {
      orders = update id (closed_by_hand now) d.orders;
      order_events =
          record { order = id; from = pending; to = closed; message = "manual order closed" }
          ∷ d.order_events;
      audits = record { actor = actor; action = "payment.order.close"; resource = id } ∷ s.audits;
    }

-- What a request to a provider may leave in the database.
pub data Operates (actor now id : ℕ) (op : Operation) (d d' : Store) : Type 0 where
  unchanged : d' ≡ d → Operates actor now id op d d'
  only_recorded :
      (result : String) → d' ≡ recorded actor id op result d → Operates actor now id op d d'
  asked : op ≡ ask → d' ≡ queried actor now id d → Operates actor now id op d d'
  was_closed :
      (o : Order)
      → op ≡ close
      → find_order id d ≡ some o
      → o.status ≡ pending
      → o.provider ≡ manual
      → d' ≡ closed_store actor now id d
      → Operates actor now id op d d'

module _ (decrypt : String → Option String) (actor now id : ℕ) (faults : ℕ → Bool) (d : Store) where
  payment_operation-ask :
      (o : Order)
      → find_order id d ≡ some o
      → let (r, d') = transact (payment_operation decrypt actor now id ask) faults d in
        (d' ≡ d)
        ⊎ ((d' ≡ recorded actor id ask "unconfigured" d)
            ⊎ ((d' ≡ recorded actor id ask "succeeded" d) ⊎ (d' ≡ queried actor now id d)))
  unfolding payment_operation
  payment_operation-ask o found = ground arith

  payment_operation-close :
      (o : Order)
      → find_order id d ≡ some o
      → let (r, d') = transact (payment_operation decrypt actor now id close) faults d in
        (d' ≡ d)
        ⊎ ((d' ≡ recorded actor id close "unconfigured" d)
            ⊎ ((d' ≡ recorded actor id close "failed" d)
                ⊎ ((d' ≡ recorded actor id close "succeeded" d)
                    ⊎ ((o.status ≡ pending)
                        × (o.provider ≡ manual)
                        × (d' ≡ closed_store actor now id d)))))
  unfolding payment_operation
  payment_operation-close o found = ground arith

  payment_operation-no_order :
      (op : Operation)
      → find_order id d ≡ none
      → (transact (payment_operation decrypt actor now id op) faults d).1 ≡ d
  unfolding payment_operation
  payment_operation-no_order op missing = ground arith

  -- Whichever database calls fail, a request to a provider changes no money: it leaves the database
  -- as it was, records the operation, notes the time of a query, or closes a pending manual order.
  pub payment_operation-effect :
      (op : Operation)
      → Operates actor now id op d (transact (payment_operation decrypt actor now id op) faults d).1
  payment_operation-effect op = elim (Option-cases (find_order id d)) [
    | inl missing ↦ unchanged (payment_operation-no_order op missing)
    | inr (o, found) ↦ by_operation op o found
  ]
    where
      by_operation :
          (op : Operation) (o : Order)
          → find_order id d ≡ some o
          → Operates actor now id op d
              (transact (payment_operation decrypt actor now id op) faults d).1
      by_operation ask o found = elim (payment_operation-ask o found) [
        | inl e ↦ unchanged e
        | inr (inl e) ↦ only_recorded "unconfigured" e
        | inr (inr (inl e)) ↦ only_recorded "succeeded" e
        | inr (inr (inr e)) ↦ asked refl e
      ]
      by_operation close o found = elim (payment_operation-close o found) [
        | inl e ↦ unchanged e
        | inr (inl e) ↦ only_recorded "unconfigured" e
        | inr (inr (inl e)) ↦ only_recorded "failed" e
        | inr (inr (inr (inl e))) ↦ only_recorded "succeeded" e
        | inr (inr (inr (inr (p, m, e)))) ↦ was_closed o refl found p m e
      ]
