-- ===== src/Payments/Sound.antt =====
-- What holds of the stored money, orders and refunds between two requests.
pub mod Paid
pub mod Refunded
pub mod Adjusted
pub mod Kept
use cloudmeter.Common.{ℕ, ◌≡◌, ◌≢◌, Option, none, some}
use cloudmeter.Common.Int.{ℤ, pos, ◌-ℤ◌, ◌≤ℤ◌, IsInt64}
use cloudmeter.Domain.{OrderState, RefundState, paid, refunding, refunded}
use cloudmeter.Money.{Entry, topup, refund, find_entry}
use cloudmeter.Money.Balance.{IsBalanced}
use cloudmeter.Payments.{Order, Refund, Store, find_order, find_refund}

abbrev pub entry_amount : Option Entry → Option ℤ
entry_amount none = none
entry_amount (some e) = some e.amount

abbrev pub refund_state : Option (ℕ × Refund) → Option (RefundState × ℤ)
refund_state none = none
refund_state (some (_, r)) = some (r.status, r.amount)

-- The top-up that the ledger holds for an order in a state.
abbrev pub expected_topup : OrderState → ℤ → Option ℤ
expected_topup OrderState.paid a = some a
expected_topup OrderState.refunded a = some a
expected_topup _ _ = none

-- The debit that the ledger holds for it.
abbrev pub expected_debit : OrderState → ℤ → Option ℤ
expected_debit OrderState.refunded a = some (pos 0 -ℤ a)
expected_debit _ _ = none

abbrev pub expected_refund : OrderState → ℤ → Option (RefundState × ℤ)
expected_refund OrderState.refunded a = some (RefundState.succeeded, a)
expected_refund _ _ = none

-- An order agrees with the ledger and with the refunds: a paid order has one top-up of its amount, a
-- refunded one also the matching debit and a succeeded refund, any other has neither, and no order
-- is left between the two.
pub record OrderAgrees (d : Store) (id : ℕ) (o : Order) : Type 0 where
  pub positive : pos 1 ≤ℤ o.amount
  pub fits : IsInt64 o.amount
  pub settled : o.status ≢ refunding
  pub credit :
      entry_amount (find_entry o.user (topup id) d.money.ledger) ≡ expected_topup o.status o.amount
  pub debit :
      entry_amount (find_entry o.user (refund id) d.money.ledger) ≡ expected_debit o.status o.amount
  pub refund_row : refund_state (find_refund id d.refunds) ≡ expected_refund o.status o.amount

-- Nothing is booked for an order that does not exist.
pub record IsUnbooked (d : Store) (id : ℕ) : Type 0 where
  pub no_credit : (u : ℕ) → find_entry u (topup id) d.money.ledger ≡ none
  pub no_debit : (u : ℕ) → find_entry u (refund id) d.money.ledger ≡ none
  pub no_refund : find_refund id d.refunds ≡ none

-- The books balance, every order agrees with them, and they hold nothing of any other order.
pub record IsSound (d : Store) : Type 0 where
  pub books : IsBalanced d.money
  pub unbooked : (id : ℕ) → find_order id d ≡ none → IsUnbooked d id
  pub orders : (id : ℕ) (o : Order) → find_order id d ≡ some o → OrderAgrees d id o
