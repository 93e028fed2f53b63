-- ===== src/Money/Balance.antt =====
-- What the ledger says of each wallet.
use cloudmeter.Common.{ℕ, ◌≡◌, some, List, [], ◌∷◌, ◌==◌, if◌then◌else◌, lookup}
use cloudmeter.Common.Int.{ℤ, pos, ◌+ℤ◌, ◌≤ℤ◌, IsInt64}
use cloudmeter.Money.{Entry, Wallet, Money}

-- The sum of a wallet's entries.
abbrev pub total : ℕ → List Entry → ℤ
total u [] = pos 0
total u (e ∷ l) = if u == e.wallet then e.amount +ℤ total u l else total u l

-- One wallet agrees with the ledger: its balance is the sum of its entries, is not negative, and
-- fits in an int64.
pub record Agrees (l : List Entry) (u : ℕ) (w : Wallet) : Type 0 where
  pub sum : w.balance ≡ total u l
  pub nonneg : pos 0 ≤ℤ w.balance
  pub fits : IsInt64 w.balance

-- The books balance: every wallet agrees with the ledger.
pub record IsBalanced (m : Money) : Type 0 where
  pub agrees : (u : ℕ) (w : Wallet) → lookup u m.wallets ≡ some w → Agrees m.ledger u w
