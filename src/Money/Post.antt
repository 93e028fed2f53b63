-- ===== src/Money/Post.antt =====
-- An entry and the balance that follows it, written together, keep the books balanced.
use cloudmeter.Common.{
  ℕ, ◌≡◌, some, ◌∷◌, arith, lookup, update, lookup-update_self, lookup-update_ne,
}
use cloudmeter.Common.Int.{ℤ, pos, ◌+ℤ◌, ◌≤ℤ◌, IsInt64, +ℤ_comm}
use cloudmeter.Money.{Entry, Wallet, Money, bump}
use cloudmeter.Money.Balance.{Agrees, IsBalanced}

-- The books after an entry for a wallet and the change of the balance that goes with it.
abbrev pub posted : Entry → (ℤ → ℤ) → Money → Money
posted e f m = record m { ledger = e ∷ m.ledger; wallets = update e.wallet (bump f) m.wallets }

pub posted-IsBalanced :
    (e : Entry) (f : ℤ → ℤ) (w : Wallet) (m : Money)
    → IsBalanced m
    → lookup e.wallet m.wallets ≡ some w
    → f w.balance ≡ w.balance +ℤ e.amount
    → pos 0 ≤ℤ f w.balance
    → IsInt64 (f w.balance)
    → IsBalanced (posted e f m)
posted-IsBalanced e f w m h found sum nonneg fits = record { agrees = each }
  where
    each :
        (u : ℕ) (v : Wallet) → lookup u (posted e f m).wallets ≡ some v → Agrees (e ∷ m.ledger) u v
    each u v got = ground (
      arith,
      h.agrees u w,
      h.agrees u v,
      +ℤ_comm w.balance e.amount,
      lookup-update_self e.wallet (bump f) w m.wallets found,
      lookup-update_ne u e.wallet (bump f) m.wallets,
    )
