-- ===== src/Payments/Adjust.antt =====
-- `adjustWallet` of internal/httpapi/server.go: an administrator changes a balance, once for each
-- business reference.
pub mod Repeat
use Prim.Native.String.{String, len}
use cloudmeter.Common.{
  ℕ, ◌+◌, ltb, Bool, ◌&&◌, ◌||◌, not, true, false, none, some, if◌then◌else◌, lookup,
}
use cloudmeter.Common.Int.{ℤ, pos, add64, ltb_ℤ, leb_ℤ}
use cloudmeter.Common.Text.{trim_space, is_empty}
use cloudmeter.Common.Tx.{
  ◌>>=◌, ◌>>◌, answer, reject_if, begin, query, query_row, exec, write, commit,
}
use cloudmeter.Money.{
  Entry, adjustment, Wallet, Money, insert_entry, set_balance, find_entry, is_zero,
}
use cloudmeter.Payments.{
  Reply, error, wallet_adjusted, internal, Handler, find_wallet, log_audit, on_money,
}

abbrev pub equal_ℤ : ℤ → ℤ → Bool
equal_ℤ a b = leb_ℤ a b && leb_ℤ b a

abbrev pub adjust_entry : (entry user : ℕ) → String → ℤ → Wallet → Entry
adjust_entry entry user ref amount w = record {
  id = entry;
  wallet = user;
  ref = adjustment ref;
  amount = amount;
  balance_after = add64 w.balance amount;
}

-- UPDATE wallets … WHERE id=$2 AND balance_cents=$3.
unfoldable pub set_balance_if : ℕ → (old new : ℤ) → Money → Money
unfolding set_balance
set_balance_if user old new m = elim (lookup user m.wallets) [
  | none ↦ m
  | some w ↦ if equal_ℤ w.balance old then set_balance user new m else m
]

unfoldable pub adjust_wallet : (actor entry user : ℕ) → ℤ → String → Handler Reply
unfolding insert_entry set_balance_if add64
adjust_wallet actor entry user amount text = do
  let ref = trim_space text
  reject_if (is_zero amount || is_empty ref || ltb 128 (len ref)) (error 400 "validation_failed")
  begin internal
  w ← query_row internal (error 404 "user_not_found") (find_wallet user)
  reject_if (ltb_ℤ (add64 w.balance amount) (pos 0)) (error 409 "insufficient_balance")
  existing ← query internal (λ d. find_entry user (adjustment ref) d.money.ledger)
  elim existing [
    | some e ↦ (do
      reject_if (not (equal_ℤ e.amount amount)) (error 409 "idempotency_conflict")
      commit internal
      answer (wallet_adjusted e.id w.balance w.version true))
    | none ↦ (do
      exec internal (on_money (insert_entry (adjust_entry entry user ref amount w)))
      write internal
          (λ d. record d { money = set_balance_if user w.balance (add64 w.balance amount) d.money })
      write internal
          (log_audit (record { actor = actor; action = "wallet.adjustment"; resource = user }))
      commit internal
      answer (wallet_adjusted entry (add64 w.balance amount) (w.version + 1) false))
  ]
