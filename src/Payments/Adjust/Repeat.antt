-- ===== src/Payments/Adjust/Repeat.antt =====
-- `adjustWallet` of internal/httpapi/server.go, requested again after it was answered.
use Prim.Native.String.{String, len}
use text.Mathlib.TextEquality.{eq_iff}
use mathlib.Core.Path.{subst}
use cloudmeter.Common.{
  ℕ, ◌+◌, ◌≡◌, refl, sym, ap, ◌∙◌, Bool, true, false, some, inl, inr, arith, lookup-update_self,
  ltb, if◌then◌else◌, Option-cases,
}
use cloudmeter.Common.Int.{ℤ, pos, negsuc, ltb_ℤ, add64}
use cloudmeter.Common.Text.{trim_space, is_empty}
use cloudmeter.Common.Tx.{transact}
use cloudmeter.Money.{Entry, adjustment, Wallet, find_entry, bump, is_zero}
use cloudmeter.Payments.{Reply, Store, error, wallet_adjusted, find_wallet}
use cloudmeter.Payments.Adjust.{adjust_wallet, adjust_entry, equal_ℤ}
use cloudmeter.Payments.Complete.{no_faults}
use cloudmeter.Payments.Effects.Adjust.{adjusted, adjust_wallet-effect}

module _ (actor entry user : ℕ) (amount : ℤ) (text : String) (faults : ℕ → Bool) (d : Store) where
  -- What an adjustment that is answered with a new entry has found and left.
  record Adjusted (entry' : ℕ) (balance : ℤ) (version : ℕ) (d' : Store) : Type 0 where
    wallet : Wallet
    funded : find_wallet user d ≡ some wallet
    nonzero : is_zero amount ≡ false
    named : is_empty (trim_space text) ≡ false
    short : ltb 128 (len (trim_space text)) ≡ false
    own : entry' ≡ entry
    new_balance : balance ≡ add64 wallet.balance amount
    new_version : version ≡ wallet.version + 1
    result : d' ≡ adjusted actor entry user amount (trim_space text) wallet d

  adjust_wallet-Adjusted :
      (entry' : ℕ) (balance : ℤ) (version : ℕ) (d' : Store)
      → transact (adjust_wallet actor entry user amount text) faults d
        ≡ (wallet_adjusted entry' balance version false, d')
      → Adjusted entry' balance version d'
  unfolding adjust_wallet
  adjust_wallet-Adjusted entry' balance version d' h = elim (Option-cases (find_wallet user d)) [
    | inl e ↦ absurd (ground arith)
    | inr (w, e) ↦ record {
      wallet = w;
      funded = e;
      nonzero = ground arith;
      named = ground arith;
      short = ground arith;
      own = ground arith;
      new_balance = ground arith;
      new_version = ground arith;
      result = ground arith;
    }
  ]

equal_ℤ_refl : (a : ℤ) → equal_ℤ a a ≡ true
equal_ℤ_refl (pos n) = ground arith
equal_ℤ_refl (negsuc n) = ground arith

adjust_wallet-replay :
    (actor entry user : ℕ) (amount : ℤ) (text : String) (d : Store) (w : Wallet) (e : Entry)
    → is_zero amount ≡ false
    → is_empty (trim_space text) ≡ false
    → ltb 128 (len (trim_space text)) ≡ false
    → find_wallet user d ≡ some w
    → find_entry user (adjustment (trim_space text)) d.money.ledger ≡ some e
    → e.amount ≡ amount
    → (transact (adjust_wallet actor entry user amount text) no_faults d).0 ≡ (
        if ltb_ℤ (add64 w.balance amount) (pos 0)
        then error 409 "insufficient_balance"
        else wallet_adjusted e.id w.balance w.version true)
unfolding adjust_wallet
adjust_wallet-replay actor entry user amount text d w e nonzero named short funded found same =
    ground (arith, equal_ℤ_refl amount)

module _ (actor entry actor2 entry2 user : ℕ) (amount : ℤ) (text : String) (faults : ℕ → Bool)
    (d : Store) where
  -- The answer to a request that was made before: the entry, where the balance covers the amount again.
  abbrev repeated : ℕ → ℤ → ℕ → Reply
  repeated id balance version =
      if ltb_ℤ (add64 balance amount) (pos 0)
      then error 409 "insufficient_balance"
      else wallet_adjusted id balance version true

  found_again :
      (w : Wallet)
      → find_entry user
          (adjustment (trim_space text))
          (adjusted actor entry user amount (trim_space text) w d).money.ledger
        ≡ some (adjust_entry entry user (trim_space text) amount w)
  unfolding find_entry
  found_again w = ground (arith, eq_iff (trim_space text) (trim_space text))

  -- Once an adjustment has been answered with a new entry, whichever calls of it failed, the same request
  -- leaves the database as it is, whichever of its own calls fail. When none fails, it is answered with
  -- that entry and the balance and version after it, but only where the balance would cover the amount
  -- once more; else it is refused as not covered, although the adjustment has been made.
  pub adjust_wallet-again :
      (id : ℕ) (balance : ℤ) (version : ℕ) (d1 : Store)
      → transact (adjust_wallet actor entry user amount text) faults d
        ≡ (wallet_adjusted id balance version false, d1)
      → (faults2 : ℕ → Bool)
      → ((transact (adjust_wallet actor2 entry2 user amount text) faults2 d1).1 ≡ d1)
        × ((transact (adjust_wallet actor2 entry2 user amount text) no_faults d1).0 ≡ (
            if ltb_ℤ (add64 balance amount) (pos 0)
            then error 409 "insufficient_balance"
            else wallet_adjusted id balance version true))
  adjust_wallet-again id balance version d1 h faults2 =
      let a =
        adjust_wallet-Adjusted actor entry user amount text faults d id balance version d1 h in
      let e = adjust_entry entry user (trim_space text) amount a.wallet in
      let found =
        subst
          (λ (x : Store). find_entry user (adjustment (trim_space text)) x.money.ledger ≡ some e)
          (sym a.result) (found_again a.wallet) in
      let w2 = bump (λ _. add64 a.wallet.balance amount) a.wallet in
      let funded =
        subst (λ (x : Store). find_wallet user x ≡ some w2) (sym a.result)
          (lookup-update_self user (bump (λ _. add64 a.wallet.balance amount)) a.wallet
            d.money.wallets a.funded) in
      let answer =
        adjust_wallet-replay actor2 entry2 user amount text d1 w2 e a.nonzero a.named a.short funded
          found refl in
      (
        elim (adjust_wallet-effect actor2 entry2 user amount text faults2 d1) [
          | inl same ↦ same
          | inr new ↦ absurd (ground (arith, found, new.fresh))
        ],
        answer
            ∙ ap (λ i. repeated i w2.balance w2.version) (sym a.own)
            ∙ ap (λ b. repeated id b w2.version) (sym a.new_balance)
            ∙ ap (repeated id balance) (sym a.new_version),
      )
