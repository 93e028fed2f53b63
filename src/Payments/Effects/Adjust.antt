-- ===== src/Payments/Effects/Adjust.antt =====
-- The effect of `adjust_wallet`.
use Prim.Native.String.{String}
use cloudmeter.Common.{ℕ, ◌≡◌, ◌⊎◌, inl, inr, Bool, false, none, some, ◌∷◌, arith, Option-cases}
use cloudmeter.Common.Int.{ℤ, pos, ltb_ℤ, add64}
use cloudmeter.Common.Text.{trim_space}
use cloudmeter.Common.Tx.{transact}
use cloudmeter.Money.{Wallet, adjustment, is_zero, find_entry}
use cloudmeter.Money.Post.{posted}
use cloudmeter.Payments.{Store, find_wallet}
use cloudmeter.Payments.Adjust.{adjust_entry, adjust_wallet}

-- The store after a balance has been adjusted.
abbrev pub adjusted : (actor entry user : ℕ) → ℤ → String → Wallet → Store → Store
adjusted actor entry user amount ref w d = record d {
  money = posted (adjust_entry entry user ref amount w) (λ _. add64 w.balance amount) d.money;
  audits = record { actor = actor; action = "wallet.adjustment"; resource = user } ∷ d.audits;
}

-- When a balance is adjusted, and what the store is then.
pub record Adjusts (actor entry user : ℕ) (amount : ℤ) (text : String) (d d' : Store) : Type 0 where
  pub wallet : Wallet
  pub funded : find_wallet user d ≡ some wallet
  pub nonzero : is_zero amount ≡ false
  pub covered : ltb_ℤ (add64 wallet.balance amount) (pos 0) ≡ false
  pub fresh : find_entry user (adjustment (trim_space text)) d.money.ledger ≡ none
  pub result : d' ≡ adjusted actor entry user amount (trim_space text) wallet d

module _ (actor entry user : ℕ) (amount : ℤ) (text : String) (faults : ℕ → Bool) (d : Store) where
  adjust_wallet-cases :
      (w : Wallet)
      → find_wallet user d ≡ some w
      → let (r, d') = transact (adjust_wallet actor entry user amount text) faults d in
        (d' ≡ d)
        ⊎ ((is_zero amount ≡ false)
            × (ltb_ℤ (add64 w.balance amount) (pos 0) ≡ false)
            × (find_entry user (adjustment (trim_space text)) d.money.ledger ≡ none)
            × (d' ≡ adjusted actor entry user amount (trim_space text) w d))
  unfolding adjust_wallet
  adjust_wallet-cases w funded = ground arith

  adjust_wallet-no_wallet :
      find_wallet user d ≡ none
      → (transact (adjust_wallet actor entry user amount text) faults d).1 ≡ d
  unfolding adjust_wallet
  adjust_wallet-no_wallet missing = ground arith

  -- Whichever database calls fail, an adjustment leaves the database as it was, or makes the whole
  -- change: the last only for an amount that is not 0, under a reference that is new to the wallet,
  -- and where the new balance is not negative.
  pub adjust_wallet-effect :
      let (r, d') = transact (adjust_wallet actor entry user amount text) faults d in
      (d' ≡ d) ⊎ Adjusts actor entry user amount text d d'
  adjust_wallet-effect = elim (Option-cases (find_wallet user d)) [
    | inl missing ↦ inl (adjust_wallet-no_wallet missing)
    | inr (w, funded) ↦ elim (adjust_wallet-cases w funded) [
      | inl same ↦ inl same
      | inr (n, c, z, r) ↦
          inr (record {
            wallet = w;
            funded = funded;
            nonzero = n;
            covered = c;
            fresh = z;
            result = r;
          })
    ]
  ]
