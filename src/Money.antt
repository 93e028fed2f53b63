-- ===== src/Money.antt =====
-- The wallets and the append-only wallet ledger that every money handler writes, as the statements of
-- those handlers use them: tables `wallets` and `wallet_ledger_entries` with the constraints of
-- migrations/000001_core.up.sql. A wallet is found by its user, since `user_id` is unique.
pub mod Balance
pub mod Post
use Prim.Native.String.{String}
use text.Mathlib.Text.{◌==◌ as str_eq}
use cloudmeter.Common.{
  ℕ, ◌+◌, Bool, true, false, ◌&&◌, ◌||◌, Option, none, some, List, [], ◌∷◌, ◌==◌, if◌then◌else◌,
  leb, ltb, lookup, update,
}
use cloudmeter.Common.Int.{ℤ, pos, negsuc, pos_part, neg_part, ◌+ℤ◌, in_int64}

-- `business_type` with its `business_ref`: an order, a purchase, a note of the administrator, or a
-- usage window (code, application, price version, start and end).
pub data Ref : Type 0 where
  topup refund subscription : ℕ → Ref
  adjustment : String → Ref
  usage : String → Option ℕ → (version start end : ℕ) → Ref

pub record Entry : Type 0 where
  pub id : ℕ
  pub wallet : ℕ
  pub ref : Ref
  pub amount : ℤ
  pub balance_after : ℤ

pub record Wallet : Type 0 where
  pub balance : ℤ  -- int64, cents
  pub version : ℕ

pub record Money : Type 0 where
  pub wallets : List (ℕ × Wallet)
  pub ledger : List Entry  -- the newest first

abbrev pub same_app : Option ℕ → Option ℕ → Bool
same_app none none = true
same_app (some a) (some b) = a == b
same_app _ _ = false

abbrev pub same_ref : Ref → Ref → Bool
same_ref (topup a) (topup b) = a == b
same_ref (refund a) (refund b) = a == b
same_ref (subscription a) (subscription b) = a == b
same_ref (adjustment a) (adjustment b) = str_eq a b
same_ref (usage c a v s e) (usage c' a' v' s' e') =
    str_eq c c' && same_app a a' && v == v' && s == s' && e == e'
same_ref _ _ = false

-- The entry of a wallet under a reference.
unfoldable pub find_entry : ℕ → Ref → List Entry → Option Entry
find_entry u r [] = none
find_entry u r (e ∷ l) = if u == e.wallet && same_ref r e.ref then some e else find_entry u r l

abbrev pub is_zero : ℤ → Bool
is_zero (pos n) = n == 0
is_zero (negsuc _) = false

abbrev pub is_some {ℓ} : {A : Type ℓ} → Option A → Bool
is_some none = false
is_some (some _) = true

-- INSERT INTO wallet_ledger_entries: the amount is not 0, and the reference is new to the wallet.
unfoldable pub insert_entry : Entry → Money → Option Money
insert_entry e m =
    if is_zero e.amount || is_some (find_entry e.wallet e.ref m.ledger)
    then none
    else some (record m { ledger = e ∷ m.ledger })

abbrev pub bump : (ℤ → ℤ) → Wallet → Wallet
bump f w = record w { balance = f w.balance; version = w.version + 1 }

-- UPDATE wallets SET balance_cents=$1,version=version+1 WHERE id=$2.
unfoldable pub set_balance : ℕ → ℤ → Money → Money
set_balance u b m = record m { wallets = update u (bump (λ _. b)) m.wallets }

-- UPDATE wallets SET balance_cents=balance_cents+$1,version=version+1 WHERE id=$2. The sum must fit
-- in a bigint.
unfoldable pub add_balance : ℕ → ℤ → Money → Option Money
add_balance u a m = elim (lookup u m.wallets) [
  | none ↦ some m
  | some w ↦
      if in_int64 (w.balance +ℤ a)
      then some (record m { wallets = update u (bump (λ b. b +ℤ a)) m.wallets })
      else none
]
