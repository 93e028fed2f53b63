-- ===== src/Payments/Sound/Adjusted.antt =====
-- An adjustment of a balance keeps the store sound.
use Prim.Native.String.{String}
use cloudmeter.Common.{ℕ, ◌≡◌, false, none, some, arith}
use cloudmeter.Common.Int.{ℤ, pos, ◌+ℤ◌, ◌≤ℤ◌, IsInt64, ltb_ℤ, add64}
use cloudmeter.Money.{Wallet, find_entry}
use cloudmeter.Money.Post.{posted, posted-IsBalanced}
use cloudmeter.Payments.{Order, Store, find_order, find_wallet}
use cloudmeter.Payments.Adjust.{adjust_entry}
use cloudmeter.Payments.Sound.{OrderAgrees, IsSound, IsUnbooked}

-- A sum of two int64 that is not negative after wrapping has not wrapped.
add64-nonneg :
    (a b : ℤ)
    → pos 0 ≤ℤ a
    → IsInt64 a
    → IsInt64 b
    → ltb_ℤ (add64 a b) (pos 0) ≡ false
    → (add64 a b ≡ a +ℤ b) × (pos 0 ≤ℤ add64 a b) × IsInt64 (add64 a b)
unfolding add64 ◌+ℤ◌
add64-nonneg a b low fits fits' c = ground arith

adjust-orders :
    (entry user : ℕ) (ref : String) (amount : ℤ) (w : Wallet) (f : ℤ → ℤ) (d d' : Store)
    → IsSound d
    → d'.money ≡ posted (adjust_entry entry user ref amount w) f d.money
    → d'.orders ≡ d.orders
    → d'.refunds ≡ d.refunds
    → (j : ℕ) (p : Order) → find_order j d' ≡ some p
    → OrderAgrees d' j p
unfolding find_entry
adjust-orders entry user ref amount w f d d' h m os rs j q got = ground (arith, h.orders j q)

adjust-IsUnbooked :
    (entry user : ℕ) (ref : String) (amount : ℤ) (w : Wallet) (f : ℤ → ℤ) (d d' : Store)
    → IsSound d
    → d'.money ≡ posted (adjust_entry entry user ref amount w) f d.money
    → d'.orders ≡ d.orders
    → d'.refunds ≡ d.refunds
    → (j : ℕ) → find_order j d' ≡ none
    → IsUnbooked d' j
unfolding find_entry
adjust-IsUnbooked entry user ref amount w f d d' h m os rs j missing =
    ground (arith, h.unbooked j (rw os at missing))

-- An adjustment that leaves a balance that is not negative keeps the store sound.
pub adjust-IsSound :
    (entry user : ℕ) (ref : String) (amount : ℤ) (w : Wallet) (d d' : Store)
    → IsSound d
    → IsInt64 amount
    → find_wallet user d ≡ some w
    → ltb_ℤ (add64 w.balance amount) (pos 0) ≡ false
    → d'.money ≡ posted (adjust_entry entry user ref amount w) (λ _. add64 w.balance amount) d.money
    → d'.orders ≡ d.orders
    → d'.refunds ≡ d.refunds
    → IsSound d'
adjust-IsSound entry user ref amount w d d' h fits funded covered m os rs =
    let (sum, low, high) =
      add64-nonneg w.balance amount (h.books.agrees user w funded).nonneg
        (h.books.agrees user w funded).fits fits covered in
    record {
      books = rw m (
          posted-IsBalanced (adjust_entry entry user ref amount w) (λ _. add64 w.balance amount) w
            d.money h.books funded sum low high);
      unbooked =
          adjust-IsUnbooked entry user ref amount w (λ _. add64 w.balance amount) d d' h m os rs;
      orders = adjust-orders entry user ref amount w (λ _. add64 w.balance amount) d d' h m os rs;
    }
