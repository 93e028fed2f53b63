-- ===== src/Payments/Sound/Refunded.antt =====
-- A refund keeps the store sound.
use Prim.Native.String.{String}
use cloudmeter.Common.{
  ℕ, ◌≡◌, false, none, some, ◌∷◌, arith, lookup, update, lookup-update_self, lookup-update_ne,
  update-none, update-lookup-none,
}
use cloudmeter.Common.Int.{ℤ, pos, ◌+ℤ◌, ◌-ℤ◌, ◌≤ℤ◌, IsInt64, ltb_ℤ, sub64}
use cloudmeter.Domain.{paid, refunded}
use cloudmeter.Money.{Wallet, find_entry}
use cloudmeter.Money.Balance.{IsBalanced}
use cloudmeter.Money.Post.{posted, posted-IsBalanced}
use cloudmeter.Payments.{Order, Store, find_order, find_refund, find_wallet, set_status}
use cloudmeter.Payments.Refunds.{debit_entry, new_refund}
use cloudmeter.Payments.Effects.Refund.{finished}
use cloudmeter.Payments.Sound.{OrderAgrees, IsSound, IsUnbooked}

refund-orders :
    (rid entry now id : ℕ) (reason : String) (o : Order) (w : Wallet) (d d' : Store)
    → IsSound d
    → find_order id d ≡ some o
    → o.status ≡ paid
    → lookup rid d.refunds ≡ none
    → d'.money ≡ posted (debit_entry entry id o w) (λ _. sub64 w.balance o.amount) d.money
    → d'.orders ≡ update id (set_status refunded) d.orders
    → d'.refunds ≡ update rid (finished entry now) ((rid, new_refund id o reason) ∷ d.refunds)
    → (j : ℕ) (p : Order) → find_order j d' ≡ some p
    → OrderAgrees d' j p
unfolding find_entry find_refund
refund-orders rid entry now id reason o w d d' h found was new m os rs j q got = ground (
  arith,
  h.orders id o,
  h.orders j q,
  lookup-update_self id (set_status refunded) o d.orders found,
  lookup-update_ne j id (set_status refunded) d.orders,
  update-none rid (finished entry now) d.refunds new,
)

refund-IsUnbooked :
    (rid entry now id : ℕ) (reason : String) (o : Order) (w : Wallet) (d d' : Store)
    → IsSound d
    → find_order id d ≡ some o
    → lookup rid d.refunds ≡ none
    → d'.money ≡ posted (debit_entry entry id o w) (λ _. sub64 w.balance o.amount) d.money
    → d'.orders ≡ update id (set_status refunded) d.orders
    → d'.refunds ≡ update rid (finished entry now) ((rid, new_refund id o reason) ∷ d.refunds)
    → (j : ℕ) → find_order j d' ≡ none
    → IsUnbooked d' j
unfolding find_entry find_refund
refund-IsUnbooked rid entry now id reason o w d d' h found new m os rs j missing =
    let before =
      h.unbooked j (update-lookup-none j id (set_status refunded) d.orders (rw os at missing)) in
    ground (
      arith,
      before,
      lookup-update_self id (set_status refunded) o d.orders found,
      update-none rid (finished entry now) d.refunds new,
    )

-- Within what the wallet covers, the subtraction does not wrap.
sub64-covered :
    (a b : ℤ)
    → IsInt64 a
    → pos 1 ≤ℤ b
    → ltb_ℤ a b ≡ false
    → (sub64 a b ≡ a +ℤ (pos 0 -ℤ b)) × (pos 0 ≤ℤ sub64 a b) × IsInt64 (sub64 a b)
unfolding sub64 ◌+ℤ◌ ◌-ℤ◌
sub64-covered a b fits p c = ground arith

refund-books :
    (entry id : ℕ) (o : Order) (w : Wallet) (d : Store)
    → IsSound d
    → find_order id d ≡ some o
    → find_wallet o.user d ≡ some w
    → ltb_ℤ w.balance o.amount ≡ false
    → IsBalanced (posted (debit_entry entry id o w) (λ _. sub64 w.balance o.amount) d.money)
refund-books entry id o w d h found funded covered =
    let (sum, low, high) =
      sub64-covered w.balance o.amount (h.books.agrees o.user w funded).fits
        (h.orders id o found).positive covered in
    posted-IsBalanced (debit_entry entry id o w) (λ _. sub64 w.balance o.amount) w d.money h.books
      funded sum low high

-- A refund of a paid order keeps the store sound.
pub refund-IsSound :
    (rid entry now id : ℕ) (reason : String) (o : Order) (w : Wallet) (d d' : Store)
    → IsSound d
    → find_order id d ≡ some o
    → o.status ≡ paid
    → find_wallet o.user d ≡ some w
    → ltb_ℤ w.balance o.amount ≡ false
    → lookup rid d.refunds ≡ none
    → d'.money ≡ posted (debit_entry entry id o w) (λ _. sub64 w.balance o.amount) d.money
    → d'.orders ≡ update id (set_status refunded) d.orders
    → d'.refunds ≡ update rid (finished entry now) ((rid, new_refund id o reason) ∷ d.refunds)
    → IsSound d'
refund-IsSound rid entry now id reason o w d d' h found was funded covered new m os rs = record {
  books = rw m (refund-books entry id o w d h found funded covered);
  unbooked = refund-IsUnbooked rid entry now id reason o w d d' h found new m os rs;
  orders = refund-orders rid entry now id reason o w d d' h found was new m os rs;
}
