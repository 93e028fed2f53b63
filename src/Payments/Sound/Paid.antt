-- ===== src/Payments/Sound/Paid.antt =====
-- A top-up keeps the store sound.
use cloudmeter.Common.{
  ℕ, ◌≡◌, refl, true, none, some, arith, update, lookup-update_self, lookup-update_ne,
  update-lookup-none,
}
use cloudmeter.Common.Int.{◌+ℤ◌, in_int64}
use cloudmeter.Domain.{paid, pending}
use cloudmeter.Money.{Wallet, find_entry}
use cloudmeter.Money.Balance.{IsBalanced}
use cloudmeter.Money.Post.{posted, posted-IsBalanced}
use cloudmeter.Payments.{Order, Store, find_order, find_wallet}
use cloudmeter.Payments.Topups.{credit_entry}
use cloudmeter.Payments.Sound.{OrderAgrees, IsSound, IsUnbooked}

-- An order becomes paid, whatever else is noted in it.
abbrev pub Pays : (Order → Order) → Order → Type 0
Pays f o = ((f o).status ≡ paid) × ((f o).amount ≡ o.amount) × ((f o).user ≡ o.user)

topup-orders :
    (entry id : ℕ) (o : Order) (w : Wallet) (f : Order → Order) (d d' : Store)
    → IsSound d
    → find_order id d ≡ some o
    → o.status ≡ pending
    → Pays f o
    → d'.money ≡ posted (credit_entry entry id o w) (λ b. b +ℤ o.amount) d.money
    → d'.orders ≡ update id f d.orders
    → d'.refunds ≡ d.refunds
    → (j : ℕ) (p : Order) → find_order j d' ≡ some p
    → OrderAgrees d' j p
unfolding find_entry
topup-orders entry id o w f d d' h found was p m os rs j q got = ground (
  arith,
  h.orders id o,
  h.orders j q,
  lookup-update_self id f o d.orders found,
  lookup-update_ne j id f d.orders,
)

topup-books :
    (entry id : ℕ) (o : Order) (w : Wallet) (d : Store)
    → IsSound d
    → find_order id d ≡ some o
    → find_wallet o.user d ≡ some w
    → in_int64 (w.balance +ℤ o.amount) ≡ true
    → IsBalanced (posted (credit_entry entry id o w) (λ b. b +ℤ o.amount) d.money)
unfolding ◌+ℤ◌
topup-books entry id o w d h found funded fits =
    posted-IsBalanced (credit_entry entry id o w) (λ b. b +ℤ o.amount) w d.money h.books funded refl
      (ground (arith, h.orders id o found, h.books.agrees o.user w funded))
      (ground (arith, h.orders id o found, h.books.agrees o.user w funded))

topup-IsUnbooked :
    (entry id : ℕ) (o : Order) (w : Wallet) (f : Order → Order) (d d' : Store)
    → IsSound d
    → find_order id d ≡ some o
    → d'.money ≡ posted (credit_entry entry id o w) (λ b. b +ℤ o.amount) d.money
    → d'.orders ≡ update id f d.orders
    → d'.refunds ≡ d.refunds
    → (j : ℕ) → find_order j d' ≡ none
    → IsUnbooked d' j
unfolding find_entry
topup-IsUnbooked entry id o w f d d' h found m os rs j missing =
    let before = h.unbooked j (update-lookup-none j id f d.orders (rw os at missing)) in
    ground (arith, before, h.orders id o, lookup-update_self id f o d.orders found)

-- A pending order that is paid in full keeps the store sound.
pub topup-IsSound :
    (entry id : ℕ) (o : Order) (w : Wallet) (f : Order → Order) (d d' : Store)
    → IsSound d
    → find_order id d ≡ some o
    → o.status ≡ pending
    → find_wallet o.user d ≡ some w
    → in_int64 (w.balance +ℤ o.amount) ≡ true
    → Pays f o
    → d'.money ≡ posted (credit_entry entry id o w) (λ b. b +ℤ o.amount) d.money
    → d'.orders ≡ update id f d.orders
    → d'.refunds ≡ d.refunds
    → IsSound d'
topup-IsSound entry id o w f d d' h found was funded fits p m os rs = record {
  books = rw m (topup-books entry id o w d h found funded fits);
  unbooked = topup-IsUnbooked entry id o w f d d' h found m os rs;
  orders = topup-orders entry id o w f d d' h found was p m os rs;
}
