-- ===== src/Payments/Sound/Kept.antt =====
-- A change that moves no money keeps the store sound.
use cloudmeter.Common.{
  ℕ, ◌≡◌, none, some, ◌∷◌, arith, update, Option-cases, inl, inr, ◌⊎◌, lookup-update_self,
  lookup-update_ne, update-none, update-lookup-none,
}
use cloudmeter.Common.Int.{pos, ◌≤ℤ◌, IsInt64}
use cloudmeter.Domain.{pending, closed}
use cloudmeter.Payments.{Order, Store, find_order}
use cloudmeter.Payments.Sound.{OrderAgrees, IsSound, IsUnbooked}

-- A change of orders that agrees on what the books know of them.
abbrev pub Keeps : (Order → Order) → Order → Type 0
Keeps f o =
    ((f o).amount ≡ o.amount)
    × ((f o).user ≡ o.user)
    × (((f o).status ≡ o.status) ⊎ ((o.status ≡ pending) × ((f o).status ≡ closed)))

kept-orders :
    (id : ℕ) (f : Order → Order) (d d' : Store)
    → IsSound d
    → ((o : Order) → find_order id d ≡ some o → Keeps f o)
    → d'.money ≡ d.money
    → d'.orders ≡ update id f d.orders
    → d'.refunds ≡ d.refunds
    → (j : ℕ) (p : Order) → find_order j d' ≡ some p
    → OrderAgrees d' j p
kept-orders id f d d' h k m os rs j q got = elim (Option-cases (find_order id d)) [
  | inl missing ↦ ground (arith, h.orders j q, update-none id f d.orders missing)
  | inr (o, found) ↦ ground (
    arith,
    k o found,
    h.orders id o,
    h.orders j q,
    lookup-update_self id f o d.orders found,
    lookup-update_ne j id f d.orders,
  )
]

IsUnbooked-kept :
    (d d' : Store)
    → d'.money ≡ d.money
    → d'.refunds ≡ d.refunds
    → (j : ℕ) → IsUnbooked d j
    → IsUnbooked d' j
IsUnbooked-kept d d' m rs j b = ground (arith, b)

-- A change that moves no money, and closes pending orders at most, keeps the store sound.
pub kept-IsSound :
    (id : ℕ) (f : Order → Order) (d d' : Store)
    → IsSound d
    → ((o : Order) → find_order id d ≡ some o → Keeps f o)
    → d'.money ≡ d.money
    → d'.orders ≡ update id f d.orders
    → d'.refunds ≡ d.refunds
    → IsSound d'
kept-IsSound id f d d' h k m os rs = record {
  books = rw m h.books;
  unbooked = λ j missing.
      IsUnbooked-kept d d' m rs j
        (h.unbooked j (update-lookup-none j id f d.orders (rw os at missing)));
  orders = kept-orders id f d d' h k m os rs;
}

-- So does one that touches neither money nor orders nor refunds.
pub logged-IsSound :
    (d d' : Store)
    → IsSound d
    → d'.money ≡ d.money
    → d'.orders ≡ d.orders
    → d'.refunds ≡ d.refunds
    → IsSound d'
logged-IsSound d d' h m os rs = record {
  books = rw m h.books;
  unbooked = λ j missing. IsUnbooked-kept d d' m rs j (h.unbooked j (rw os at missing));
  orders = λ j q got. ground (arith, h.orders j q);
}

-- So does a new pending order.
pub created-IsSound :
    (id : ℕ) (o : Order) (d d' : Store)
    → IsSound d
    → find_order id d ≡ none
    → o.status ≡ pending
    → pos 1 ≤ℤ o.amount
    → IsInt64 o.amount
    → d'.money ≡ d.money
    → d'.orders ≡ (id, o) ∷ d.orders
    → d'.refunds ≡ d.refunds
    → IsSound d'
created-IsSound id o d d' h new p low fits m os rs = record {
  books = rw m h.books;
  unbooked = λ j missing. ground (arith, h.unbooked j);
  orders = λ j q got. ground (
    arith,
    h.orders j q,
    h.unbooked id new,
    (h.unbooked id new).no_credit o.user,
    (h.unbooked id new).no_debit o.user,
  );
}
