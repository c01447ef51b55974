-- ===== src/Orders/Book/Best.antt =====
-- The query for the best maker, src/orders/services/order-book.service.ts: it finds an eligible row
-- of the best price and, at that price, of the earliest creation, if there is an eligible row.
use mathlib.Core.List.{Memᴰ}
use peerx_backend.Common.{
  ◌≤◌, ◌≡◌, refl, All-map, true, false, not, ◌&&◌, Option, none, some, List, [], ◌∷◌, arith, All,
  Bool-cases, inl, inr,
}
use peerx_backend.Orders.Order.{OrderSide, buy, sell, Order, number}
use peerx_backend.Orders.Book.{eligible, better, pick, best_maker}

pub better_irrefl : (s : OrderSide) (a : Order) → better s a a ≡ false
unfolding better
better_irrefl buy a = ground arith
better_irrefl sell a = ground arith

pub better_asym : (s : OrderSide) (a b : Order) → better s a b ≡ true → better s b a ≡ false
unfolding better
better_asym buy a b h = ground arith
better_asym sell a b h = ground arith

-- Not being better is transitive: the order on makers is total.
pub better_trans :
    (s : OrderSide) (a b c : Order)
    → better s a b ≡ false
    → better s b c ≡ false
    → better s a c ≡ false
unfolding better
better_trans buy a b c h k = ground arith
better_trans sell a b c h k = ground arith

-- No eligible row is ahead of `m`.
abbrev pub NoneBetter : Order → Order → List Order → Type 0
NoneBetter t m rows = All (λ o. eligible t o ≡ true → better t.side o m ≡ false) rows

NoneBetter-of_ineligible :
    (t m : Order) (rows : List Order) → All (λ o. eligible t o ≡ false) rows → NoneBetter t m rows
NoneBetter-of_ineligible t m [] h = tt
NoneBetter-of_ineligible t m (o ∷ os) h =
    ((λ e. ground (arith, h.0)), NoneBetter-of_ineligible t m os h.1)

NoneBetter-trans :
    (t m n : Order) (rows : List Order)
    → NoneBetter t m rows
    → better t.side m n ≡ false
    → NoneBetter t n rows
NoneBetter-trans t m n [] h k = tt
NoneBetter-trans t m n (o ∷ os) h k =
    ((λ e. better_trans t.side o m n (h.0 e) k), NoneBetter-trans t m n os h.1 k)

pub record IsBest (t m : Order) (rows : List Order) : Type 0 where
  pub listed : Memᴰ m rows
  pub fits : eligible t m ≡ true
  pub first : NoneBetter t m rows

abbrev Picked : Order → List Order → Option Order → Type 0
Picked t rows none = All (λ o. eligible t o ≡ false) rows
Picked t rows (some m) = IsBest t m rows

pick-Picked :
    (t o : Order) (os : List Order) (r : Option Order)
    → Picked t os r
    → Picked t (o ∷ os) (pick t o r)
unfolding pick
pick-Picked t o os none h = elim (Bool-cases (eligible t o)) [
  | inl e ↦ rw e (record {
    listed = Memᴰ.head refl;
    fits = e;
    first = ((λ _. better_irrefl t.side o), NoneBetter-of_ineligible t o os h);
  })
  | inr e ↦ rw e (e, h)
]
pick-Picked t o os (some b) h = elim (Bool-cases (eligible t o && not (better t.side b o))) [
  | inl e ↦ rw e (record {
    listed = Memᴰ.head refl;
    fits = ground arith;
    first = ((λ _. better_irrefl t.side o), NoneBetter-trans t b o os h.first (ground arith));
  })
  | inr e ↦ rw e (record {
    listed = Memᴰ.tail h.listed;
    fits = h.fits;
    first = ((λ f. ground (arith, better_asym t.side b o)), h.first);
  })
]

pub best_maker-Picked : (t : Order) (rows : List Order) → Picked t rows (best_maker t rows)
unfolding best_maker
best_maker-Picked t [] = tt
best_maker-Picked t (o ∷ os) = pick-Picked t o os (best_maker t os) (best_maker-Picked t os)

pub best_maker-IsBest :
    (t m : Order) (rows : List Order) → best_maker t rows ≡ some m → IsBest t m rows
best_maker-IsBest t m rows e = rw e at (best_maker-Picked t rows)

-- If it finds none, no row is eligible.
pub best_maker-none :
    (t : Order) (rows : List Order)
    → best_maker t rows ≡ none
    → All (λ o. eligible t o ≡ false) rows
best_maker-none t rows e = rw e at (best_maker-Picked t rows)

-- Price, then time: a buyer's maker is as cheap as any other and a seller's as dear, and at the same
-- price it is as old.
abbrev pub ComesFirst : OrderSide → Order → Order → Type 0
ComesFirst buy m o =
    (number m.price ≤ number o.price)
    × (number m.price ≡ number o.price → m.created_at ≤ o.created_at)
ComesFirst sell m o =
    (number o.price ≤ number m.price)
    × (number m.price ≡ number o.price → m.created_at ≤ o.created_at)

ComesFirst-of_not_better :
    (side : OrderSide) (m o : Order) → better side o m ≡ false → ComesFirst side m o
unfolding better
ComesFirst-of_not_better buy m o h = (ground arith, λ e. ground arith)
ComesFirst-of_not_better sell m o h = (ground arith, λ e. ground arith)

-- If the query finds a maker, the maker is a row in the book, is eligible, and comes first in
-- price and time among the eligible rows.
pub best_maker-ComesFirst :
    (t m : Order) (rows : List Order)
    → best_maker t rows ≡ some m
    → Memᴰ m rows
      × (eligible t m ≡ true)
      × All (λ o. eligible t o ≡ true → ComesFirst t.side m o) rows
best_maker-ComesFirst t m rows e =
    let best = best_maker-IsBest t m rows e in
    (
      best.listed,
      best.fits,
      All-map (λ o h fits. ComesFirst-of_not_better t.side m o (h fits)) rows best.first,
    )
