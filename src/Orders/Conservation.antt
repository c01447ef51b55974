-- ===== src/Orders/Conservation.antt =====
-- Both sides of a match, src/orders/services/order-book.service.ts: what the taker is filled by, the
-- makers are filled by.
use peerx_backend.Common.{
  ℕ, suc, ◌+◌, ◌≡◌, refl, ◌∙◌, true, false, List, [], ◌∷◌, arith, String, All, All-map, All-of_mem,
  sum_of, if◌then◌else◌, text_keys, length,
}
use peerx_backend.Orders.Order.{Order, OrderSide, buy, sell, opposite, same_side, number}
use peerx_backend.Orders.Book.{
  Matching, Trade, TradeExecutedEvent, eligible, apply_fill, save_order, fill_amount, fill_round,
  match_taker_order, matched,
}
use peerx_backend.Orders.Book.Best.{IsBest}
use peerx_backend.Orders.Book.Rounds.{match_rounds_inv}
use peerx_backend.Orders.Book.Fills.{filled_by, All-save_order}
use peerx_backend.Orders.Rows.{Unique, save_order-Unique, sum_of-save_order}

-- The filled amount of an order on a side, and its sum over the rows.
abbrev pub filled_on : OrderSide → Order → ℕ
filled_on side o = if same_side o.side side then o.filled_amount else 0

abbrev pub total_filled : OrderSide → List Order → ℕ
total_filled side = sum_of (filled_on side)

sum_of-save_order_eq :
    (f : Order → ℕ) (o : Order) (rows : List Order)
    → All (λ r. r.id ≡ o.id → f o ≡ f r) rows
    → sum_of f (save_order o rows) ≡ sum_of f rows
unfolding save_order
sum_of-save_order_eq f o [] h = refl
sum_of-save_order_eq f o (r ∷ rs) h =
    ground (arith, h.0, text_keys.same_iff r.id o.id, sum_of-save_order_eq f o rs h.1)

-- Rows with the taker's identifier stand on its side.
abbrev pub OwnSide : Order → List Order → Type 0
OwnSide t rows = All (λ r. r.id ≡ t.id → same_side r.side (opposite t.side) ≡ false) rows

eligible-side : (t m : Order) → eligible t m ≡ true → same_side m.side (opposite t.side) ≡ true
unfolding eligible
eligible-side t m h = ground arith

record Balanced (side : OrderSide) (id : String) (start : ℕ) (s : Matching) : Type 0 where
  unique : Unique s.orders
  total : total_filled (opposite side) s.orders ≡ start + filled_by s.fills
  same : (s.taker.side ≡ side) × (s.taker.id ≡ id)
  own : All (λ r. r.id ≡ id → same_side r.side (opposite side) ≡ false) s.orders

fill_round-Balanced :
    (side : OrderSide) (id : String) (start now : ℕ) (m : Order) (s : Matching)
    → IsBest s.taker m s.orders
    → Balanced side id start s
    → Balanced side id start (fill_round now m s)
unfolding fill_round apply_fill
fill_round-Balanced side id start now m s b h = record {
  unique = save_order-Unique maker s.orders h.unique;
  total = ground (
    arith,
    h.total,
    facing,
    sum_of-save_order (filled_on (opposite side)) maker m s.orders h.unique b.listed refl,
  );
  same = h.same;
  own =
      All-save_order (λ r. r.id ≡ id → same_side r.side (opposite side) ≡ false) maker s.orders
        (All-of_mem (λ r. r.id ≡ id → same_side r.side (opposite side) ≡ false) m s.orders b.listed
          h.own)
        h.own;
}
  where
    maker : Order
    maker = apply_fill now (fill_amount s.taker m) (number m.price) m

    facing : same_side m.side (opposite side) ≡ true
    facing = rw (← h.same.0) (eligible-side s.taker m b.fits)

-- If identifiers are distinct and the rows with the taker's stand on its side: a call raises the
-- filled amounts of the opposite side, summed over the table, by exactly the sum of its fills.
pub match_taker_order-total_filled :
    (now : ℕ) (taker : Order) (orders : List Order) (trades : List Trade)
    (events : List TradeExecutedEvent)
    → Unique orders
    → OwnSide taker orders
    → let r = match_taker_order now taker orders trades events in
      total_filled (opposite taker.side) r.orders
      ≡ total_filled (opposite taker.side) orders + filled_by r.fills
unfolding match_taker_order
match_taker_order-total_filled now taker orders trades events u own =
    sum_of-save_order_eq (filled_on (opposite taker.side)) s.taker s.orders (
      All-map (λ r h e. ground (arith, h (e ∙ done.same.1), done.same.0, own_side taker.side))
        s.orders done.own)
    ∙ done.total
  where
    s : Matching
    s = matched now taker orders trades events

    own_side : (side : OrderSide) → same_side side (opposite side) ≡ false
    own_side buy = refl
    own_side sell = refl

    done : Balanced taker.side taker.id (total_filled (opposite taker.side) orders) s
    done =
        match_rounds_inv (Balanced taker.side taker.id (total_filled (opposite taker.side) orders))
          now
          (λ m s b _ p.
            fill_round-Balanced taker.side taker.id (total_filled (opposite taker.side) orders) now
              m s b p)
          (suc (length orders)) _
          (record { unique = u; total = omega arith; same = (refl, refl); own = own })
