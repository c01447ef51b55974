-- ===== src/Orders/Service/Reserved.antt =====
-- What open SELL orders reserve, and that matching (src/orders/services/order-book.service.ts)
-- reserves nothing anew.
use mathlib.Core.List.{Memᴰ}
use peerx_backend.Common.{
  ℕ, suc, ◌≤◌, ◌<◌, ◌≡◌, refl, sym, ◌∙◌, ◌⊎◌, true, false, not, ◌&&◌, List, arith, All, All-of_mem,
  All-map, sum_of, if◌then◌else◌, ◌==◌, nat_keys, inl, length,
}
use peerx_backend.Orders.Order.{Order, is_closed, remaining_amount, number}
use peerx_backend.Orders.Book.{
  Matching, Trade, TradeExecutedEvent, eligible, apply_fill, save_order, fill_amount, fill_round,
  match_taker_order, matched,
}
use peerx_backend.Orders.Book.Best.{IsBest}
use peerx_backend.Orders.Book.Rounds.{match_rounds_inv}
use peerx_backend.Orders.Book.Fills.{All-save_order}
use peerx_backend.Orders.Rows.{Unique, save_order-Unique, sum_of-save_order_le, Unique-same}
use peerx_backend.Orders.Service.{is_sell}

-- The amount of `asset` that an order of `user` holds back: what is left of an open SELL order.
abbrev pub reserves : ℕ → ℕ → Order → ℕ
reserves user asset o =
    if is_sell o.side && o.user_id == user && o.asset_id == asset && not (is_closed o.status)
    then remaining_amount o
    else 0

abbrev pub reserved : ℕ → ℕ → List Order → ℕ
reserved user asset = sum_of (reserves user asset)

module _ (user asset : ℕ) where
  pub reserves-apply_fill :
      (now amount price : ℕ) (o : Order)
      → is_closed o.status ≡ false
      → reserves user asset (apply_fill now amount price o) ≤ reserves user asset o
  unfolding apply_fill
  reserves-apply_fill now amount price o h = ground arith

  is_closed-apply_fill :
      (now amount price : ℕ) (o : Order)
      → (is_closed (apply_fill now amount price o).status ≡ false)
        ⊎ (remaining_amount (apply_fill now amount price o) ≡ 0)
  unfolding apply_fill
  is_closed-apply_fill now amount price o = ground arith

  eligible-open : (t m : Order) → eligible t m ≡ true → is_closed m.status ≡ false
  unfolding eligible
  eligible-open t m h = ground arith

  -- One of a taker and its maker is a BUY order.
  eligible-sides :
      (t m : Order)
      → eligible t m ≡ true
      → (reserves user asset t ≡ 0) ⊎ (reserves user asset m ≡ 0)
  unfolding eligible
  eligible-sides t m h = ground arith

  -- No row of the taker reserves less than the taker in memory.
  abbrev Covers : Order → List Order → Type 0
  Covers t rows = All (λ r. r.id ≡ t.id → reserves user asset t ≤ reserves user asset r) rows

  record Held (bound : ℕ) (s : Matching) : Type 0 where
    unique : Unique s.orders
    within : reserved user asset s.orders ≤ bound
    covers : Covers s.taker s.orders
    is_open : (is_closed s.taker.status ≡ false) ⊎ (remaining_amount s.taker ≡ 0)

  Covers-fill :
      (t t' m m' : Order) (rows : List Order)
      → t'.id ≡ t.id
      → m'.id ≡ m.id
      → reserves user asset t' ≤ reserves user asset t
      → (reserves user asset t ≡ 0) ⊎ (reserves user asset m ≡ 0)
      → Memᴰ m rows
      → Covers t rows
      → Covers t' (save_order m' rows)
  Covers-fill t t' m m' rows et em lt side l c =
      All-save_order (λ r. r.id ≡ t'.id → reserves user asset t' ≤ reserves user asset r) m' rows
        at_maker (All-map (λ r h e. omega (arith, h (e ∙ et))) rows c)
    where
      at_maker : m'.id ≡ t'.id → reserves user asset t' ≤ reserves user asset m'
      at_maker e = omega (
        arith,
        All-of_mem (λ r. r.id ≡ t.id → reserves user asset t ≤ reserves user asset r) m rows l c
            (sym em ∙ e ∙ et),
      )

  fill_round-Held :
      (bound now : ℕ) (m : Order) (s : Matching)
      → IsBest s.taker m s.orders
      → 0 < remaining_amount s.taker
      → Held bound s
      → Held bound (fill_round now m s)
  unfolding apply_fill
  fill_round-Held bound now m s b pos h = record {
    unique = unfold fill_round in save_order-Unique maker s.orders h.unique;
    within =
        unfold fill_round in
        omega (
          arith,
          h.within,
          sum_of-save_order_le (reserves user asset) maker s.orders (
              Unique-same (λ r. reserves user asset maker ≤ reserves user asset r) m s.orders
                h.unique b.listed maker_falls),
        );
    covers =
        unfold fill_round in
        Covers-fill s.taker taker m maker s.orders refl refl
          (reserves-apply_fill now amount price s.taker taker_open)
          (eligible-sides s.taker m b.fits) b.listed h.covers;
    is_open = unfold fill_round in is_closed-apply_fill now amount price s.taker;
  }
    where
      amount : ℕ
      amount = fill_amount s.taker m

      price : ℕ
      price = number m.price

      taker : Order
      taker = apply_fill now amount price s.taker

      maker : Order
      maker = apply_fill now amount price m

      taker_open : is_closed s.taker.status ≡ false
      taker_open = ground (arith, h.is_open)

      maker_falls : reserves user asset maker ≤ reserves user asset m
      maker_falls = reserves-apply_fill now amount price m (eligible-open s.taker m b.fits)

  -- A call of the matching engine for an open order, whose row reserves no less than it does in
  -- memory, keeps the identifiers distinct and reserves no more than before.
  pub reserved-match_taker_order :
      (now : ℕ) (taker : Order) (orders : List Order) (trades : List Trade)
      (events : List TradeExecutedEvent)
      → is_closed taker.status ≡ false
      → Unique orders
      → All (λ r. r.id ≡ taker.id → reserves user asset taker ≤ reserves user asset r) orders
      → let r = match_taker_order now taker orders trades events in
        Unique r.orders × (reserved user asset r.orders ≤ reserved user asset orders)
  unfolding match_taker_order
  reserved-match_taker_order now taker orders trades events is_open u c =
      let s = matched now taker orders trades events in
      let done : Held (reserved user asset orders) s =
        match_rounds_inv (Held (reserved user asset orders)) now
          (fill_round-Held (reserved user asset orders) now) (suc (length orders)) _
          (record { unique = u; within = omega arith; covers = c; is_open = inl is_open }) in
      (
        save_order-Unique s.taker s.orders done.unique,
        omega (
          arith,
          done.within,
          sum_of-save_order_le (reserves user asset) s.taker s.orders done.covers,
        ),
      )
