-- ===== src/Orders/Book.antt =====
-- The matching engine, src/orders/services/order-book.service.ts: `matchTakerOrder` and `applyFill`.
-- The table of orders is a list of rows; rows of equal price and
-- creation time, whose order the database leaves open, are taken in the order of the list. The
-- clock is read once for each call.
pub mod Best
pub mod Rounds
pub mod Fills
use peerx_backend.Common.{
  ℕ, zero, suc, ◌+◌, ◌*◌, Bool, true, false, not, ◌&&◌, ◌||◌, Option, none, some, List, [], ◌∷◌,
  String, if◌then◌else◌, leb, ltb, ◌==◌, nat_keys, text_keys, min, length,
}
use peerx_backend.Orders.Order.{
  OrderSide, buy, sell, OrderType, partial, filled, Ratio, Order, opposite, same_side, is_limit,
  is_resting, remaining_amount, number,
}

-- A row of the trade table; its status is always FILLED.
pub record Trade : Type 0 where
  pub user_id : ℕ
  pub asset : ℕ
  pub type : OrderSide
  pub amount : ℕ
  pub price : ℕ
  pub total_value : ℕ

-- The event `trading.trade.executed`.
pub record TradeExecutedEvent : Type 0 where
  pub master_user_id : ℕ
  pub asset_id : ℕ
  pub side : OrderSide
  pub amount : ℕ
  pub price : ℕ
  pub total_value : ℕ
  pub order_type : OrderType
  pub filled_at : ℕ

-- One fill. The source keeps references to the two orders, the model their identifiers.
pub record FillResult : Type 0 where
  pub taker_order : String
  pub maker_order : String
  pub fill_amount : ℕ
  pub fill_price : ℕ

-- What a call of `matchTakerOrder` reads and writes: the taker in memory, the rows, the trades, the
-- events sent and the fills, newest first.
pub record Matching : Type 0 where
  pub taker : Order
  pub orders : List Order
  pub trades : List Trade
  pub events : List TradeExecutedEvent
  pub fills : List FillResult

-- The price that bounds a taker, if it is a LIMIT order with a price.
unfoldable pub price_bound : Order → Option ℕ
price_bound taker = if is_limit taker.type then taker.price else none

-- `order.price <= :price` for a buyer, `>=` for a seller; SQL finds no NULL price in bounds.
unfoldable pub in_bound : OrderSide → Option ℕ → Option ℕ → Bool
in_bound side none price = true
in_bound side (some bound) none = false
in_bound buy (some bound) (some price) = leb price bound
in_bound sell (some bound) (some price) = leb bound price

-- The WHERE clause of the query for makers.
unfoldable pub eligible : Order → Order → Bool
eligible taker maker =
    maker.asset_id == taker.asset_id
    && same_side maker.side (opposite taker.side)
    && is_limit maker.type
    && is_resting maker.status
    && in_bound taker.side (price_bound taker) maker.price

-- The ORDER BY clause: by price, ascending for a buyer, then by time of creation.
unfoldable pub better : OrderSide → Order → Order → Bool
better buy a b =
    ltb (number a.price) (number b.price)
    || number a.price == number b.price && ltb a.created_at b.created_at
better sell a b =
    ltb (number b.price) (number a.price)
    || number a.price == number b.price && ltb a.created_at b.created_at

pick : Order → Order → Option Order → Option Order
pick taker o none = if eligible taker o then some o else none
pick taker o (some b) = if eligible taker o && not (better taker.side b o) then some o else some b

-- `getOne`: the first row of the query.
unfoldable pub best_maker : Order → List Order → Option Order
unfolding pick
best_maker taker [] = none
best_maker taker (o ∷ os) = pick taker o (best_maker taker os)

-- The volume-weighted average after a fill: (filled * average + amount * price) / new filled.
unfoldable pub average_after : ℕ → Option Ratio → ℕ → ℕ → Ratio
average_after old none amount price = record { num = old * 0 + amount * price; den = old + amount }
average_after old (some a) amount price = record {
  num = old * a.num + amount * price * a.den;
  den = a.den * (old + amount);
}

unfoldable pub apply_fill : ℕ → ℕ → ℕ → Order → Order
apply_fill now amount price o = record o {
  average_fill_price = some (average_after o.filled_amount o.average_fill_price amount price);
  filled_amount = o.filled_amount + amount;
  status = if leb o.amount (o.filled_amount + amount) then filled else partial;
  filled_at = if leb o.amount (o.filled_amount + amount) then some now else o.filled_at;
}

-- `manager.save` of an order that has a row.
unfoldable pub save_order : Order → List Order → List Order
save_order o [] = []
save_order o (r ∷ rs) = (if r.id == o.id then o else r) ∷ save_order o rs

-- The test of the loop and its query: the next maker, if the taker has an amount left.
unfoldable pub next_maker : Matching → Option Order
next_maker s = if ltb 0 (remaining_amount s.taker) then best_maker s.taker s.orders else none

unfoldable pub fill_amount : Order → Order → ℕ
fill_amount taker maker = min (remaining_amount taker) (remaining_amount maker)

-- The body of the loop.
unfoldable pub fill_round : ℕ → Order → Matching → Matching
fill_round now maker s = record {
  taker = apply_fill now amount price taker;
  orders = save_order (apply_fill now amount price maker) s.orders;
  trades =
      record {
        user_id = taker.user_id;
        asset = taker.asset_id;
        type = taker.side;
        amount = amount;
        price = price;
        total_value = amount * price;
      }
      ∷ s.trades;
  events =
      record {
        master_user_id = taker.user_id;
        asset_id = taker.asset_id;
        side = taker.side;
        amount = amount;
        price = price;
        total_value = amount * price;
        order_type = taker.type;
        filled_at = now;
      }
      ∷ s.events;
  fills =
      record {
        taker_order = taker.id;
        maker_order = maker.id;
        fill_amount = amount;
        fill_price = price;
      }
      ∷ s.fills;
}
  where
    open s use {taker}

    amount : ℕ
    amount = fill_amount taker maker

    price : ℕ
    price = number maker.price

-- The loop, with at most so many rounds.
unfoldable pub match_rounds : ℕ → ℕ → Matching → Matching
match_rounds zero now s = s
match_rounds (suc rounds) now s = elim (next_maker s) [
  | none ↦ s
  | some maker ↦ match_rounds rounds now (fill_round now maker s)
]

-- The state when the loop of a call has ended. A round more than there are rows is enough.
abbrev pub matched : ℕ → Order → List Order → List Trade → List TradeExecutedEvent → Matching
matched now taker orders trades events =
    match_rounds (suc (length orders)) now
      (record { taker = taker; orders = orders; trades = trades; events = events; fills = [] })

-- The whole call: the loop, then the taker is saved.
unfoldable pub match_taker_order :
    ℕ → Order → List Order → List Trade → List TradeExecutedEvent → Matching
match_taker_order now taker orders trades events =
    let final = matched now taker orders trades events in
    record final { orders = save_order final.taker final.orders }
