-- ===== src/Orders/History.antt =====
-- Histories of the trading core, src/orders: any sequence of requests to the orders service and of
-- steps of the stop-order monitor, in any order, failed requests included.
use mathlib.Core.List.{Memᴰ}
use peerx_backend.Common.{ℕ, ◌≤◌, ◌≡◌, [], String, arith}
use peerx_backend.Common.Outcome.{after}
use peerx_backend.Orders.Order.{Order}
use peerx_backend.Orders.Rows.{Fresh}
use peerx_backend.Orders.Service.{
  Db, CreateOrderDto, ModifyOrderDto, place_order, cancel_order, modify_order,
}
use peerx_backend.Orders.Service.Reserved.{reserved}
use peerx_backend.Orders.Service.Balances.{locked}
use peerx_backend.Orders.Service.Covered.{IsCovered}
use peerx_backend.Orders.Service.Invariant.{
  place_order-IsCovered, cancel_order-IsCovered, modify_order-IsCovered,
}
use peerx_backend.Orders.Stops.{process}
use peerx_backend.Orders.Stops.Invariant.{process-IsCovered}

-- A new order's identifier is not yet in the table; the monitor works on an order as it is stored.
pub data Step (db : Db) : Db → Type 0 where
  places :
      (now user : ℕ) (id : String) (dto : CreateOrderDto)
      → Fresh id db.orders
      → Step db (after db (place_order now id user dto db))
  cancels : (now user : ℕ) (id : String) → Step db (after db (cancel_order now user id db))
  modifies :
      (now user : ℕ) (dto : ModifyOrderDto) → Step db (after db (modify_order now user dto db))
  monitors : (now current : ℕ) (o : Order) → Memᴰ o db.orders → Step db (process now current o db)

pub data History (now : Db) : Db → Type 0 where
  done : History now now
  serve : {before later : Db} → Step before later → History now later → History now before

Step-IsCovered : {db db' : Db} → Step db db' → IsCovered db → IsCovered db'
Step-IsCovered {db} (places now user id dto f) v = place_order-IsCovered now user id dto db f v
Step-IsCovered {db} (cancels now user id) v = cancel_order-IsCovered now user id db v
Step-IsCovered {db} (modifies now user dto) v = modify_order-IsCovered now user dto db v
Step-IsCovered {db} (monitors now current o l) v = process-IsCovered now current o db l v

History-IsCovered : {now start : Db} → History now start → IsCovered start → IsCovered now
History-IsCovered done v = v
History-IsCovered (serve s rest) v = History-IsCovered rest (Step-IsCovered s v)

-- Whatever requests are served and whatever the monitor does, from a database with no orders: the
-- locked balance of a user in an asset is at least what is left of all the user's open SELL orders
-- in the asset.
pub reserved-le-locked :
    (start db : Db) (user asset : ℕ)
    → start.orders ≡ []
    → History db start
    → reserved user asset db.orders ≤ locked user asset db.balances
reserved-le-locked start db user asset e r = (History-IsCovered r empty).covered user asset
  where
    empty : IsCovered start
    empty = record { unique = rw e tt; covered = λ u a. rw e (omega arith) }
