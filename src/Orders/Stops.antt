-- ===== src/Orders/Stops.antt =====
-- The monitor of dormant orders, src/orders/services/stop-order-monitor.service.ts. Prices of
-- assets are an argument; a percentage has four decimals, so 100% is 1000000, and the comparison
-- with reference * (1 - delta / 100) is multiplied out. Failures of the database, which the sweep
-- logs and skips, are not modelled.
pub mod Trailing
pub mod Invariant
use peerx_backend.Common.{
  ℕ, ◌+◌, ◌*◌, Bool, true, false, ◌&&◌, ◌||◌, Option, none, some, List, [], ◌∷◌, String,
  if◌then◌else◌, leb, ltb, keep,
}
use peerx_backend.Orders.Order.{
  OrderSide, buy, sell, OrderType, stop_loss, pending, triggered, Order, is_fixed_stop,
  is_trailing_stop, is_pending, number,
}
use peerx_backend.Orders.Book.{save_order}
use peerx_backend.Orders.Service.{Db, find_order, run_match, broadcast_order}

-- The WHERE clause of the sweep.
unfoldable pub is_dormant : Order → Bool
is_dormant o = (is_fixed_stop o.type || is_trailing_stop o.type) && is_pending o.status

unfoldable pub is_fixed_stop_triggered : OrderType → OrderSide → ℕ → ℕ → Bool
is_fixed_stop_triggered stop_loss sell current stop = leb current stop
is_fixed_stop_triggered stop_loss buy current stop = leb stop current
is_fixed_stop_triggered _ sell current stop = leb stop current
is_fixed_stop_triggered _ buy current stop = leb current stop

-- The row as it is matched: saved as TRIGGERED, then PENDING again in memory.
abbrev pub fired : ℕ → Order → Order
fired now o = record o { status = pending; triggered_at = some now }

fire : ℕ → Order → Db → Db
fire now fresh db =
    let saved = record fresh { status = triggered; triggered_at = some now } in
    let stored = record db { orders = save_order saved db.orders } in
    let (db', o) = run_match now (fired now fresh) stored in broadcast_order now o db'

-- The row is read again under a lock, and must still be PENDING.
fire_fresh : ℕ → Option Order → Db → Db
unfolding fire
fire_fresh now none db = db
fire_fresh now (some fresh) db = if is_pending fresh.status then fire now fresh db else db

unfoldable pub trigger : ℕ → Order → Db → Db
unfolding fire_fresh
trigger now o db = fire_fresh now (find_order o.id db.orders) db

unfoldable pub process_fixed_stop : ℕ → ℕ → Order → Db → Db
process_fixed_stop now current o db =
    if is_fixed_stop_triggered o.type o.side current (number o.stop_price)
    then trigger now o db
    else db

-- The reference, starting from the current price where none is stored.
abbrev pub reference_of : Option ℕ → ℕ → ℕ
reference_of none current = current
reference_of (some r) current = r

-- Whether the current price moves the reference: up for a SELL order, down for a BUY order.
unfoldable pub moves : OrderSide → ℕ → ℕ → Bool
moves sell current reference = ltb reference current
moves buy current reference = ltb current reference

abbrev pub hundred_percent : ℕ
hundred_percent = 1000000

-- `current <= reference * (1 - delta / 100)`, and `>=` with a plus for a BUY order.
unfoldable pub retraced : OrderSide → ℕ → ℕ → ℕ → Bool
retraced sell current reference delta =
    leb (current * hundred_percent + reference * delta) (reference * hundred_percent)
retraced buy current reference delta =
    leb (reference * hundred_percent + reference * delta) (current * hundred_percent)

unfoldable pub process_trailing_stop : ℕ → ℕ → Order → Db → Db
process_trailing_stop now current o db =
    let stored = reference_of o.trailing_reference_price current in
    let moved = moves o.side current stored in
    let reference = if moved then current else stored in
    if retraced o.side current reference (number o.trailing_delta)
    then trigger now o db
    else if moved
    then record db {
      orders = save_order (record o { trailing_reference_price = some reference }) db.orders;
    }
    else db

unfoldable pub process : ℕ → ℕ → Order → Db → Db
process now current o db =
    if is_trailing_stop o.type
    then process_trailing_stop now current o db
    else process_fixed_stop now current o db

unfoldable pub sweep_from : ℕ → (ℕ → Option ℕ) → List Order → Db → Db
sweep_from now prices [] db = db
sweep_from now prices (o ∷ os) db =
    sweep_from now prices os
      (elim (prices o.asset_id) [ none ↦ db | some current ↦ process now current o db ])

-- The orders are read once, before the first is processed.
unfoldable pub sweep : ℕ → (ℕ → Option ℕ) → Db → Db
unfolding sweep_from
sweep now prices db = sweep_from now prices (keep is_dormant db.orders) db
