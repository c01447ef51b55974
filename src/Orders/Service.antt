-- ===== src/Orders/Service.antt =====
-- The orders service, src/orders/orders.service.ts: `placeOrder`, `cancelOrder`, `modifyOrder` and
-- `getOrder`. The database and the messages sent are an explicit state; a transaction that throws
-- gives an error and no state, as a rollback does. Of a balance row the columns that these
-- operations leave alone are not carried.
pub mod Reserved
pub mod Invariant
pub mod Covered
pub mod Balances
use peerx_backend.Common.{
  ℕ, ◌+◌, ◌-◌, ◌*◌, Bool, true, false, not, ◌&&◌, ◌||◌, Option, none, some, List, [], ◌∷◌, ◌++◌,
  String, if◌then◌else◌, leb, ltb, ◌==◌, nat_keys, text_keys,
}
use peerx_backend.Common.Outcome.{Outcome, returns, throws, ◌>>=◌, ◌>>◌, guard, or_fail}
use peerx_backend.Orders.Order.{
  OrderSide, buy, sell, OrderType, OrderStatus, pending, partial, filled, cancelled, triggered,
  rejected, Ratio, Order, is_limit, is_market, is_fixed_stop, is_trailing_stop, is_resting,
  is_closed, remaining_amount,
}
use peerx_backend.Orders.Book.{Trade, TradeExecutedEvent, save_order, match_taker_order}

pub record UserBalance : Type 0 where
  pub user_id : ℕ
  pub asset_id : ℕ
  pub balance : ℕ
  pub locked_balance : ℕ

-- The status word of an `OrderUpdate`.
pub data UpdateStatus : Type 0 where
  is_pending is_partially_filled is_filled is_cancelled : UpdateStatus

-- `price ?? averageFillPrice ?? 0`.
pub data UpdatePrice : Type 0 where
  limit_price : ℕ → UpdatePrice
  average_price : Ratio → UpdatePrice
  no_price : UpdatePrice

pub record OrderUpdate : Type 0 where
  pub id : String
  pub user_id : ℕ
  pub asset : ℕ
  pub type : OrderSide
  pub amount : ℕ
  pub price : UpdatePrice
  pub filled_amount : ℕ
  pub remaining : ℕ
  pub status : UpdateStatus
  pub timestamp : ℕ

-- The tables, the events and the broadcasts, the latter newest first.
pub record Db : Type 0 where
  pub orders : List Order
  pub balances : List UserBalance
  pub trades : List Trade
  pub events : List TradeExecutedEvent
  pub updates : List OrderUpdate

pub record CreateOrderDto : Type 0 where
  pub asset_id : ℕ
  pub side : OrderSide
  pub type : OrderType
  pub amount : ℕ
  pub price : Option ℕ
  pub stop_price : Option ℕ
  pub trailing_delta : Option ℕ
  pub expires_in_seconds : Option ℕ

pub record ModifyOrderDto : Type 0 where
  pub order_id : String
  pub price : Option ℕ
  pub amount : Option ℕ
  pub stop_price : Option ℕ
  pub trailing_delta : Option ℕ

-- The exceptions, one for each message.
pub data OrderError : Type 0 where
  order_not_found not_owner insufficient_balance not_cancellable not_modifiable : OrderError
  amount_below_filled no_balance price_required stop_price_required : OrderError
  trailing_delta_required price_not_limit stop_price_not_stop delta_not_trailing : OrderError

abbrev pub is_sell : OrderSide → Bool
is_sell sell = true
is_sell buy = false

abbrev pub is_some {ℓ} : {A : Type ℓ} → Option A → Bool
is_some none = false
is_some (some a) = true

-- `findOne({ where: { id } })`.
unfoldable pub find_order : String → List Order → Option Order
find_order id [] = none
find_order id (o ∷ os) = if o.id == id then some o else find_order id os

abbrev pub is_balance_of : ℕ → ℕ → UserBalance → Bool
is_balance_of user asset b = b.user_id == user && b.asset_id == asset

-- `findOne({ where: { userId, assetId } })`, over the unique index on the two.
unfoldable pub find_balance : ℕ → ℕ → List UserBalance → Option UserBalance
find_balance user asset [] = none
find_balance user asset (b ∷ bs) =
    if is_balance_of user asset b then some b else find_balance user asset bs

unfoldable pub save_balance : UserBalance → List UserBalance → List UserBalance
save_balance b [] = []
save_balance b (c ∷ cs) =
    (if is_balance_of b.user_id b.asset_id c then b else c) ∷ save_balance b cs

-- `availableBalance < amount`, over the integers.
abbrev pub lacks : UserBalance → ℕ → Bool
lacks b amount = ltb b.balance (b.locked_balance + amount)

unfoldable pub status_map : OrderStatus → UpdateStatus
status_map pending = is_pending
status_map partial = is_partially_filled
status_map filled = is_filled
status_map cancelled = is_cancelled
status_map triggered = is_pending
status_map rejected = is_cancelled

update_price : Option ℕ → Option Ratio → UpdatePrice
update_price (some p) a = limit_price p
update_price none (some r) = average_price r
update_price none none = no_price

unfoldable pub broadcast_order : ℕ → Order → Db → Db
unfolding update_price status_map
broadcast_order now o db = record db {
  updates =
      record {
        id = o.id;
        user_id = o.user_id;
        asset = o.asset_id;
        type = o.side;
        amount = o.amount;
        price = update_price o.price o.average_fill_price;
        filled_amount = o.filled_amount;
        remaining = remaining_amount o;
        status = status_map o.status;
        timestamp = now;
      }
      ∷ db.updates;
}

unfoldable pub validate_order_shape : CreateOrderDto → Outcome OrderError (Unit {0})
validate_order_shape dto = do
  guard (not (is_limit dto.type) || is_some dto.price) price_required
  guard (not (is_fixed_stop dto.type) || is_some dto.stop_price) stop_price_required
  guard (not (is_trailing_stop dto.type) || is_some dto.trailing_delta) trailing_delta_required

-- A SELL order reserves its amount; a BUY order reserves nothing.
unfoldable pub reserve :
    ℕ → CreateOrderDto → List UserBalance → Outcome OrderError (List UserBalance)
reserve user dto balances =
    if is_sell dto.side
    then (do
      b ← or_fail (find_balance user dto.asset_id balances) insufficient_balance
      guard (not (lacks b dto.amount)) insufficient_balance
      returns (save_balance (record b { locked_balance = b.locked_balance + dto.amount }) balances))
    else returns balances

abbrev expiry : ℕ → Option ℕ → Option ℕ
expiry now none = none
expiry now (some s) = if s == 0 then none else some (now + s * 1000)

unfoldable pub new_order : ℕ → String → ℕ → CreateOrderDto → Order
new_order now id user dto = record {
  id = id;
  user_id = user;
  asset_id = dto.asset_id;
  side = dto.side;
  type = dto.type;
  status = pending;
  amount = dto.amount;
  filled_amount = 0;
  average_fill_price = none;
  price = if is_limit dto.type then dto.price else none;
  stop_price = if is_fixed_stop dto.type then dto.stop_price else none;
  trailing_delta = if is_trailing_stop dto.type then dto.trailing_delta else none;
  trailing_reference_price = none;
  triggered_at = none;
  filled_at = none;
  cancelled_at = none;
  expires_at = expiry now dto.expires_in_seconds;
  created_at = now;
}

-- A call of the matching engine in a transaction: the new state, and the taker as it is then.
unfoldable pub run_match : ℕ → Order → Db → Db × Order
run_match now taker db =
    let r = match_taker_order now taker db.orders db.trades db.events in
    (record db { orders = r.orders; trades = r.trades; events = r.events }, r.taker)

-- MARKET and LIMIT orders are matched at once.
unfoldable pub match_if : Bool → ℕ → Order → Db → Db × Order
match_if test now o db = if test then run_match now o db else (db, o)

unfoldable pub place_order : ℕ → String → ℕ → CreateOrderDto → Db → Outcome OrderError (Db × Order)
place_order now id user dto db = do
  validate_order_shape dto
  balances ← reserve user dto db.balances
  let o = new_order now id user dto
  let stored = record db { orders = db.orders ++ o ∷ []; balances = balances }
  let (db', o') = match_if (is_market dto.type || is_limit dto.type) now o stored
  returns (broadcast_order now o' db', o')

-- `max(0, locked - released)`.
unfoldable pub release : Order → List UserBalance → List UserBalance
release o balances =
    if is_sell o.side
    then elim (find_balance o.user_id o.asset_id balances) [
      | none ↦ balances
      | some b ↦
          save_balance (record b { locked_balance = b.locked_balance - remaining_amount o })
            balances
    ]
    else balances

unfoldable pub cancelled_order : ℕ → Order → Order
cancelled_order now o = record o { status = cancelled; cancelled_at = some now }

unfoldable pub cancel_order : ℕ → ℕ → String → Db → Outcome OrderError (Db × Order)
cancel_order now user id db = do
  existing ← or_fail (find_order id db.orders) order_not_found
  guard (existing.user_id == user) not_owner
  guard (not (is_closed existing.status)) not_cancellable
  let o = cancelled_order now existing
  let db' = record db { orders = save_order o db.orders; balances = release existing db.balances }
  returns (broadcast_order now o db', o)

-- The lock follows a SELL order's remaining amount from `old` to `new`.
unfoldable pub relock : Order → ℕ → ℕ → List UserBalance → Outcome OrderError (List UserBalance)
relock o old new balances =
    if is_sell o.side
    then (do
      b ← or_fail (find_balance o.user_id o.asset_id balances) no_balance
      guard (not (ltb old new && lacks b (new - old))) insufficient_balance
      returns (save_balance (record b { locked_balance = b.locked_balance + new - old }) balances))
    else returns balances

unfoldable pub modify_amount :
    Option ℕ → Order → List UserBalance → Outcome OrderError (List UserBalance × Order)
modify_amount none o balances = returns (balances, o)
modify_amount (some amount) o balances = do
  guard (leb o.filled_amount amount) amount_below_filled
  balances' ← relock o (remaining_amount o) (amount - o.filled_amount) balances
  returns (balances', record o { amount = amount })

unfoldable pub modify_price : Option ℕ → Order → Outcome OrderError Order
modify_price none o = returns o
modify_price (some p) o = do
  guard (is_limit o.type) price_not_limit
  returns (record o { price = some p })

unfoldable pub modify_stop_price : Option ℕ → Order → Outcome OrderError Order
modify_stop_price none o = returns o
modify_stop_price (some p) o = do
  guard (is_fixed_stop o.type) stop_price_not_stop
  returns (record o { stop_price = some p })

unfoldable pub modify_trailing_delta : Option ℕ → Order → Outcome OrderError Order
modify_trailing_delta none o = returns o
modify_trailing_delta (some d) o = do
  guard (is_trailing_stop o.type) delta_not_trailing
  returns (record o { trailing_delta = some d })

unfoldable pub modify_order : ℕ → ℕ → ModifyOrderDto → Db → Outcome OrderError (Db × Order)
modify_order now user dto db = do
  existing ← or_fail (find_order dto.order_id db.orders) order_not_found
  guard (existing.user_id == user) not_owner
  guard (is_resting existing.status) not_modifiable
  (balances, o1) ← modify_amount dto.amount existing db.balances
  o2 ← modify_price dto.price o1
  o3 ← modify_stop_price dto.stop_price o2
  o4 ← modify_trailing_delta dto.trailing_delta o3
  let stored = record db { orders = save_order o4 db.orders; balances = balances }
  let (db', o') = match_if (is_limit o4.type) now o4 stored
  returns (broadcast_order now o' db', o')

unfoldable pub get_order : ℕ → String → Db → Outcome OrderError Order
get_order user id db = do
  o ← or_fail (find_order id db.orders) order_not_found
  guard (o.user_id == user) not_owner
  returns o
