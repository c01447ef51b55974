-- ===== src/Orders/Order.antt =====
-- The order entity (src/orders/entities/order.entity.ts) and its enums
-- (src/common/enums/order-type.enum.ts). Decimal columns are numbers of their last digit (10^-8 of
-- a unit); times are milliseconds; identifiers are the source's strings and numbers.
use peerx_backend.Common.{ℕ, ◌-◌, Bool, true, false, Option, none, some, String}

pub data OrderSide : Type 0 where
  buy sell : OrderSide

pub data OrderType : Type 0 where
  market limit stop_loss take_profit trailing_stop : OrderType

pub data OrderStatus : Type 0 where
  pending partial filled cancelled triggered rejected : OrderStatus

abbrev pub opposite : OrderSide → OrderSide
opposite buy = sell
opposite sell = buy

abbrev pub same_side : OrderSide → OrderSide → Bool
same_side buy buy = true
same_side sell sell = true
same_side _ _ = false

abbrev pub is_limit : OrderType → Bool
is_limit limit = true
is_limit _ = false

abbrev pub is_market : OrderType → Bool
is_market market = true
is_market _ = false

abbrev pub is_fixed_stop : OrderType → Bool
is_fixed_stop stop_loss = true
is_fixed_stop take_profit = true
is_fixed_stop _ = false

abbrev pub is_trailing_stop : OrderType → Bool
is_trailing_stop trailing_stop = true
is_trailing_stop _ = false

abbrev pub is_pending : OrderStatus → Bool
is_pending pending = true
is_pending _ = false

-- `status IN (PENDING, PARTIAL)`.
abbrev pub is_resting : OrderStatus → Bool
is_resting pending = true
is_resting partial = true
is_resting _ = false

-- `status === FILLED || status === CANCELLED`.
abbrev pub is_closed : OrderStatus → Bool
is_closed filled = true
is_closed cancelled = true
is_closed _ = false

-- An exact quotient. A zero denominator stands for JavaScript's NaN, which 0 / 0 gives and which
-- every later sum and product keeps.
pub record Ratio : Type 0 where
  pub num : ℕ
  pub den : ℕ

pub record Order : Type 0 where
  pub id : String
  pub user_id : ℕ
  pub asset_id : ℕ
  pub side : OrderSide
  pub type : OrderType
  pub status : OrderStatus
  pub amount : ℕ
  pub filled_amount : ℕ
  pub average_fill_price : Option Ratio
  pub price : Option ℕ
  pub stop_price : Option ℕ
  pub trailing_delta : Option ℕ
  pub trailing_reference_price : Option ℕ
  pub triggered_at : Option ℕ
  pub filled_at : Option ℕ
  pub cancelled_at : Option ℕ
  pub expires_at : Option ℕ
  pub created_at : ℕ

-- `amount - filledAmount`; no order is filled beyond its amount, so nothing is cut off at 0.
abbrev pub remaining_amount : Order → ℕ
remaining_amount o = o.amount - o.filled_amount

-- `Number(x ?? 0)` and `Number(null)`.
abbrev pub number : Option ℕ → ℕ
number none = 0
number (some n) = n
