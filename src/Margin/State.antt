-- ===== src/Margin/State.antt =====
-- The entities and enums of src/margin. Prices are whole quote units for one base unit, amounts whole
-- units; leverage is counted in hundredths, rates in millionths, the columns for volatility and
-- thresholds in ten-thousandths, as their scales say.
use peerx_backend.Common.{ℕ, Bool, true, false, Option, List, String}
use peerx_backend.Common.Int.{ℤ}
use peerx_backend.Orders.Order.{Ratio}
use peerx_backend.Protection.State.{Protection}

pub data PositionSide : Type 0 where
  long short : PositionSide

pub data PositionStatus : Type 0 where
  opened margin_call liquidated closed : PositionStatus

-- OPEN or MARGIN_CALL.
abbrev pub is_live : PositionStatus → Bool
is_live opened = true
is_live margin_call = true
is_live _ = false

abbrev pub is_margin_call : PositionStatus → Bool
is_margin_call margin_call = true
is_margin_call _ = false

pub record MarginPairConfig : Type 0 where
  pub id : ℕ
  pub base_asset_id : ℕ
  pub quote_asset_id : ℕ
  pub max_leverage : ℕ
  pub initial_margin_rate : ℕ
  pub maintenance_margin_rate : ℕ
  pub daily_interest_rate_bps : ℕ
  pub volatility_pct : ℕ
  pub volatility_leverage_factor : ℕ
  pub margin_call_threshold_ratio : ℕ
  pub is_enabled : Bool

pub record MarginPosition : Type 0 where
  pub id : String
  pub user_id : ℕ
  pub pair_config_id : ℕ
  pub side : PositionSide
  pub size : ℕ
  pub entry_price : ℕ
  pub leverage : ℕ
  pub collateral : ℕ
  pub borrowed_amount : ℕ
  pub liquidation_price : Ratio
  pub unrealized_pnl : ℤ
  pub accrued_interest : ℕ
  pub status : PositionStatus
  pub margin_call_notified_at : Option ℕ
  pub last_interest_accrual_at : Option ℕ
  pub closed_at : Option ℕ
  pub liquidated_at : Option ℕ

pub record MarginInterestAccrual : Type 0 where
  pub position_id : String
  pub user_id : ℕ
  pub borrowed_amount : ℕ
  pub interest_amount : ℕ
  pub daily_interest_rate_bps : ℕ
  pub accrued_total_after : ℕ
  pub accrual_date : ℕ

-- A row of src/database/entities/user-balance.entity.ts; a settlement may take it below 0.
pub record QuoteBalance : Type 0 where
  pub user_id : ℕ
  pub asset_id : ℕ
  pub balance : ℤ
  pub locked_balance : ℕ

pub record VirtualAsset : Type 0 where
  pub id : ℕ
  pub price : ℕ

-- A margin call carries its margin ratio as equity and requirement.
pub data MarginEvent : Type 0 where
  position_opened : String → ℕ → ℕ → PositionSide → ℕ → ℕ → MarginEvent
  margin_call_sent : String → ℕ → ℕ → ℕ → ℤ → ℕ → Ratio → MarginEvent
  position_liquidated : String → ℕ → ℕ → ℤ → ℕ → MarginEvent

-- The tables, the insurance funds among them, and the events, newest first.
pub record Margin : Type 0 where
  pub configs : List MarginPairConfig
  pub positions : List MarginPosition
  pub balances : List QuoteBalance
  pub assets : List VirtualAsset
  pub accruals : List MarginInterestAccrual
  pub insurance : Protection
  pub events : List MarginEvent

pub data MarginError : Type 0 where
  config_not_found disabled_pair leverage_too_high below_initial_margin : MarginError
  asset_not_found invalid_price no_balance insufficient_margin : MarginError
  position_not_found position_not_open : MarginError
