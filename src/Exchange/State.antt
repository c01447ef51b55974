-- ===== src/Exchange/State.antt =====
-- The entities, enums and transfer objects of src/exchange. Amounts are whole numbers of the smallest
-- unit; columns that no operation reads (statistics of time, relations) are not carried.
use peerx_backend.Common.{ℕ, Option, List, String}
use peerx_backend.Orders.Order.{Ratio}

pub data PoolStatus : Type 0 where
  active paused emergency : PoolStatus

pub data EmergencyWithdrawalStatus : Type 0 where
  pending approved completed rejected : EmergencyWithdrawalStatus

pub record LiquidityPool : Type 0 where
  pub id : ℕ
  pub token_a_id : ℕ
  pub token_b_id : ℕ
  pub chain_id : String
  pub reserve_a : ℕ
  pub reserve_b : ℕ
  pub total_lp_supply : ℕ
  pub fee_bps : ℕ
  pub status : PoolStatus
  pub accumulated_fees_a : ℕ
  pub accumulated_fees_b : ℕ
  pub total_volume : ℕ
  pub total_swaps : ℕ

pub record PoolPosition : Type 0 where
  pub pool_id : ℕ
  pub user_id : ℕ
  pub lp_amount : ℕ
  pub deposited_amount_a : ℕ
  pub deposited_amount_b : ℕ
  pub fees_earned_a : ℕ
  pub fees_earned_b : ℕ

-- A swap is always COMPLETED.
pub record PoolSwap : Type 0 where
  pub pool_id : ℕ
  pub user_id : ℕ
  pub token_in : String
  pub token_out : String
  pub amount_in : ℕ
  pub amount_out : ℕ
  pub fee_paid : ℕ
  pub price_impact : Ratio

pub record EmergencyWithdrawal : Type 0 where
  pub pool_id : ℕ
  pub user_id : ℕ
  pub lp_amount_burned : ℕ
  pub amount_a : ℕ
  pub amount_b : ℕ
  pub reason : String
  pub status : EmergencyWithdrawalStatus
  pub admin_approved_by : Option ℕ

pub record PoolAsset : Type 0 where
  pub id : ℕ
  pub symbol : String

-- The tables; swaps and withdrawals newest first.
pub record Exchange : Type 0 where
  pub pools : List LiquidityPool
  pub positions : List PoolPosition
  pub swaps : List PoolSwap
  pub withdrawals : List EmergencyWithdrawal
  pub assets : List PoolAsset

pub data ExchangeError : Type 0 where
  same_token asset_not_found pool_exists pool_not_found pool_not_active : ExchangeError
  deposit_not_positive reserves_not_positive pool_in_emergency insufficient_lp : ExchangeError
  lp_not_positive no_lp_supply lp_exceeds_supply : ExchangeError
  amount_in_not_positive insufficient_liquidity token_not_in_pool below_minimum : ExchangeError
