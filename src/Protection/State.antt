-- ===== src/Protection/State.antt =====
-- The entities and enums of src/protection. Amounts are whole numbers of the smallest unit; columns
-- that no operation reads (names, descriptions, metadata, notes) are not carried.
use peerx_backend.Common.{ℕ, Bool, true, false, Option, List, String, nat_keys}

pub data FundTier : Type 0 where
  low medium high critical : FundTier

pub data FundHealthStatus : Type 0 where
  healthy warning critical_health depleted : FundHealthStatus

pub data InsuranceTxType : Type 0 where
  deposit payout fee_contribution replenishment : InsuranceTxType

abbrev pub same_tier : FundTier → FundTier → Bool
same_tier low low = true
same_tier medium medium = true
same_tier high high = true
same_tier critical critical = true
same_tier _ _ = false

-- A percentage as a fraction.
pub record Percent : Type 0 where
  pub num : ℕ
  pub den : ℕ

pub record InsuranceFundTier : Type 0 where
  pub id : ℕ
  pub tier : FundTier
  pub min_reserve : ℕ
  pub max_exposure : ℕ
  pub fee_contribution_pct : ℕ

pub record InsuranceFund : Type 0 where
  pub id : ℕ
  pub tier_id : ℕ
  pub asset : String
  pub balance : ℕ
  pub target_reserve : ℕ
  pub health_status : FundHealthStatus
  pub health_percent : Percent

pub record InsuranceTransaction : Type 0 where
  pub fund_id : ℕ
  pub type : InsuranceTxType
  pub amount : ℕ
  pub balance_before : ℕ
  pub balance_after : ℕ
  pub reference_id : Option String
  pub user_id : Option ℕ

-- `status` is COVERED or PARTIAL, as `cascade_prevented` says.
pub record LiquidationEvent : Type 0 where
  pub user_id : ℕ
  pub position_id : Option String
  pub shortfall_amount : ℕ
  pub covered_amount : ℕ
  pub fund_id : Option ℕ
  pub cascade_prevented : Bool

-- The domain events that the services emit.
pub data ProtectionEvent : Type 0 where
  fund_health_alert : ℕ → Percent → ℕ → ℕ → ProtectionEvent
  liquidation_shortfall : ℕ → ℕ → ℕ → Bool → ProtectionEvent
  insurance_payout : ℕ → ℕ → ProtectionEvent

-- The tables; transactions and events newest first.
pub record Protection : Type 0 where
  pub tiers : List InsuranceFundTier
  pub funds : List InsuranceFund
  pub transactions : List InsuranceTransaction
  pub liquidations : List LiquidationEvent
  pub events : List ProtectionEvent

pub data ProtectionError : Type 0 where
  fund_not_found tier_not_found insufficient_balance invalid_shortfall : ProtectionError
