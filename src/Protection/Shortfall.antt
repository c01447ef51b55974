-- ===== src/Protection/Shortfall.antt =====
-- src/protection/services/liquidation-protection.service.ts. The funds that are read before the
-- transaction come from an earlier state of the tables, which others may have changed since.
use peerx_backend.Common.{
  ℕ, ◌-◌, min, Bool, not, Option, none, some, List, [], ◌∷◌, ◌++◌, String, if◌then◌else◌, ltb, ◌==◌,
  nat_keys, keep,
}
use peerx_backend.Common.Outcome.{Outcome, returns, throws, ◌>>=◌, ◌>>◌, guard, or_fail}
use peerx_backend.Common.Table.{find_row}
use peerx_backend.Protection.State.{
  FundTier, low, medium, high, critical, same_tier, payout, InsuranceFund, InsuranceTransaction,
  Protection, ProtectionError, fund_not_found, insufficient_balance, invalid_shortfall,
  liquidation_shortfall, insurance_payout,
}
use peerx_backend.Protection.Funds.{
  fund_key, update_fund_health, get_funds_by_tier, execute_record_transaction,
}

abbrev pub tier_priority : List FundTier
tier_priority = low ∷ medium ∷ high ∷ critical ∷ []

abbrev pub tiers_to_try : Option FundTier → List FundTier
tiers_to_try none = tier_priority
tiers_to_try (some t) = t ∷ keep (λ u. not (same_tier u t)) tier_priority

pub record FundUse : Type 0 where
  pub fund_id : ℕ
  pub amount : ℕ
  pub tier : FundTier

-- The variables of the walk over the tiers, with the tables as the transaction sees them.
pub record Walk : Type 0 where
  pub db : Protection
  pub remaining : ℕ
  pub funds_used : List FundUse
  pub primary_fund_id : Option ℕ

-- A tier with no fund is skipped; another failure would be passed on.
abbrev pub found_or_skipped : Outcome ProtectionError InsuranceFund → Option InsuranceFund
found_or_skipped (returns f) = some f
found_or_skipped (throws e) = none

-- A payout that the balance does not cover is caught; other errors are thrown again.
abbrev pub attempt :
    Outcome ProtectionError (Protection × InsuranceTransaction)
    → Outcome ProtectionError (Option Protection)
attempt (returns (db, t)) = returns (some db)
attempt (throws insufficient_balance) = returns none
attempt (throws e) = throws e

unfoldable pub pay :
    ℕ → Option String → ℕ → ℕ → Protection → Outcome ProtectionError (Option Protection)
pay user position id amount db =
    attempt (execute_record_transaction id payout amount position (some user) db)

abbrev pub or_else_primary : Option ℕ → ℕ → Option ℕ
or_else_primary none id = some id
or_else_primary (some p) id = some p

-- What is noted after a payout, if there was one.
abbrev pub noted : ℕ → FundTier → ℕ → Walk → Option Protection → Walk
noted id tier amount w none = w
noted id tier amount w (some db) = record {
  db = db;
  remaining = w.remaining - amount;
  funds_used = w.funds_used ++ record { fund_id = id; amount = amount; tier = tier } ∷ [];
  primary_fund_id = or_else_primary w.primary_fund_id id;
}

-- The second attempt, with the balance that the transaction sees.
unfoldable pub pay_again : ℕ → Option String → FundTier → ℕ → Walk → Outcome ProtectionError Walk
pay_again user position tier id w = do
  fresh ← or_fail (find_row fund_key id w.db.funds) fund_not_found
  let amount = min fresh.balance w.remaining
  let second = do paid ← pay user position id amount w.db; returns (noted id tier amount w paid)
  if fresh.balance == 0 then returns w else second

unfoldable pub pay_first :
    ℕ → Option String → FundTier → InsuranceFund → Walk → Outcome ProtectionError Walk
pay_first user position tier f w = do
  let amount = min f.balance w.remaining
  paid ← pay user position f.id amount w.db
  elim paid [
    | some db ↦ returns (noted f.id tier amount w (some db))
    | none ↦ pay_again user position tier f.id w
  ]

abbrev pub cover_from :
    ℕ → Option String → FundTier → Option InsuranceFund → Walk → Outcome ProtectionError Walk
cover_from user position tier none w = returns w
cover_from user position tier (some f) w =
    if f.balance == 0 then returns w else pay_first user position tier f w

-- The loop; `break` when nothing remains.
unfoldable pub walk_tiers :
    ℕ
    → Option String
    → (FundTier → Option InsuranceFund)
    → List FundTier
    → Walk
    → Outcome ProtectionError Walk
walk_tiers user position seen [] w = returns w
walk_tiers user position seen (tier ∷ tiers) w =
    if w.remaining == 0
    then returns w
    else (do v ← cover_from user position tier (seen tier) w; walk_tiers user position seen tiers v)

pub record CoverShortfallResult : Type 0 where
  pub covered_amount : ℕ
  pub remaining_shortfall : ℕ
  pub cascade_prevented : Bool
  pub funds_used : List FundUse

unfoldable pub refresh_health : List FundUse → Protection → Outcome ProtectionError Protection
refresh_health [] db = returns db
refresh_health (u ∷ us) db = do
  (after, _) ← update_fund_health u.fund_id db
  refresh_health us after

abbrev pub result_of : ℕ → Walk → CoverShortfallResult
result_of shortfall w = record {
  covered_amount = shortfall - w.remaining;
  remaining_shortfall = w.remaining;
  cascade_prevented = w.remaining == 0;
  funds_used = w.funds_used;
}

abbrev pub with_liquidation : ℕ → ℕ → Option String → Walk → Protection
with_liquidation user shortfall position w = record w.db {
  liquidations =
      record {
        user_id = user;
        position_id = position;
        shortfall_amount = shortfall;
        covered_amount = shortfall - w.remaining;
        fund_id = w.primary_fund_id;
        cascade_prevented = w.remaining == 0;
      }
      ∷ w.db.liquidations;
}

abbrev pub emitted : ℕ → ℕ → CoverShortfallResult → Protection → Protection
emitted user shortfall r db =
    let said =
      liquidation_shortfall user shortfall r.covered_amount r.cascade_prevented ∷ db.events in
    record db {
      events =
          if ltb 0 r.covered_amount then insurance_payout user r.covered_amount ∷ said else said;
    }

unfoldable pub cover_shortfall :
    ℕ
    → ℕ
    → Option String
    → String
    → Option FundTier
    → Protection
    → Protection
    → Outcome ProtectionError (Protection × CoverShortfallResult)
cover_shortfall user shortfall position asset preferred before db = do
  guard (ltb 0 shortfall) invalid_shortfall
  let seen = λ (t : FundTier). found_or_skipped (get_funds_by_tier t asset before)
  let w : Walk = record { db = db; remaining = shortfall; funds_used = []; primary_fund_id = none }
  v ← walk_tiers user position seen (tiers_to_try preferred) w
  let r = result_of shortfall v
  committed ← refresh_health v.funds_used (with_liquidation user shortfall position v)
  returns (emitted user shortfall r committed, r)
