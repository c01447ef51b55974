-- ===== src/Margin/Interest.antt =====
-- src/margin/services/margin-interest.service.ts. A day is a number; whether the database
-- saves is an argument.
use peerx_backend.Common.{
  ℕ, ◌+◌, Bool, true, false, ◌&&◌, none, some, List, [], ◌∷◌, String, if◌then◌else◌, ◌==◌, nat_keys,
  text_keys,
}
use peerx_backend.Common.Table.{find_row}
use peerx_backend.Margin.State.{MarginPairConfig, MarginPosition, MarginInterestAccrual, Margin}
use peerx_backend.Margin.Calculator.{calculate_daily_interest}
use peerx_backend.Margin.Positions.{config_key, get_open_positions}
use peerx_backend.Margin.Engine.{save_position}

unfoldable pub accrue_for_position :
    MarginPosition → MarginPairConfig → ℕ → ℕ → Margin → Margin × MarginInterestAccrual
accrue_for_position position c day now db =
    let interest = calculate_daily_interest position.borrowed_amount c.daily_interest_rate_bps in
    let p = record position {
      accrued_interest = position.accrued_interest + interest;
      last_interest_accrual_at = some now;
    } in
    let r : MarginInterestAccrual = record {
      position_id = p.id;
      user_id = p.user_id;
      borrowed_amount = p.borrowed_amount;
      interest_amount = interest;
      daily_interest_rate_bps = c.daily_interest_rate_bps;
      accrued_total_after = p.accrued_interest;
      accrual_date = day;
    } in
    let saved = save_position p db in (record saved { accruals = r ∷ db.accruals }, r)

unfoldable pub has_accrued : String → ℕ → List MarginInterestAccrual → Bool
has_accrued id day [] = false
has_accrued id day (r ∷ rs) =
    if r.position_id == id && r.accrual_date == day then true else has_accrued id day rs

-- What the database does with the two saves for a position: it makes both, or fails at one.
pub data Saving : Type 0 where
  both_saved first_failed second_failed : Saving

-- `accrueForPosition` inside its `try`: a failure is caught, and what was saved before it stays.
abbrev pub attempted : Saving → MarginPosition → MarginPairConfig → ℕ → ℕ → Margin → Margin
attempted both_saved p c day now db = (accrue_for_position p c day now db).0
attempted first_failed p c day now db = db
attempted second_failed p c day now db = record db {
  positions = (accrue_for_position p c day now db).0.positions;
}

-- One turn of the loop.
abbrev pub accrued : (String → Saving) → ℕ → ℕ → MarginPosition → Margin → Margin
accrued saving day now p db =
    if p.borrowed_amount == 0 then db else elim (find_row config_key p.pair_config_id db.configs) [
      | none ↦ db
      | some c ↦
          if has_accrued p.id day db.accruals then db else attempted (saving p.id) p c day now db
    ]

unfoldable pub accrue_from : (String → Saving) → ℕ → ℕ → List MarginPosition → Margin → Margin
accrue_from saving day now [] db = db
accrue_from saving day now (p ∷ ps) db = accrue_from saving day now ps (accrued saving day now p db)

abbrev pub accrue_daily_interest : (String → Saving) → ℕ → ℕ → Margin → Margin
accrue_daily_interest saving day now db = accrue_from saving day now (get_open_positions db) db
