-- ===== src/Margin/Loss.antt =====
-- Who bears the loss of a liquidation: src/margin/services/liquidation-engine.service.ts with
-- margin-position.service.ts and the insurance funds of src/protection.
use peerx_backend.Common.{◌∷◌, ℕ, ◌+◌, ◌-◌, ◌≤◌, ◌≡◌, some, text_keys, nat_keys, pair_keys}
use peerx_backend.Common.Int.{ℤ, pos, pos_part, neg_part, ◌+ℤ◌, ◌-ℤ◌}
use peerx_backend.Common.Table.{find_row}
use peerx_backend.Protection.State.{Protection}
use peerx_backend.Protection.Ledger.{total_balance}
use peerx_backend.Margin.State.{
  liquidated, position_liquidated, MarginPosition, QuoteBalance, Margin,
}
use peerx_backend.Margin.Positions.{position_key, balance_key, pnl_at, equity_of}
use peerx_backend.Margin.Engine.{covered}

-- What a cover may take from the funds.
record IsWithin (shortfall : ℕ) (before after : Protection) : Type 0 where
  pub no_gain : total_balance after.funds ≤ total_balance before.funds
  pub at_most : total_balance before.funds ≤ total_balance after.funds + shortfall

-- A liquidation's loss, shared by the user, the funds and what stays uncovered; `copy` is the position
-- that the caller holds, `p` the row.
pub record IsShared (copy p : MarginPosition) (quote price : ℕ) (equity : ℤ) (b : QuoteBalance)
    (db after : Margin) : Type 0 where
  pub row : QuoteBalance
  pub position : MarginPosition
  pub shortfall : ℕ
  pub owed : shortfall ≡ neg_part (equity_of p price)
  pub reported :
      after.events ≡ position_liquidated p.id p.user_id price equity shortfall ∷ db.events
  pub asked : after.insurance ≡ covered copy.user_id shortfall copy.id db.insurance
  pub listed : find_row position_key p.id after.positions ≡ some position
  pub ended : position.status ≡ liquidated
  pub found : find_row balance_key (p.user_id, quote) after.balances ≡ some row
  pub charged :
      row.balance ≡ b.balance +ℤ (pnl_at p price +ℤ pos shortfall -ℤ pos p.accrued_interest)
  pub released : row.locked_balance ≡ b.locked_balance - p.collateral
  pub at_most_collateral :
      pos_part b.balance + neg_part row.balance
      ≤ pos_part row.balance + neg_part b.balance + p.collateral
  pub no_gain : total_balance after.insurance.funds ≤ total_balance db.insurance.funds
  pub funds_lose :
      total_balance db.insurance.funds ≤ total_balance after.insurance.funds + shortfall

abbrev pub marked : MarginPosition → ℕ → MarginPosition
marked p price = record p { unrealized_pnl = pnl_at p price }
