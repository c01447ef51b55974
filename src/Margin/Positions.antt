-- ===== src/Margin/Positions.antt =====
-- src/margin/services/margin-position.service.ts. Identifiers and the clock are arguments.
use peerx_backend.Common.{
  ℕ, ◌+◌, ◌-◌, ◌*◌, ◌/◌, ◌^◌, Bool, not, Option, none, some, List, ◌∷◌, String, if◌then◌else◌, leb,
  ltb, nat_keys, text_keys, pair_keys, keep,
}
use peerx_backend.Common.Int.{ℤ, pos, pos_part, neg_part, ◌+ℤ◌, ◌-ℤ◌}
use peerx_backend.Common.Outcome.{Outcome, returns, ◌>>=◌, ◌>>◌, guard, or_fail}
use peerx_backend.Common.Table.{find_row, save_row}
use peerx_backend.Margin.State.{
  PositionSide, opened, liquidated, closed, is_live, MarginPairConfig, MarginPosition, QuoteBalance,
  VirtualAsset, Margin, MarginError, position_opened, config_not_found, disabled_pair,
  leverage_too_high, below_initial_margin, asset_not_found, invalid_price, no_balance,
  insufficient_margin, position_not_found, position_not_open,
}
use peerx_backend.Margin.Calculator.{
  calculate_unrealized_pnl, calculate_equity, calculate_liquidation_price,
  calculate_effective_max_leverage, calculate_borrowed_amount, calculate_position_size,
}

abbrev pub config_key : MarginPairConfig → ℕ
config_key c = c.id

abbrev pub asset_key : VirtualAsset → ℕ
asset_key a = a.id

abbrev pub position_key : MarginPosition → String
position_key p = p.id

abbrev pub balance_key : QuoteBalance → ℕ × ℕ
balance_key b = (b.user_id, b.asset_id)

pub record OpenMarginPosition : Type 0 where
  pub user_id : ℕ
  pub pair_config_id : ℕ
  pub side : PositionSide
  pub collateral : ℕ
  pub leverage : ℕ
  pub entry_price : Option ℕ

-- `dto.entryPrice ?? Number(baseAsset.price)`.
abbrev pub or_market_price : Option ℕ → ℕ → ℕ
or_market_price none market = market
or_market_price (some price) market = price

-- `Number(initialMarginRate) > 1 / leverage + 1e-8`, multiplied out.
abbrev pub needs_more_margin : ℕ → ℕ → Bool
needs_more_margin initial_rate leverage = ltb (10 ^ 10 + leverage) (initial_rate * leverage * 100)

-- `balance - lockedBalance < collateral` fails.
abbrev pub is_available : ℕ → QuoteBalance → Bool
is_available collateral b =
    leb (b.locked_balance + collateral + neg_part b.balance) (pos_part b.balance)

abbrev pub notional_of : OpenMarginPosition → ℕ
notional_of dto = dto.collateral * dto.leverage / 100

abbrev pub new_position : String → OpenMarginPosition → MarginPairConfig → ℕ → MarginPosition
new_position id dto c entry =
    let size = calculate_position_size (notional_of dto) entry in
    record {
      id = id;
      user_id = dto.user_id;
      pair_config_id = c.id;
      side = dto.side;
      size = size;
      entry_price = entry;
      leverage = dto.leverage;
      collateral = dto.collateral;
      borrowed_amount = calculate_borrowed_amount (notional_of dto) dto.collateral;
      liquidation_price =
          calculate_liquidation_price dto.side size entry dto.collateral c.maintenance_margin_rate
            0;
      unrealized_pnl = pos 0;
      accrued_interest = 0;
      status = opened;
      margin_call_notified_at = none;
      last_interest_accrual_at = none;
      closed_at = none;
      liquidated_at = none;
    }

-- The transaction of `openPosition`.
unfoldable pub lock_and_create :
    String
    → OpenMarginPosition
    → MarginPairConfig
    → ℕ
    → Margin
    → Outcome MarginError (Margin × MarginPosition)
lock_and_create id dto c entry db = do
  b ← or_fail (find_row balance_key (dto.user_id, c.quote_asset_id) db.balances) no_balance
  guard (is_available dto.collateral b) insufficient_margin
  let held = record b { locked_balance = b.locked_balance + dto.collateral }
  let p = new_position id dto c entry
  returns (
    record db {
      balances = save_row balance_key held db.balances;
      positions = p ∷ db.positions;
      events = position_opened id p.user_id c.id dto.side dto.leverage dto.collateral ∷ db.events;
    },
    p,
  )

unfoldable pub open_position :
    String → OpenMarginPosition → Margin → Outcome MarginError (Margin × MarginPosition)
open_position id dto db = do
  c ← or_fail (find_row config_key dto.pair_config_id db.configs) config_not_found
  guard c.is_enabled disabled_pair
  guard (leb dto.leverage (calculate_effective_max_leverage c)) leverage_too_high
  guard (not (needs_more_margin c.initial_margin_rate dto.leverage)) below_initial_margin
  asset ← or_fail (find_row asset_key c.base_asset_id db.assets) asset_not_found
  let entry = or_market_price dto.entry_price asset.price
  guard (ltb 0 entry) invalid_price
  lock_and_create id dto c entry db

abbrev pub settled : MarginPosition → ℤ → QuoteBalance → QuoteBalance
settled p equity b = record b {
  locked_balance = b.locked_balance - p.collateral;
  balance = b.balance +ℤ (equity -ℤ pos p.collateral);
}

unfoldable pub settle_position_balance :
    MarginPosition → ℕ → ℤ → List QuoteBalance → List QuoteBalance
settle_position_balance p quote_asset_id equity balances =
    elim (find_row balance_key (p.user_id, quote_asset_id) balances) [
      | none ↦ balances
      | some b ↦ save_row balance_key (settled p equity b) balances
    ]

abbrev pub pnl_at : MarginPosition → ℕ → ℤ
pnl_at p price = calculate_unrealized_pnl p.side p.size p.entry_price price

abbrev pub equity_of : MarginPosition → ℕ → ℤ
equity_of p price = calculate_equity p.collateral (pnl_at p price) p.accrued_interest

abbrev pub closing : MarginPosition → ℕ → ℕ → MarginPosition
closing p price now = record p {
  unrealized_pnl = pnl_at p price;
  status = closed;
  closed_at = some now;
}

abbrev pub liquidating : MarginPosition → ℕ → ℕ → MarginPosition
liquidating p price now = record p {
  unrealized_pnl = pnl_at p price;
  status = liquidated;
  liquidated_at = some now;
}

abbrev pub settled_and_saved :
    MarginPosition → MarginPosition → MarginPairConfig → ℤ → Margin → Margin
settled_and_saved p done c equity db = record db {
  balances = settle_position_balance p c.quote_asset_id equity db.balances;
  positions = save_row position_key done db.positions;
}

unfoldable pub close_position :
    String → ℕ → ℕ → Margin → Outcome MarginError (Margin × MarginPosition)
close_position id price now db = do
  p ← or_fail (find_row position_key id db.positions) position_not_found
  guard (is_live p.status) position_not_open
  c ← or_fail (find_row config_key p.pair_config_id db.configs) config_not_found
  let done = closing p price now
  returns (settled_and_saved p done c (equity_of p price) db, done)

pub record Liquidation : Type 0 where
  pub position : MarginPosition
  pub shortfall : ℕ

-- The part of `liquidatePosition` after its test.
abbrev pub liquidate_locked :
    MarginPosition → MarginPairConfig → ℕ → ℕ → Margin → Margin × Liquidation
liquidate_locked p c price now db =
    let equity = equity_of p price in
    let done = liquidating p price now in
    (
      settled_and_saved p done c (pos (pos_part equity)) db,
      record { position = done; shortfall = neg_part equity },
    )

unfoldable pub liquidate_position :
    MarginPosition → MarginPairConfig → ℕ → ℕ → Margin → Margin × Liquidation
liquidate_position position c price now db = elim (find_row position_key position.id db.positions) [
  | none ↦ (db, record { position = position; shortfall = 0 })
  | some p ↦
      if is_live p.status
      then liquidate_locked p c price now db
      else (db, record { position = p; shortfall = 0 })
]

abbrev pub get_open_positions : Margin → List MarginPosition
get_open_positions db = keep (λ p. is_live p.status) db.positions
