-- ===== src/Margin/Calculator.antt =====
-- src/margin/services/margin-calculator.service.ts. Quotients that the source stores in a column of
-- amounts are rounded down to the unit.
use peerx_backend.Common.{
  ℕ, ◌+◌, ◌-◌, ◌*◌, ◌/◌, ◌^◌, min, max, Bool, not, ◌&&◌, ◌||◌, if◌then◌else◌, leb, ltb, ◌==◌,
  nat_keys,
}
use peerx_backend.Common.Int.{ℤ, pos, pos_part, neg_part, sub_ℕ, ◌+ℤ◌, ◌-ℤ◌}
use peerx_backend.Orders.Order.{Ratio}
use peerx_backend.Margin.State.{PositionSide, long, short, MarginPairConfig}

abbrev pub million : ℕ
million = 1000000

abbrev pub calculate_notional : ℕ → ℕ → ℕ
calculate_notional size price = size * price

unfoldable pub calculate_unrealized_pnl : PositionSide → ℕ → ℕ → ℕ → ℤ
calculate_unrealized_pnl long size entry current = sub_ℕ (current * size) (entry * size)
calculate_unrealized_pnl short size entry current = sub_ℕ (entry * size) (current * size)

unfoldable pub calculate_equity : ℕ → ℤ → ℕ → ℤ
calculate_equity collateral pnl interest = pos collateral +ℤ pnl -ℤ pos interest

-- In millionths of a unit, as the rate is.
abbrev pub calculate_maintenance_requirement : ℕ → ℕ → ℕ
calculate_maintenance_requirement notional rate = notional * rate

-- `equity <= maintenanceRequirement`, in millionths.
unfoldable pub should_liquidate : ℤ → ℕ → Bool
should_liquidate equity requirement =
    leb (pos_part equity * million) (requirement + neg_part equity * million)

-- The ratio of equity and requirement against 1 and the threshold, multiplied out; without a
-- requirement the ratio is infinite.
unfoldable pub should_margin_call : ℤ → ℕ → ℕ → Bool
should_margin_call equity requirement threshold =
    not (requirement == 0)
    && leb (pos_part equity * million * 10000)
        (threshold * requirement + neg_part equity * million * 10000)
    && ltb (requirement + neg_part equity * million) (pos_part equity * million)

abbrev pub no_price : Ratio
no_price = record { num = 0; den = 1 }

-- A price is at least 0.
abbrev pub long_liquidation_price : ℕ → ℕ → ℕ → ℕ → ℕ → Ratio
long_liquidation_price size entry collateral rate interest =
    if rate == million
    then no_price
    else if ltb rate million
    then record {
      num = (entry * size + interest - collateral) * million;
      den = size * (million - rate);
    }
    else record {
      num = (collateral - (entry * size + interest)) * million;
      den = size * (rate - million);
    }

abbrev pub short_liquidation_price : ℕ → ℕ → ℕ → ℕ → ℕ → Ratio
short_liquidation_price size entry collateral rate interest = record {
  num = (collateral + entry * size - interest) * million;
  den = size * (million + rate);
}

unfoldable pub calculate_liquidation_price : PositionSide → ℕ → ℕ → ℕ → ℕ → ℕ → Ratio
calculate_liquidation_price side size entry collateral rate interest =
    if size == 0 then no_price else elim side [
      | long ↦ long_liquidation_price size entry collateral rate interest
      | short ↦ short_liquidation_price size entry collateral rate interest
    ]

-- In hundredths; the volatility in ten-thousandths of a percent, the factor in ten-thousandths.
unfoldable pub calculate_effective_max_leverage : MarginPairConfig → ℕ
calculate_effective_max_leverage c =
    if c.volatility_pct == 0 || c.volatility_leverage_factor == 0
    then c.max_leverage
    else min c.max_leverage
        (100 * max 1 (10 ^ 10 / (c.volatility_pct * c.volatility_leverage_factor)))

abbrev pub calculate_borrowed_amount : ℕ → ℕ → ℕ
calculate_borrowed_amount notional collateral = notional - collateral

unfoldable pub calculate_position_size : ℕ → ℕ → ℕ
calculate_position_size notional entry = if entry == 0 then 0 else notional / entry

abbrev pub calculate_daily_interest : ℕ → ℕ → ℕ
calculate_daily_interest borrowed bps = borrowed * bps / 10000

pub record MarginMetrics : Type 0 where
  pub notional : ℕ
  pub equity : ℤ
  pub maintenance_requirement : ℕ
  pub unrealized_pnl : ℤ

-- The margin ratio is not kept: it is the quotient of two fields.
unfoldable pub compute_metrics : PositionSide → ℕ → ℕ → ℕ → ℕ → ℕ → ℕ → MarginMetrics
compute_metrics side size entry current collateral interest rate =
    let notional = calculate_notional size current in
    let pnl = calculate_unrealized_pnl side size entry current in
    record {
      notional = notional;
      equity = calculate_equity collateral pnl interest;
      maintenance_requirement = calculate_maintenance_requirement notional rate;
      unrealized_pnl = pnl;
    }
