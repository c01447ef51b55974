-- ===== src/Margin/Price.antt =====
-- The liquidation price of src/margin/services/margin-calculator.service.ts against the test for
-- liquidation at a price.
use peerx_backend.Common.{ℕ, sym, ◌+◌, ◌-◌, ◌*◌, ◌<◌, ◌≡◌, Bool, arith, leb, nat_keys}
use native.Mathlib.Nat.{mul-pos}
use peerx_backend.Common.Int.{
  ℤ, pos, pos_part, neg_part, sub_ℕ, ◌+ℤ◌, sub_ℕ_parts, +ℤ_parts, -ℤ_parts,
}
use peerx_backend.Orders.Order.{Ratio}
use peerx_backend.Margin.State.{PositionSide, long, short}
use peerx_backend.Margin.Calculator.{
  million, calculate_unrealized_pnl, calculate_equity, should_liquidate,
  calculate_liquidation_price, compute_metrics,
}

-- The two parts of an equity.
pub equity_parts :
    (collateral interest : ℕ) (pnl : ℤ)
    → pos_part (calculate_equity collateral pnl interest) + interest + neg_part pnl
      ≡ neg_part (calculate_equity collateral pnl interest) + collateral + pos_part pnl
unfolding calculate_equity
equity_parts collateral interest pnl =
    omega (arith, +ℤ_parts (pos collateral) pnl, -ℤ_parts (pos collateral +ℤ pnl) (pos interest))

-- The price has reached a liquidation price: from above for a long position, from below for a short
-- one.
abbrev pub is_reached : PositionSide → Ratio → ℕ → Bool
is_reached long price current = leb (current * price.den) price.num
is_reached short price current = leb price.num (current * price.den)

abbrev pub equity_at : PositionSide → ℕ → ℕ → ℕ → ℕ → ℕ → ℤ
equity_at side size entry collateral interest current =
    calculate_equity collateral (calculate_unrealized_pnl side size entry current) interest

equity_at-long :
    (size entry collateral interest current : ℕ)
    → pos_part (equity_at long size entry collateral interest current) + interest + entry * size
      ≡ neg_part (equity_at long size entry collateral interest current)
        + collateral
        + current * size
unfolding calculate_unrealized_pnl
equity_at-long size entry collateral interest current = omega (
  arith,
  equity_parts collateral interest (sub_ℕ (current * size) (entry * size)),
  sub_ℕ_parts (current * size) (entry * size),
)

equity_at-short :
    (size entry collateral interest current : ℕ)
    → pos_part (equity_at short size entry collateral interest current) + interest + current * size
      ≡ neg_part (equity_at short size entry collateral interest current)
        + collateral
        + entry * size
unfolding calculate_unrealized_pnl
equity_at-short size entry collateral interest current = omega (
  arith,
  equity_parts collateral interest (sub_ℕ (entry * size) (current * size)),
  sub_ℕ_parts (entry * size) (current * size),
)

long_test :
    (p n a b c r x y : ℕ)
    → p + a + b ≡ n + c + x
    → 0 < y
    → x * million ≡ y + r
    → leb (p * million) (r + n * million) ≡ leb y ((b + a - c) * million)
long_test p n a b c r x y h l w = ground arith

short_test :
    (p n a b c r x y : ℕ)
    → p + a + x ≡ n + c + b
    → x * million + r ≡ y
    → leb (p * million) (r + n * million) ≡ leb ((c + b - a) * million) y
short_test p n a b c r x y h w = ground arith

abbrev pub metrics_test : PositionSide → ℕ → ℕ → ℕ → ℕ → ℕ → ℕ → Bool
metrics_test side size entry current collateral interest rate =
    let m = compute_metrics side size entry current collateral interest rate in
    should_liquidate m.equity m.maintenance_requirement

price-long :
    (size entry collateral interest rate : ℕ)
    → 0 < size
    → rate < million
    → calculate_liquidation_price long size entry collateral rate interest ≡ record {
      num = (entry * size + interest - collateral) * million;
      den = size * (million - rate);
    }
unfolding calculate_liquidation_price
price-long size entry collateral interest rate s r = ground arith

price-short :
    (size entry collateral interest rate : ℕ)
    → 0 < size
    → calculate_liquidation_price short size entry collateral rate interest ≡ record {
      num = (collateral + entry * size - interest) * million;
      den = size * (million + rate);
    }
unfolding calculate_liquidation_price
price-short size entry collateral interest rate s = ground arith

parts_of_notional :
    (size current rate rest : ℕ)
    → rate + rest ≡ million
    → current * size * million ≡ current * (size * rest) + size * current * rate
parts_of_notional size current rate rest h = rw (sym h) (grind arith)

positive_product : (a b c : ℕ) → 0 < a → 0 < b → 0 < c → 0 < a * (b * c)
positive_product a b c h k l = mul-pos h (mul-pos k l)

-- For a position of positive size, with a rate below 1 and interest accrued so far, at a current
-- price above 0: the monitor's test for liquidation succeeds exactly when that price has reached
-- the liquidation price that is computed with the same interest.
pub should_liquidate-liquidation_price :
    (side : PositionSide) (size entry current collateral interest rate : ℕ)
    → 0 < size
    → 0 < current
    → rate < million
    → metrics_test side size entry current collateral interest rate
      ≡ is_reached side
          (calculate_liquidation_price side size entry collateral rate interest)
          current
unfolding compute_metrics should_liquidate
should_liquidate-liquidation_price long size entry current collateral interest rate s c r =
    rw (price-long size entry collateral interest rate s r) (
      long_test _ _ interest (entry * size) collateral (size * current * rate) (current * size)
        (current * (size * (million - rate)))
        (equity_at-long size entry collateral interest current)
        (positive_product current size (million - rate) c s (omega arith))
        (parts_of_notional size current rate (million - rate) (omega arith)))
should_liquidate-liquidation_price short size entry current collateral interest rate s c r =
    rw (price-short size entry collateral interest rate s) (
      short_test _ _ interest (entry * size) collateral (size * current * rate) (current * size)
        (current * (size * (million + rate)))
        (equity_at-short size entry collateral interest current) (grind arith))
