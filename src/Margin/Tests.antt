-- ===== src/Margin/Tests.antt =====
-- Runs of the services of src/margin, and their theorems at concrete inputs.
use peerx_backend.Common.{String, ℕ, ◌≡◌, refl, arith, true, none, [], ◌∷◌, text_keys, nat_keys}
use peerx_backend.Common.Int.{pos, ◌+ℤ◌, ◌-ℤ◌}
use peerx_backend.Common.Outcome.{throws, after}
use peerx_backend.Protection.State.{low, healthy, Protection}
use peerx_backend.Margin.State.{
  long, MarginPairConfig, MarginPosition, QuoteBalance, Margin, leverage_too_high,
}
use peerx_backend.Margin.Calculator.{
  calculate_unrealized_pnl, calculate_equity, should_liquidate, should_margin_call,
  calculate_liquidation_price, calculate_effective_max_leverage, calculate_position_size,
  compute_metrics,
}
use peerx_backend.Margin.Price.{metrics_test, is_reached, should_liquidate-liquidation_price}
use peerx_backend.Margin.Positions.{
  OpenMarginPosition, lock_and_create, open_position, settle_position_balance, close_position,
  liquidate_position, new_position,
}
use peerx_backend.Margin.Engine.{
  liquidate, trigger_margin_call, evaluate_position, monitor_from, asset_price, monitor_positions,
}
use peerx_backend.Margin.Interest.{
  Saving, both_saved, second_failed, accrue_for_position, has_accrued, accrue_from,
  accrue_daily_interest,
}
use peerx_backend.Margin.Finality.{EndsOnce, ended-EndsOnce}
use peerx_backend.Margin.Settlement.{IsReturned, open_position-close_position}
use peerx_backend.Margin.Daily.{accrue_daily_interest_twice}
use peerx_backend.Protection.Tests.{covering}

settling : Unit {0}
unfolding ◌+ℤ◌ ◌-ℤ◌ calculate_unrealized_pnl calculate_equity should_liquidate should_margin_call
    calculate_liquidation_price calculate_effective_max_leverage calculate_position_size
    compute_metrics lock_and_create open_position settle_position_balance close_position
    liquidate_position liquidate trigger_margin_call evaluate_position monitor_from asset_price
    accrue_for_position has_accrued accrue_from covering
settling = tt

abbrev pair : MarginPairConfig
pair = record {
  id = 1;
  base_asset_id = 1;
  quote_asset_id = 2;
  max_leverage = 1000;
  initial_margin_rate = 100000;
  maintenance_margin_rate = 50000;
  daily_interest_rate_bps = 10;
  volatility_pct = 50000;
  volatility_leverage_factor = 20000;
  margin_call_threshold_ratio = 11500;
  is_enabled = true;
}

abbrev insured : Protection
insured = record {
  tiers =
      record { id = 1; tier = low; min_reserve = 10; max_exposure = 1000; fee_contribution_pct = 5 }
      ∷ [];
  funds =
      record {
        id = 1;
        tier_id = 1;
        asset = "USDT";
        balance = 60;
        target_reserve = 400;
        health_status = healthy;
        health_percent = record { num = 50; den = 1 };
      }
      ∷ [];
  transactions = [];
  liquidations = [];
  events = [];
}

abbrev wallet : QuoteBalance
wallet = record { user_id = 7; asset_id = 2; balance = pos 1000; locked_balance = 0 }

abbrev at_price : ℕ → Margin
at_price price = record {
  configs = pair ∷ [];
  positions = [];
  balances = wallet ∷ [];
  assets = record { id = 1; price = price } ∷ [];
  accruals = [];
  insurance = insured;
  events = [];
}

abbrev order : ℕ → OpenMarginPosition
order leverage = record {
  user_id = 7;
  pair_config_id = 1;
  side = long;
  collateral = 200;
  leverage = leverage;
  entry_price = none;
}

too_much_leverage : open_position "a" (order 1100) (at_price 100) ≡ throws leverage_too_high
unfolding settling
too_much_leverage = refl

abbrev held : Margin
held = after (at_price 100) (open_position "a" (order 500) (at_price 100))

abbrev position : MarginPosition
position = new_position "a" (order 500) pair 100

-- The asset of the pair at another price.
abbrev priced : ℕ → Margin → Margin
priced price db = record db { assets = record { id = 1; price = price } ∷ [] }

abbrev locked_wallet : QuoteBalance
locked_wallet = record wallet { locked_balance = 200 }

-- A price of 75 loses 250: the user pays the collateral, the fund the rest.
loss_shared :
    (monitor_positions 5 (priced 75 held)).balances ≡ record wallet { balance = pos 800 } ∷ []
unfolding settling
loss_shared = refl

should_liquidate-liquidation_price_example :
    metrics_test long 10 100 84 200 0 50000
    ≡ is_reached long (calculate_liquidation_price long 10 100 200 50000 0) 84
should_liquidate-liquidation_price_example =
    should_liquidate-liquidation_price long 10 100 84 200 0 50000 (omega arith) (omega arith)
      (omega arith)

ended-EndsOnce_example : EndsOnce "a" 120 9 held
ended-EndsOnce_example = ended-EndsOnce "a" 120 9 held

open_position-close_position_example : IsReturned "a" 100 9 (at_price 100) held
open_position-close_position_example =
    open_position-close_position "a" (order 500) 9 (at_price 100) held position
      (unfold settling in refl) (tt, tt)

abbrev closed_again : Margin
closed_again = after held (close_position "a" 110 8 held)

abbrev all_saved : String → Saving
all_saved id = both_saved

abbrev half_saved : String → Saving
half_saved id = second_failed

accrue_daily_interest_twice_example :
    accrue_daily_interest half_saved 3 9 (accrue_daily_interest all_saved 3 8 held)
    ≡ accrue_daily_interest all_saved 3 8 held
accrue_daily_interest_twice_example =
    accrue_daily_interest_twice all_saved (λ id. refl) half_saved 3 8 9 held
