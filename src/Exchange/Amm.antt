-- ===== src/Exchange/Amm.antt =====
-- src/exchange/services/amm.service.ts. A quote is an exact fraction, as the source does not round it;
-- `Math.sqrt` is a parameter. A fee is at most 10000 basis points here; the source sets it no bound.
use peerx_backend.Common.{ℕ, ◌+◌, ◌-◌, ◌*◌, ◌||◌, if◌then◌else◌, leb, ltb, ◌==◌, nat_keys}
use peerx_backend.Common.Outcome.{Outcome, returns, ◌>>◌, guard}
use peerx_backend.Orders.Order.{Ratio}
use peerx_backend.Exchange.State.{
  ExchangeError, deposit_not_positive, reserves_not_positive, lp_not_positive, no_lp_supply,
  lp_exceeds_supply, amount_in_not_positive, insufficient_liquidity,
}

-- A number as a fraction, and a fraction added to a number and taken from it.
abbrev pub whole : ℕ → Ratio
whole n = record { num = n; den = 1 }

abbrev pub plus : ℕ → Ratio → Ratio
plus n r = record { num = n * r.den + r.num; den = r.den }

abbrev pub minus : ℕ → Ratio → Ratio
minus n r = record { num = n * r.den - r.num; den = r.den }

-- `Math.min`.
abbrev pub lesser : Ratio → Ratio → Ratio
lesser a b = if leb (a.num * b.den) (b.num * a.den) then a else b

pub record SwapQuote : Type 0 where
  pub amount_out : Ratio
  pub fee_amount : Ratio
  pub price_impact : Ratio

-- `amountIn * feeMultiplier`, in ten-thousandths.
abbrev pub amount_in_with_fee : ℕ → ℕ → ℕ
amount_in_with_fee amount fee_bps = amount * (10000 - fee_bps)

unfoldable pub amount_out_of : ℕ → ℕ → ℕ → ℕ → Ratio
amount_out_of amount reserve_in reserve_out fee_bps =
    let with_fee = amount_in_with_fee amount fee_bps in
    record { num = with_fee * reserve_out; den = reserve_in * 10000 + with_fee }

-- The fall of the price in percent of the price before.
abbrev pub impact_of : ℕ → Ratio → ℕ → ℕ → Ratio
impact_of amount out reserve_in reserve_out =
    let before = reserve_out * out.den * (reserve_in + amount) in
    record { num = 100 * (before - (minus reserve_out out).num * reserve_in); den = before }

unfoldable pub get_amount_out : ℕ → ℕ → ℕ → ℕ → Outcome ExchangeError SwapQuote
get_amount_out amount reserve_in reserve_out fee_bps = do
  guard (ltb 0 amount) amount_in_not_positive
  guard (ltb 0 reserve_in) insufficient_liquidity
  guard (ltb 0 reserve_out) insufficient_liquidity
  let out = amount_out_of amount reserve_in reserve_out fee_bps
  returns record {
    amount_out = out;
    fee_amount = record { num = amount * fee_bps; den = 10000 };
    price_impact = impact_of amount out reserve_in reserve_out;
  }

pub record LiquidityQuote : Type 0 where
  pub lp_tokens_minted : Ratio
  pub amount_a : Ratio
  pub amount_b : Ratio

abbrev pub first_quote : (ℕ → Ratio) → ℕ → ℕ → LiquidityQuote
first_quote square_root amount_a amount_b = record {
  lp_tokens_minted = square_root (amount_a * amount_b);
  amount_a = whole amount_a;
  amount_b = whole amount_b;
}

abbrev pub later_quote : ℕ → ℕ → ℕ → ℕ → ℕ → LiquidityQuote
later_quote amount_a amount_b reserve_a reserve_b supply =
    let from_a : Ratio = record { num = amount_a * supply; den = reserve_a } in
    let from_b : Ratio = record { num = amount_b * supply; den = reserve_b } in
    let minted = lesser from_a from_b in
    record {
      lp_tokens_minted = minted;
      amount_a = record { num = minted.num * reserve_a; den = minted.den * supply };
      amount_b = record { num = minted.num * reserve_b; den = minted.den * supply };
    }

unfoldable pub calculate_lp_tokens_to_mint :
    (ℕ → Ratio) → ℕ → ℕ → ℕ → ℕ → ℕ → Outcome ExchangeError LiquidityQuote
calculate_lp_tokens_to_mint square_root amount_a amount_b reserve_a reserve_b supply = do
  guard (ltb 0 amount_a) deposit_not_positive
  guard (ltb 0 amount_b) deposit_not_positive
  let later = do
    guard (ltb 0 reserve_a) reserves_not_positive
    guard (ltb 0 reserve_b) reserves_not_positive
    returns (later_quote amount_a amount_b reserve_a reserve_b supply)
  if supply == 0 then returns (first_quote square_root amount_a amount_b) else later

pub record WithdrawQuote : Type 0 where
  pub amount_a : Ratio
  pub amount_b : Ratio

abbrev pub share_of : ℕ → ℕ → ℕ → ℕ → WithdrawQuote
share_of lp supply reserve_a reserve_b = record {
  amount_a = record { num = reserve_a * lp; den = supply };
  amount_b = record { num = reserve_b * lp; den = supply };
}

unfoldable pub calculate_withdraw_amounts : ℕ → ℕ → ℕ → ℕ → Outcome ExchangeError WithdrawQuote
calculate_withdraw_amounts lp supply reserve_a reserve_b = do
  guard (ltb 0 lp) lp_not_positive
  guard (ltb 0 supply) no_lp_supply
  guard (leb lp supply) lp_exceeds_supply
  returns (share_of lp supply reserve_a reserve_b)

unfoldable pub distribute_fees : Ratio → ℕ → ℕ → Ratio
distribute_fees fee lp supply =
    if supply == 0 || lp == 0
    then whole 0
    else record { num = fee.num * lp; den = fee.den * supply }
