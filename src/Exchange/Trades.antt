-- ===== src/Exchange/Trades.antt =====
-- The swaps of src/exchange/services/liquidity-pool.service.ts, and how their fees are shared. `store`
-- is what a decimal column makes of a fraction.
use peerx_backend.Common.{
  ℕ, ◌+◌, ◌*◌, Bool, true, false, not, Option, none, some, List, ◌∷◌, String, map, if◌then◌else◌,
  ltb, ◌==◌, nat_keys, text_keys, pair_keys,
}
use peerx_backend.Common.Outcome.{Outcome, returns, throws, ◌>>=◌, ◌>>◌, guard, or_fail}
use peerx_backend.Common.Table.{find_row, save_row}
use peerx_backend.Exchange.State.{
  LiquidityPool, PoolPosition, PoolSwap, Exchange, ExchangeError, asset_not_found, pool_not_active,
  token_not_in_pool, below_minimum,
}
use peerx_backend.Orders.Order.{Ratio}
use peerx_backend.Exchange.Amm.{plus, minus, SwapQuote, get_amount_out, distribute_fees}
use peerx_backend.Exchange.Pools.{pool_key, asset_row_key, is_active, get_pool}

abbrev pub credited : (Ratio → ℕ) → Bool → Ratio → PoolPosition → PoolPosition
credited store is_token_a share p =
    if is_token_a
    then record p { fees_earned_a = store (plus p.fees_earned_a share) }
    else record p { fees_earned_b = store (plus p.fees_earned_b share) }

abbrev pub fee_credited : (Ratio → ℕ) → LiquidityPool → Ratio → Bool → PoolPosition → PoolPosition
fee_credited store pool fee is_token_a p =
    if p.pool_id == pool.id
    then credited store is_token_a (distribute_fees fee p.lp_amount pool.total_lp_supply) p
    else p

abbrev pub distribute_fees_to_lps :
    (Ratio → ℕ) → LiquidityPool → Ratio → Bool → List PoolPosition → List PoolPosition
distribute_fees_to_lps store pool fee is_token_a rows =
    map (fee_credited store pool fee is_token_a) rows

-- The pool after a swap of token A for token B, and the other way.
abbrev pub swapped_a : (Ratio → ℕ) → LiquidityPool → ℕ → SwapQuote → LiquidityPool
swapped_a store p amount q = record p {
  reserve_a = p.reserve_a + amount;
  reserve_b = store (minus p.reserve_b q.amount_out);
  accumulated_fees_a = store (plus p.accumulated_fees_a q.fee_amount);
  total_volume = p.total_volume + amount;
  total_swaps = p.total_swaps + 1;
}

abbrev pub swapped_b : (Ratio → ℕ) → LiquidityPool → ℕ → SwapQuote → LiquidityPool
swapped_b store p amount q = record p {
  reserve_b = p.reserve_b + amount;
  reserve_a = store (minus p.reserve_a q.amount_out);
  accumulated_fees_b = store (plus p.accumulated_fees_b q.fee_amount);
  total_volume = p.total_volume + amount;
  total_swaps = p.total_swaps + 1;
}

-- What is saved once the direction is known.
abbrev pub swap_saved :
    (Ratio → ℕ)
    → LiquidityPool
    → LiquidityPool
    → Bool
    → ℕ
    → String
    → String
    → ℕ
    → SwapQuote
    → Exchange
    → Exchange × PoolSwap
swap_saved store pool after is_token_a user token_in token_out amount q db =
    let s : PoolSwap = record {
      pool_id = pool.id;
      user_id = user;
      token_in = token_in;
      token_out = token_out;
      amount_in = amount;
      amount_out = store q.amount_out;
      fee_paid = store q.fee_amount;
      price_impact = q.price_impact;
    } in
    (
      record db {
        pools = save_row pool_key after db.pools;
        positions = distribute_fees_to_lps store pool q.fee_amount is_token_a db.positions;
        swaps = s ∷ db.swaps;
      },
      s,
    )

-- `dto.minAmountOut && quote.amountOut < dto.minAmountOut`.
abbrev pub is_below_minimum : Option ℕ → Ratio → Bool
is_below_minimum none out = false
is_below_minimum (some least) out = ltb out.num (least * out.den)

unfoldable pub swap_a :
    (Ratio → ℕ)
    → LiquidityPool
    → ℕ
    → String
    → String
    → ℕ
    → Option ℕ
    → Exchange
    → Outcome ExchangeError (Exchange × PoolSwap)
swap_a store pool user token_in token_out amount least db = do
  q ← get_amount_out amount pool.reserve_a pool.reserve_b pool.fee_bps
  guard (not (is_below_minimum least q.amount_out)) below_minimum
  returns (
      swap_saved store pool (swapped_a store pool amount q) true user token_in token_out amount q
        db)

unfoldable pub swap_b :
    (Ratio → ℕ)
    → LiquidityPool
    → ℕ
    → String
    → String
    → ℕ
    → Option ℕ
    → Exchange
    → Outcome ExchangeError (Exchange × PoolSwap)
swap_b store pool user token_in token_out amount least db = do
  q ← get_amount_out amount pool.reserve_b pool.reserve_a pool.fee_bps
  guard (not (is_below_minimum least q.amount_out)) below_minimum
  returns (
      swap_saved store pool (swapped_b store pool amount q) false user token_in token_out amount q
        db)

unfoldable pub swap :
    (Ratio → ℕ)
    → ℕ
    → ℕ
    → String
    → ℕ
    → Option ℕ
    → Exchange
    → Outcome ExchangeError (Exchange × PoolSwap)
swap store id user token_in amount least db = do
  pool ← get_pool id db
  guard (is_active pool.status) pool_not_active
  token_a ← or_fail (find_row asset_row_key pool.token_a_id db.assets) asset_not_found
  token_b ← or_fail (find_row asset_row_key pool.token_b_id db.assets) asset_not_found
  let from_a = swap_a store pool user token_in token_b.symbol amount least db
  let from_b = swap_b store pool user token_in token_a.symbol amount least db
  if token_in == token_a.symbol
      then from_a
      else if token_in == token_b.symbol
      then from_b
      else throws token_not_in_pool
