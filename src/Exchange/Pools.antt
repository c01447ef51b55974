-- ===== src/Exchange/Pools.antt =====
-- src/exchange/services/liquidity-pool.service.ts. The identifier that the database gives a new pool
-- is an argument, and so is `store`, what a decimal column makes of a fraction.
use peerx_backend.Common.{
  ℕ, ◌-◌, ◌*◌, Bool, true, false, not, ◌&&◌, Option, none, some, List, [], ◌∷◌, String,
  if◌then◌else◌, leb, ◌==◌, nat_keys, text_keys, pair_keys,
}
use peerx_backend.Common.Outcome.{Outcome, returns, ◌>>=◌, ◌>>◌, guard, or_fail}
use peerx_backend.Common.Table.{find_row, save_row}
use peerx_backend.Exchange.State.{
  PoolStatus, active, emergency, pending, completed, EmergencyWithdrawalStatus, LiquidityPool,
  PoolPosition, EmergencyWithdrawal, PoolAsset, Exchange, ExchangeError, same_token,
  asset_not_found, pool_exists, pool_not_found, pool_not_active, pool_in_emergency, insufficient_lp,
}
use peerx_backend.Orders.Order.{Ratio}
use peerx_backend.Exchange.Amm.{
  plus, minus, LiquidityQuote, calculate_lp_tokens_to_mint, WithdrawQuote,
  calculate_withdraw_amounts,
}

abbrev pub pool_key : LiquidityPool → ℕ
pool_key p = p.id

abbrev pub asset_row_key : PoolAsset → ℕ
asset_row_key a = a.id

abbrev pub share_key : PoolPosition → ℕ × ℕ
share_key p = (p.pool_id, p.user_id)

abbrev pub is_active : PoolStatus → Bool
is_active active = true
is_active _ = false

abbrev pub is_emergency : PoolStatus → Bool
is_emergency emergency = true
is_emergency _ = false

unfoldable pub pair_taken : ℕ → ℕ → String → List LiquidityPool → Bool
pair_taken a b chain [] = false
pair_taken a b chain (p ∷ ps) =
    if p.token_a_id == a && p.token_b_id == b && p.chain_id == chain
    then true
    else pair_taken a b chain ps

-- `dto.feeBps ?? 30`.
abbrev pub or_default_fee : Option ℕ → ℕ
or_default_fee none = 30
or_default_fee (some fee) = fee

abbrev pub new_pool : ℕ → ℕ → ℕ → String → Option ℕ → LiquidityPool
new_pool id a b chain fee = record {
  id = id;
  token_a_id = a;
  token_b_id = b;
  chain_id = chain;
  reserve_a = 0;
  reserve_b = 0;
  total_lp_supply = 0;
  fee_bps = or_default_fee fee;
  status = active;
  accumulated_fees_a = 0;
  accumulated_fees_b = 0;
  total_volume = 0;
  total_swaps = 0;
}

unfoldable pub create_pool :
    ℕ → ℕ → ℕ → String → Option ℕ → Exchange → Outcome ExchangeError (Exchange × LiquidityPool)
create_pool id a b chain fee db = do
  guard (not (a == b)) same_token
  token_a ← or_fail (find_row asset_row_key a db.assets) asset_not_found
  token_b ← or_fail (find_row asset_row_key b db.assets) asset_not_found
  guard (not (pair_taken a b chain db.pools)) pool_exists
  let pool = new_pool id a b chain fee
  returns (record db { pools = pool ∷ db.pools }, pool)

abbrev pub get_pool : ℕ → Exchange → Outcome ExchangeError LiquidityPool
get_pool id db = or_fail (find_row pool_key id db.pools) pool_not_found

abbrev pub first_position : (Ratio → ℕ) → ℕ → ℕ → LiquidityQuote → PoolPosition
first_position store pool user q = record {
  pool_id = pool;
  user_id = user;
  lp_amount = store q.lp_tokens_minted;
  deposited_amount_a = store q.amount_a;
  deposited_amount_b = store q.amount_b;
  fees_earned_a = 0;
  fees_earned_b = 0;
}

abbrev pub more_liquidity : (Ratio → ℕ) → PoolPosition → LiquidityQuote → PoolPosition
more_liquidity store p q = record p {
  lp_amount = store (plus p.lp_amount q.lp_tokens_minted);
  deposited_amount_a = store (plus p.deposited_amount_a q.amount_a);
  deposited_amount_b = store (plus p.deposited_amount_b q.amount_b);
}

abbrev pub with_liquidity : (Ratio → ℕ) → LiquidityPool → LiquidityQuote → LiquidityPool
with_liquidity store p q = record p {
  reserve_a = store (plus p.reserve_a q.amount_a);
  reserve_b = store (plus p.reserve_b q.amount_b);
  total_lp_supply = store (plus p.total_lp_supply q.lp_tokens_minted);
}

-- The position is updated, or created when there is none.
unfoldable pub deposited :
    (Ratio → ℕ) → ℕ → ℕ → LiquidityQuote → List PoolPosition → List PoolPosition
deposited store pool user q rows = elim (find_row share_key (pool, user) rows) [
  | none ↦ first_position store pool user q ∷ rows
  | some p ↦ save_row share_key (more_liquidity store p q) rows
]

unfoldable pub add_liquidity :
    (Ratio → ℕ)
    → (ℕ → Ratio)
    → ℕ
    → ℕ
    → ℕ
    → ℕ
    → Exchange
    → Outcome ExchangeError (Exchange × LiquidityQuote)
add_liquidity store square_root id user amount_a amount_b db = do
  pool ← get_pool id db
  guard (is_active pool.status) pool_not_active
  q ←
      calculate_lp_tokens_to_mint square_root amount_a amount_b pool.reserve_a pool.reserve_b
        pool.total_lp_supply
  returns (
    record db {
      pools = save_row pool_key (with_liquidity store pool q) db.pools;
      positions = deposited store id user q db.positions;
    },
    q,
  )

-- `!position || position.lpAmount < lpAmount` fails.
abbrev pub holding : ℕ → ℕ → ℕ → Exchange → Outcome ExchangeError PoolPosition
holding pool user lp db = do
  p ← or_fail (find_row share_key (pool, user) db.positions) insufficient_lp
  guard (leb lp p.lp_amount) insufficient_lp
  returns p

abbrev pub without_liquidity : (Ratio → ℕ) → LiquidityPool → ℕ → WithdrawQuote → LiquidityPool
without_liquidity store p lp q = record p {
  reserve_a = store (minus p.reserve_a q.amount_a);
  reserve_b = store (minus p.reserve_b q.amount_b);
  total_lp_supply = p.total_lp_supply - lp;
}

-- `deposited * (1 - depositShare)`.
abbrev pub less_liquidity : (Ratio → ℕ) → PoolPosition → ℕ → PoolPosition
less_liquidity store p lp = record p {
  lp_amount = p.lp_amount - lp;
  deposited_amount_a =
      store (record { num = p.deposited_amount_a * (p.lp_amount - lp); den = p.lp_amount });
  deposited_amount_b =
      store (record { num = p.deposited_amount_b * (p.lp_amount - lp); den = p.lp_amount });
}

unfoldable pub remove_liquidity :
    (Ratio → ℕ) → ℕ → ℕ → ℕ → Exchange → Outcome ExchangeError (Exchange × WithdrawQuote)
remove_liquidity store id user lp db = do
  pool ← get_pool id db
  guard (not (is_emergency pool.status)) pool_in_emergency
  p ← holding id user lp db
  q ← calculate_withdraw_amounts lp pool.total_lp_supply pool.reserve_a pool.reserve_b
  returns (
    record db {
      pools = save_row pool_key (without_liquidity store pool lp q) db.pools;
      positions = save_row share_key (less_liquidity store p lp) db.positions;
    },
    q,
  )

abbrev pub withdrawal_status : Option ℕ → EmergencyWithdrawalStatus
withdrawal_status none = pending
withdrawal_status (some admin) = if admin == 0 then pending else completed

unfoldable pub emergency_withdraw :
    (Ratio → ℕ)
    → ℕ
    → ℕ
    → ℕ
    → String
    → Option ℕ
    → Exchange
    → Outcome ExchangeError (Exchange × EmergencyWithdrawal)
emergency_withdraw store id user lp reason admin db = do
  pool ← get_pool id db
  p ← holding id user lp db
  q ← calculate_withdraw_amounts lp pool.total_lp_supply pool.reserve_a pool.reserve_b
  let w : EmergencyWithdrawal = record {
    pool_id = id;
    user_id = user;
    lp_amount_burned = lp;
    amount_a = store q.amount_a;
    amount_b = store q.amount_b;
    reason = reason;
    status = withdrawal_status admin;
    admin_approved_by = admin;
  }
  returns (
    record db {
      pools = save_row pool_key (without_liquidity store pool lp q) db.pools;
      positions = save_row share_key (record p { lp_amount = p.lp_amount - lp }) db.positions;
      withdrawals = w ∷ db.withdrawals;
    },
    w,
  )
