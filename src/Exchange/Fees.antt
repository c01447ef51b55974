-- ===== src/Exchange/Fees.antt =====
-- The fees of a swap shared among the positions, `distributeFeesToLps` of
-- src/exchange/services/liquidity-pool.service.ts.
use peerx_backend.Common.{
  ℕ, ◌+◌, ◌*◌, Option, List, nat_keys, text_keys, ◌==◌, if◌then◌else◌, sum_of,
}
use peerx_backend.Exchange.State.{LiquidityPool, PoolPosition, Exchange}
use peerx_backend.Exchange.Rounding.{IsNear}

-- The fees that the positions of a pool have earned, of both tokens, and how many positions it has.
abbrev pub fees_in : ℕ → PoolPosition → ℕ
fees_in k p = if p.pool_id == k then p.fees_earned_a + p.fees_earned_b else 0

abbrev pub fees_of : ℕ → List PoolPosition → ℕ
fees_of k rows = sum_of (fees_in k) rows

abbrev pub one_in : ℕ → PoolPosition → ℕ
one_in k p = if p.pool_id == k then 1 else 0

abbrev pub count_of : ℕ → List PoolPosition → ℕ
count_of k rows = sum_of (one_in k) rows

-- What the positions of the pool have earned after a swap, against what they had and the fee.
abbrev pub IsSharedOut : ℕ → ℕ → LiquidityPool → Exchange → Exchange → Type 0
IsSharedOut id amount pool db after =
    IsNear (count_of id db.positions) 10000
      (fees_of id db.positions * 10000 + amount * pool.fee_bps) (fees_of id after.positions)
