-- ===== src/Exchange/Swaps.antt =====
-- `swap` of src/exchange/services/liquidity-pool.service.ts taken apart: the direction, the quote and
-- what is saved.
use peerx_backend.Common.{
  ℕ, ◌≡◌, ◌⊎◌, Bool, true, false, Option, some, String, arith, Bool-cases, Option-cases, inl, inr,
  text_keys, nat_keys, ◌==◌,
}
use peerx_backend.Common.Outcome.{Outcome-cases, returns, returns-injective}
use peerx_backend.Common.Table.{find_row}
use peerx_backend.Orders.Order.{Ratio}
use peerx_backend.Exchange.State.{LiquidityPool, PoolSwap, Exchange, ExchangeError}
use peerx_backend.Exchange.Amm.{SwapQuote, get_amount_out}
use peerx_backend.Exchange.Pools.{pool_key, asset_row_key, is_active}
use peerx_backend.Exchange.Trades.{
  is_below_minimum, swapped_a, swapped_b, swap_saved, swap_a, swap_b, swap,
}

-- A swap that returns, of one of the two directions.
pub record IsSwapped (store : Ratio → ℕ) (id amount : ℕ) (db after : Exchange) (s : PoolSwap)
    (is_token_a : Bool) (ri ro : LiquidityPool → ℕ)
    (moved : LiquidityPool → ℕ → SwapQuote → LiquidityPool) : Type 0 where
  pub pool : LiquidityPool
  pub quote : SwapQuote
  pub user : ℕ
  pub token_in : String
  pub token_out : String
  pub found : find_row pool_key id db.pools ≡ some pool
  pub quoted : get_amount_out amount (ri pool) (ro pool) pool.fee_bps ≡ returns quote
  pub saved :
      swap_saved store pool
        (moved pool amount quote)
        is_token_a
        user
        token_in
        token_out
        amount
        quote
        db
      ≡ (after, s)

abbrev pub FromA : (Ratio → ℕ) → ℕ → ℕ → Exchange → Exchange → PoolSwap → Type 0
FromA store id amount db after s =
    IsSwapped store id amount db after s true (λ p. p.reserve_a) (λ p. p.reserve_b)
      (swapped_a store)

abbrev pub FromB : (Ratio → ℕ) → ℕ → ℕ → Exchange → Exchange → PoolSwap → Type 0
FromB store id amount db after s =
    IsSwapped store id amount db after s false (λ p. p.reserve_b) (λ p. p.reserve_a)
      (swapped_b store)

swap_a-IsSwapped :
    (store : Ratio → ℕ) (id : ℕ) (pool : LiquidityPool) (user : ℕ) (token_in token_out : String)
    (amount : ℕ) (least : Option ℕ) (db after : Exchange) (s : PoolSwap)
    → find_row pool_key id db.pools ≡ some pool
    → swap_a store pool user token_in token_out amount least db ≡ returns (after, s)
    → FromA store id amount db after s
unfolding swap_a
swap_a-IsSwapped store id pool user token_in token_out amount least db after s f h =
    elim (Outcome-cases (get_amount_out amount pool.reserve_a pool.reserve_b pool.fee_bps)) [
      | inr (x, e) ↦ ground arith
      | inl (q, e) ↦ elim (Bool-cases (is_below_minimum least q.amount_out)) [
        | inl below ↦ ground arith
        | inr enough ↦ record {
          pool = pool;
          quote = q;
          user = user;
          token_in = token_in;
          token_out = token_out;
          found = f;
          quoted = e;
          saved =
              returns-injective {E = ExchangeError}
                (swap_saved store pool (swapped_a store pool amount q) true user token_in token_out
                  amount q db)
                (after, s) (rw (e, enough) at h);
        }
      ]
    ]

swap_b-IsSwapped :
    (store : Ratio → ℕ) (id : ℕ) (pool : LiquidityPool) (user : ℕ) (token_in token_out : String)
    (amount : ℕ) (least : Option ℕ) (db after : Exchange) (s : PoolSwap)
    → find_row pool_key id db.pools ≡ some pool
    → swap_b store pool user token_in token_out amount least db ≡ returns (after, s)
    → FromB store id amount db after s
unfolding swap_b
swap_b-IsSwapped store id pool user token_in token_out amount least db after s f h =
    elim (Outcome-cases (get_amount_out amount pool.reserve_b pool.reserve_a pool.fee_bps)) [
      | inr (x, e) ↦ ground arith
      | inl (q, e) ↦ elim (Bool-cases (is_below_minimum least q.amount_out)) [
        | inl below ↦ ground arith
        | inr enough ↦ record {
          pool = pool;
          quote = q;
          user = user;
          token_in = token_in;
          token_out = token_out;
          found = f;
          quoted = e;
          saved =
              returns-injective {E = ExchangeError}
                (swap_saved store pool (swapped_b store pool amount q) false user token_in token_out
                  amount q db)
                (after, s) (rw (e, enough) at h);
        }
      ]
    ]

pub swap-IsSwapped :
    (store : Ratio → ℕ) (id user : ℕ) (token_in : String) (amount : ℕ) (least : Option ℕ)
    (db after : Exchange) (s : PoolSwap)
    → swap store id user token_in amount least db ≡ returns (after, s)
    → FromA store id amount db after s ⊎ FromB store id amount db after s
unfolding swap
swap-IsSwapped store id user token_in amount least db after s h =
    elim (Option-cases (find_row pool_key id db.pools)) [
      | inl missing ↦ ground arith
      | inr (p, f) ↦ elim (Bool-cases (is_active p.status)) [
        | inr stopped ↦ ground arith
        | inl live ↦ elim (Option-cases (find_row asset_row_key p.token_a_id db.assets)) [
          | inl missing ↦ ground arith
          | inr (a, fa) ↦ elim (Option-cases (find_row asset_row_key p.token_b_id db.assets)) [
            | inl missing ↦ ground arith
            | inr (b, fb) ↦ elim (Bool-cases (token_in == a.symbol)) [
              | inl is_a ↦ inl (
                  swap_a-IsSwapped store id p user token_in b.symbol amount least db after s f
                    (rw (f, live, fa, fb, is_a) at h))
              | inr not_a ↦ elim (Bool-cases (token_in == b.symbol)) [
                | inl is_b ↦ inr (
                    swap_b-IsSwapped store id p user token_in a.symbol amount least db after s f
                      (rw (f, live, fa, fb, not_a, is_b) at h))
                | inr not_b ↦ ground arith
              ]
            ]
          ]
        ]
      ]
    ]
