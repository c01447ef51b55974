-- ===== src/Exchange/History.antt =====
-- Every history of the operations of src/exchange/services/liquidity-pool.service.ts.
use peerx_backend.Common.{
  ℕ, ltb, leb, ltb→lt, ◌*◌, ◌<◌, ◌≡◌, refl, sym, ap, ◌∙◌, subst, true, false, Option, none, List,
  [], ◌∷◌, String, arith, Bool-cases, Option-cases, inl, inr, nat_keys, text_keys, ◌==◌,
  nat_same_iff,
}
use peerx_backend.Common.Outcome.{returns, returns-injective}
use peerx_backend.Common.Table.{find_row}
use peerx_backend.Exchange.State.{
  LiquidityPool, PoolSwap, EmergencyWithdrawal, PoolAsset, Exchange, ExchangeError,
}
use peerx_backend.Orders.Order.{Ratio}
use peerx_backend.Exchange.Amm.{
  lesser, LiquidityQuote, first_quote, later_quote, calculate_lp_tokens_to_mint, WithdrawQuote,
}
use peerx_backend.Exchange.Pools.{
  pool_key, asset_row_key, pair_taken, new_pool, create_pool, add_liquidity, remove_liquidity,
  emergency_withdraw,
}
use peerx_backend.Exchange.Trades.{swapped_a, swapped_b, swap}
use peerx_backend.Exchange.Swaps.{FromA, FromB, swap-IsSwapped}
use peerx_backend.Exchange.Shares.{
  add_liquidity-IsDeposited, remove_liquidity-IsWithdrawn, emergency_withdraw-IsWithdrawn,
}
use peerx_backend.Exchange.Supply.{supply_or_zero, supply_of, IsBalanced}
use peerx_backend.Exchange.Balanced.{
  KeepsWhole, IsDeposited-IsBalanced, IsWithdrawn-IsBalanced, swapped-IsBalanced,
}

-- Square roots have a denominator.
abbrev pub HasProperRoot : (ℕ → Ratio) → Type 0
HasProperRoot square_root = (n : ℕ) → 0 < (square_root n).den

lesser_proper : (a b : Ratio) → 0 < a.den → 0 < b.den → 0 < (lesser a b).den
lesser_proper a b h k = elim (Bool-cases (leb (a.num * b.den) (b.num * a.den))) [
  | inl less ↦ rw less h
  | inr more ↦ rw more k
]

later_quote_proper :
    (amount_a amount_b reserve_a reserve_b supply : ℕ)
    → 0 < reserve_a
    → 0 < reserve_b
    → 0 < (later_quote amount_a amount_b reserve_a reserve_b supply).lp_tokens_minted.den
later_quote_proper amount_a amount_b reserve_a reserve_b supply h k =
    lesser_proper (record { num = amount_a * supply; den = reserve_a })
      (record { num = amount_b * supply; den = reserve_b }) h k

minted_proper :
    (square_root : ℕ → Ratio) (amount_a amount_b reserve_a reserve_b supply : ℕ)
    (q : LiquidityQuote)
    → HasProperRoot square_root
    → calculate_lp_tokens_to_mint square_root amount_a amount_b reserve_a reserve_b supply
      ≡ returns q
    → 0 < q.lp_tokens_minted.den
unfolding calculate_lp_tokens_to_mint
minted_proper square_root amount_a amount_b reserve_a reserve_b supply q root h =
    elim (Bool-cases (ltb 0 amount_a)) [
      | inr none_a ↦ ground arith
      | inl some_a ↦ elim (Bool-cases (ltb 0 amount_b)) [
        | inr none_b ↦ ground arith
        | inl some_b ↦ elim (Bool-cases (supply == 0)) [
          | inl first ↦
              subst (λ (x : LiquidityQuote). 0 < x.lp_tokens_minted.den)
                (returns-injective {E = ExchangeError} (first_quote square_root amount_a amount_b) q
                  (rw (some_a, some_b, first) at h))
                (root (amount_a * amount_b))
          | inr later_one ↦ elim (Bool-cases (ltb 0 reserve_a)) [
            | inr empty ↦ ground arith
            | inl full_a ↦ elim (Bool-cases (ltb 0 reserve_b)) [
              | inr empty ↦ ground arith
              | inl full_b ↦
                  subst (λ (x : LiquidityQuote). 0 < x.lp_tokens_minted.den)
                    (returns-injective {E = ExchangeError}
                      (later_quote amount_a amount_b reserve_a reserve_b supply) q
                      (rw (some_a, some_b, later_one, full_a, full_b) at h))
                    (later_quote_proper amount_a amount_b reserve_a reserve_b supply
                      (ltb→lt 0 reserve_a full_a) (ltb→lt 0 reserve_b full_b))
            ]
          ]
        ]
      ]
    ]

abbrev pub empty_exchange : List PoolAsset → Exchange
empty_exchange assets = record {
  pools = [];
  positions = [];
  swaps = [];
  withdrawals = [];
  assets = assets;
}

-- A pool that is created has no supply, and nobody holds any.
supply_of-new_pool :
    (id a b : ℕ) (chain : String) (fee : Option ℕ) (pools : List LiquidityPool) (k : ℕ)
    → find_row pool_key id pools ≡ none
    → supply_of k (new_pool id a b chain fee ∷ pools) ≡ supply_of k pools
supply_of-new_pool id a b chain fee pools k absent = elim (Bool-cases (id == k)) [
  | inl is_new ↦
      let e : id ≡ k = (nat_same_iff id k).0 is_new in
      rw is_new (sym (ap supply_or_zero (subst (λ j. find_row pool_key j pools ≡ none) e absent)))
  | inr old ↦ rw old refl
]

create_pool-IsBalanced :
    (id a b : ℕ) (chain : String) (fee : Option ℕ) (p : LiquidityPool) (db after : Exchange)
    → find_row pool_key id db.pools ≡ none
    → create_pool id a b chain fee db ≡ returns (after, p)
    → IsBalanced db
    → IsBalanced after
unfolding create_pool
create_pool-IsBalanced id a b chain fee p db after absent h i = elim (Bool-cases (a == b)) [
  | inl same ↦ ground arith
  | inr differ ↦ elim (Option-cases (find_row asset_row_key a db.assets)) [
    | inl missing ↦ ground arith
    | inr (x, fx) ↦ elim (Option-cases (find_row asset_row_key b db.assets)) [
      | inl missing ↦ ground arith
      | inr (y, fy) ↦ elim (Bool-cases (pair_taken a b chain db.pools)) [
        | inl taken ↦ ground arith
        | inr free ↦
            let pool = new_pool id a b chain fee in
            let done : Exchange = record db { pools = pool ∷ db.pools } in
            let both =
              returns-injective {E = ExchangeError} (done, pool) (after, p)
                (rw (differ, fx, fy, free) at h) in
            subst IsBalanced (ap (λ r. r.0) both) record {
              balanced =
                  λ k. i.balanced k ∙ sym (supply_of-new_pool id a b chain fee db.pools k absent);
              unique = i.unique;
            }
      ]
    ]
  ]
]

module _ (store : Ratio → ℕ) (square_root : ℕ → Ratio) where
  -- An operation that returns; the database gives a new pool an identifier that no pool has.
  pub data Step (db after : Exchange) : Type 0 where
    creates :
        (id a b : ℕ) (chain : String) (fee : Option ℕ) (p : LiquidityPool)
        → find_row pool_key id db.pools ≡ none
        → create_pool id a b chain fee db ≡ returns (after, p)
        → Step db after
    adds :
        (id user amount_a amount_b : ℕ) (q : LiquidityQuote)
        → add_liquidity store square_root id user amount_a amount_b db ≡ returns (after, q)
        → Step db after
    removes :
        (id user lp : ℕ) (q : WithdrawQuote)
        → remove_liquidity store id user lp db ≡ returns (after, q)
        → Step db after
    withdraws :
        (id user lp : ℕ) (reason : String) (admin : Option ℕ) (w : EmergencyWithdrawal)
        → emergency_withdraw store id user lp reason admin db ≡ returns (after, w)
        → Step db after
    swaps :
        (id user : ℕ) (token_in : String) (amount : ℕ) (least : Option ℕ) (s : PoolSwap)
        → swap store id user token_in amount least db ≡ returns (after, s)
        → Step db after

  pub data Reached : Exchange → Type 0 where
    founded : (assets : List PoolAsset) → Reached (empty_exchange assets)
    later : {db after : Exchange} → Reached db → Step db after → Reached after

  add_liquidity_proper :
      (id user amount_a amount_b : ℕ) (db after : Exchange) (q : LiquidityQuote)
      → HasProperRoot square_root
      → add_liquidity store square_root id user amount_a amount_b db ≡ returns (after, q)
      → 0 < q.lp_tokens_minted.den
  add_liquidity_proper id user amount_a amount_b db after q root h =
      let d = add_liquidity-IsDeposited store square_root id user amount_a amount_b db after q h in
      minted_proper square_root amount_a amount_b d.pool.reserve_a d.pool.reserve_b
        d.pool.total_lp_supply q root d.quoted

  FromA-IsBalanced :
      (id amount : ℕ) (db after : Exchange) (s : PoolSwap)
      → FromA store id amount db after s
      → IsBalanced db
      → IsBalanced after
  FromA-IsBalanced id amount db after s w i =
      swapped-IsBalanced store id w.quote.fee_amount true w.pool
        (swapped_a store w.pool amount w.quote) db after w.found refl refl
        (sym (ap (λ r. r.0.pools) w.saved)) (sym (ap (λ r. r.0.positions) w.saved)) i

  FromB-IsBalanced :
      (id amount : ℕ) (db after : Exchange) (s : PoolSwap)
      → FromB store id amount db after s
      → IsBalanced db
      → IsBalanced after
  FromB-IsBalanced id amount db after s w i =
      swapped-IsBalanced store id w.quote.fee_amount false w.pool
        (swapped_b store w.pool amount w.quote) db after w.found refl refl
        (sym (ap (λ r. r.0.pools) w.saved)) (sym (ap (λ r. r.0.positions) w.saved)) i

  Step-IsBalanced :
      (db after : Exchange)
      → KeepsWhole store
      → HasProperRoot square_root
      → Step db after
      → IsBalanced db
      → IsBalanced after
  Step-IsBalanced db after keeps root (creates id a b chain fee p absent h) i =
      create_pool-IsBalanced id a b chain fee p db after absent h i
  Step-IsBalanced db after keeps root (adds id user amount_a amount_b q h) i =
      IsDeposited-IsBalanced store square_root id user amount_a amount_b db after q keeps
        (add_liquidity_proper id user amount_a amount_b db after q root h)
        (add_liquidity-IsDeposited store square_root id user amount_a amount_b db after q h) i
  Step-IsBalanced db after keeps root (removes id user lp q h) i =
      IsWithdrawn-IsBalanced store id user lp db after
        (remove_liquidity-IsWithdrawn store id user lp db after q h) i
  Step-IsBalanced db after keeps root (withdraws id user lp reason admin w h) i =
      IsWithdrawn-IsBalanced store id user lp db after
        (emergency_withdraw-IsWithdrawn store id user lp reason admin db after w h) i
  Step-IsBalanced db after keeps root (swaps id user token_in amount least s h) i =
      elim (swap-IsSwapped store id user token_in amount least db after s h) [
        | inl a ↦ FromA-IsBalanced id amount db after s a i
        | inr b ↦ FromB-IsBalanced id amount db after s b i
      ]

  -- If columns round fractions on top of whole numbers as they round fractions, and square roots are
  -- proper fractions: in every history of pools created, liquidity added and removed, emergency
  -- withdrawals and swaps, from tables without pools and positions, the supply of liquidity tokens of
  -- every pool is the sum of what its positions hold, and no user has two positions in a pool.
  pub Reached-IsBalanced :
      (db : Exchange) → KeepsWhole store → HasProperRoot square_root → Reached db → IsBalanced db
  Reached-IsBalanced _ keeps root (founded assets) = record { balanced = λ k. refl; unique = tt }
  Reached-IsBalanced after keeps root (later {db = db} r s) =
      Step-IsBalanced db after keeps root s (Reached-IsBalanced db keeps root r)
