-- ===== src/Exchange/Balanced.antt =====
-- Histories of src/exchange/services/liquidity-pool.service.ts, and what every one keeps.
use peerx_backend.Common.{
  ℕ, ◌<◌, ◌+◌, ◌≡◌, ◌≢◌, refl, sym, ap, ◌∙◌, subst, Bool, true, false, some, List, [], ◌∷◌, arith,
  Bool-cases, Option-cases, inl, inr, nat_keys, pair_keys, text_keys, ◌==◌,
}
use peerx_backend.Common.Table.{
  find_row, save_row, Unique, save_row-Unique, find_row-eq-none, map-Unique,
}
use peerx_backend.Exchange.State.{LiquidityPool, PoolPosition, Exchange}
use peerx_backend.Orders.Order.{Ratio}
use peerx_backend.Exchange.Amm.{plus, LiquidityQuote}
use peerx_backend.Exchange.Pools.{
  pool_key, share_key, first_position, more_liquidity, with_liquidity, deposited,
}
use peerx_backend.Exchange.Trades.{credited, fee_credited, distribute_fees_to_lps}
use peerx_backend.Exchange.Shares.{IsDeposited, IsWithdrawn}
use peerx_backend.Exchange.Supply.{
  lp_in, held_of, IsBalanced, saved_together, lp_in_self, lp_in_ne, held_of-save_row, pool_of,
}

-- What a change of the positions of one pool does to what they hold.
record IsChanged (id gain loss : ℕ) (rows after : List PoolPosition) : Type 0 where
  here : held_of id after + loss ≡ held_of id rows + gain
  apart : (k : ℕ) → id ≢ k → held_of k after ≡ held_of k rows
  unique : Unique share_key after

saved-IsChanged :
    (id user gain loss : ℕ) (a b : PoolPosition) (rows : List PoolPosition)
    → Unique share_key rows
    → find_row share_key (id, user) rows ≡ some b
    → share_key a ≡ share_key b
    → a.lp_amount + loss ≡ b.lp_amount + gain
    → IsChanged id gain loss rows (save_row share_key a rows)
saved-IsChanged id user gain loss a b rows u f same by =
    let b_pool : b.pool_id ≡ id = pool_of id user b rows f in
    let a_pool : a.pool_id ≡ id = ap (λ k. k.0) same ∙ b_pool in
    record {
      here = omega (
        arith,
        by,
        held_of-save_row id id user a b rows u f same,
        lp_in_self id a a_pool,
        lp_in_self id b b_pool,
      );
      apart = λ k d. omega (
        arith,
        held_of-save_row k id user a b rows u f same,
        lp_in_ne k a (λ e. d (sym a_pool ∙ e)),
        lp_in_ne k b (λ e. d (sym b_pool ∙ e)),
      );
      unique = save_row-Unique share_key a rows u;
    }

-- What the columns rely on: rounding a fraction on top of a whole number rounds the fraction, and the
-- fractions of a quote have a denominator.
abbrev pub KeepsWhole : (Ratio → ℕ) → Type 0
KeepsWhole store = (n : ℕ) (r : Ratio) → 0 < r.den → store (plus n r) ≡ n + store r

deposited-IsChanged :
    (store : Ratio → ℕ) (id user : ℕ) (q : LiquidityQuote) (rows : List PoolPosition)
    → KeepsWhole store
    → 0 < q.lp_tokens_minted.den
    → Unique share_key rows
    → IsChanged id (store q.lp_tokens_minted) 0 rows (deposited store id user q rows)
unfolding deposited
deposited-IsChanged store id user q rows keeps proper u =
    elim (Option-cases (find_row share_key (id, user) rows)) [
      | inl absent ↦
          rw (deposited, absent)
            (let first = first_position store id user q in
              record {
                here = omega (arith, lp_in_self id first refl);
                apart = λ k d. omega (arith, lp_in_ne k first d);
                unique = (find_row-eq-none share_key (id, user) rows absent, u);
              })
      | inr (p, f) ↦
          rw (deposited, f)
            (saved-IsChanged id user (store q.lp_tokens_minted) 0 (more_liquidity store p q) p rows
              u f refl (omega (arith, keeps p.lp_amount q.lp_tokens_minted proper)))
    ]

pub IsDeposited-IsBalanced :
    (store : Ratio → ℕ) (square_root : ℕ → Ratio) (id user amount_a amount_b : ℕ)
    (db after : Exchange) (q : LiquidityQuote)
    → KeepsWhole store
    → 0 < q.lp_tokens_minted.den
    → IsDeposited store square_root id user amount_a amount_b db after q
    → IsBalanced db
    → IsBalanced after
IsDeposited-IsBalanced store square_root id user amount_a amount_b db after q keeps proper d i =
    let c = deposited-IsChanged store id user q db.positions keeps proper i.unique in
    let minted = keeps d.pool.total_lp_supply q.lp_tokens_minted proper in
    record {
      balanced = λ k.
          rw (sym d.pools, sym d.positions)
            (saved_together id d.pool (with_liquidity store d.pool q) db.pools db.positions
              (deposited store id user q db.positions) d.found refl (omega (arith, c.here, minted))
              c.apart i.balanced k);
      unique = subst (Unique share_key) d.positions c.unique;
    }

pub IsWithdrawn-IsBalanced :
    (store : Ratio → ℕ) (id user lp : ℕ) (db after : Exchange)
    → IsWithdrawn store id user lp db after
    → IsBalanced db
    → IsBalanced after
IsWithdrawn-IsBalanced store id user lp db after w i =
    let c =
      saved-IsChanged id user 0 lp w.row w.position db.positions i.unique w.owned w.same_key
        (omega (arith, w.burned, w.enough)) in
    record {
      balanced = λ k.
          rw (sym w.pools, sym w.positions)
            (saved_together id w.pool _ db.pools db.positions
              (save_row share_key w.row db.positions) w.found refl
              (omega (arith, c.here, w.supplied)) c.apart i.balanced k);
      unique = subst (Unique share_key) w.positions c.unique;
    }

-- Fees change neither what is held nor the keys.
credited_lp :
    (store : Ratio → ℕ) (a : Bool) (share : Ratio) (k : ℕ) (p : PoolPosition)
    → lp_in k (credited store a share p) ≡ lp_in k p
credited_lp store true share k p = refl
credited_lp store false share k p = refl

credited_key :
    (store : Ratio → ℕ) (a : Bool) (share : Ratio) (p : PoolPosition)
    → share_key (credited store a share p) ≡ share_key p
credited_key store true share p = refl
credited_key store false share p = refl

fee_credited_lp :
    (store : Ratio → ℕ) (pool : LiquidityPool) (fee : Ratio) (a : Bool) (k : ℕ) (p : PoolPosition)
    → lp_in k (fee_credited store pool fee a p) ≡ lp_in k p
fee_credited_lp store pool fee a k p = elim (Bool-cases (p.pool_id == pool.id)) [
  | inl own ↦ rw own (credited_lp store a _ k p)
  | inr other ↦ rw other refl
]

fee_credited_key :
    (store : Ratio → ℕ) (pool : LiquidityPool) (fee : Ratio) (a : Bool) (p : PoolPosition)
    → share_key (fee_credited store pool fee a p) ≡ share_key p
fee_credited_key store pool fee a p = elim (Bool-cases (p.pool_id == pool.id)) [
  | inl own ↦ rw own (credited_key store a _ p)
  | inr other ↦ rw other refl
]

held_of-distribute_fees_to_lps :
    (store : Ratio → ℕ) (k : ℕ) (pool : LiquidityPool) (fee : Ratio) (a : Bool)
    (rows : List PoolPosition)
    → held_of k (distribute_fees_to_lps store pool fee a rows) ≡ held_of k rows
held_of-distribute_fees_to_lps store k pool fee a [] = refl
held_of-distribute_fees_to_lps store k pool fee a (r ∷ rows) = omega (
  arith,
  fee_credited_lp store pool fee a k r,
  held_of-distribute_fees_to_lps store k pool fee a rows,
)

pub swapped-IsBalanced :
    (store : Ratio → ℕ) (id : ℕ) (fee : Ratio) (a : Bool) (p q : LiquidityPool)
    (db after : Exchange)
    → find_row pool_key id db.pools ≡ some p
    → q.id ≡ p.id
    → q.total_lp_supply ≡ p.total_lp_supply
    → after.pools ≡ save_row pool_key q db.pools
    → after.positions ≡ distribute_fees_to_lps store p fee a db.positions
    → IsBalanced db
    → IsBalanced after
swapped-IsBalanced store id fee a p q db after f same supply pools positions i = record {
  balanced = λ k.
      rw (pools, positions)
        (saved_together id p q db.pools db.positions
          (distribute_fees_to_lps store p fee a db.positions) f same
          (omega (arith, supply, held_of-distribute_fees_to_lps store id p fee a db.positions))
          (λ j d. held_of-distribute_fees_to_lps store j p fee a db.positions) i.balanced k);
  unique = rw positions (
      map-Unique share_key (fee_credited store p fee a) db.positions
        (fee_credited_key store p fee a) i.unique);
}
