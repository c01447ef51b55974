-- ===== src/Exchange/Supply.antt =====
-- The liquidity tokens of src/exchange/services/liquidity-pool.service.ts: the supply of a pool
-- against the positions, in every history of the operations.
use peerx_backend.Common.{
  ℕ, ◌+◌, ◌≡◌, ◌≢◌, sym, ap, ◌∙◌, subst, Option, none, some, List, arith, Bool-cases, inl, inr,
  nat_keys, pair_keys, text_keys, ◌==◌, if◌then◌else◌, sum_of, ne_of_same, nat_same_iff,
}
use peerx_backend.Common.Table.{
  find_row, save_row, find_row-save_found, find_row-save_ne, find_row-key, sum_of-save_row, Unique,
}
use peerx_backend.Exchange.State.{LiquidityPool, PoolPosition, Exchange}
use peerx_backend.Exchange.Pools.{pool_key, share_key}

abbrev pub supply_or_zero : Option LiquidityPool → ℕ
supply_or_zero none = 0
supply_or_zero (some p) = p.total_lp_supply

-- The supply of a pool, and what the positions hold of it.
abbrev pub supply_of : ℕ → List LiquidityPool → ℕ
supply_of k pools = supply_or_zero (find_row pool_key k pools)

abbrev pub lp_in : ℕ → PoolPosition → ℕ
lp_in k p = if p.pool_id == k then p.lp_amount else 0

abbrev pub held_of : ℕ → List PoolPosition → ℕ
held_of k rows = sum_of (lp_in k) rows

pub record IsBalanced (db : Exchange) : Type 0 where
  pub balanced : (k : ℕ) → held_of k db.positions ≡ supply_of k db.pools
  pub unique : Unique share_key db.positions

supply_of-save_row_self :
    (k : ℕ) (q p : LiquidityPool) (pools : List LiquidityPool)
    → find_row pool_key k pools ≡ some p
    → q.id ≡ p.id
    → supply_of k (save_row pool_key q pools) ≡ q.total_lp_supply
supply_of-save_row_self k q p pools f same =
    ap supply_or_zero (find_row-save_found pool_key k q p pools f same)

supply_of-save_row_ne :
    (k : ℕ) (q : LiquidityPool) (pools : List LiquidityPool)
    → q.id ≢ k
    → supply_of k (save_row pool_key q pools) ≡ supply_of k pools
supply_of-save_row_ne k q pools apart =
    ap supply_or_zero (find_row-save_ne pool_key k q pools apart)

-- Saving a pool and its positions, when the two change by as much.
pub saved_together :
    (id : ℕ) (p q : LiquidityPool) (pools : List LiquidityPool) (rows after : List PoolPosition)
    → find_row pool_key id pools ≡ some p
    → q.id ≡ p.id
    → held_of id after + p.total_lp_supply ≡ held_of id rows + q.total_lp_supply
    → ((k : ℕ) → id ≢ k → held_of k after ≡ held_of k rows)
    → ((k : ℕ) → held_of k rows ≡ supply_of k pools)
    → (k : ℕ) → held_of k after ≡ supply_of k (save_row pool_key q pools)
saved_together id p q pools rows after f same here apart old k = elim (Bool-cases (id == k)) [
  | inl is_here ↦
      let e : id ≡ k = (nat_same_iff id k).0 is_here in
      subst (λ j. held_of j after ≡ supply_of j (save_row pool_key q pools)) e
        (let was : held_of id rows ≡ p.total_lp_supply = old id ∙ ap supply_or_zero f in
          let now = supply_of-save_row_self id q p pools f same in omega (arith, here, was, now))
  | inr elsewhere ↦
      let d : id ≢ k = ne_of_same id k elsewhere in
      let q_id : q.id ≡ id = same ∙ find_row-key pool_key id p pools f in
      apart k d ∙ old k ∙ sym (supply_of-save_row_ne k q pools (λ e. d (sym q_id ∙ e)))
]

pub lp_in_self : (id : ℕ) (p : PoolPosition) → p.pool_id ≡ id → lp_in id p ≡ p.lp_amount
lp_in_self id p e = ground (arith, nat_same_iff p.pool_id id)

pub lp_in_ne : (k : ℕ) (p : PoolPosition) → p.pool_id ≢ k → lp_in k p ≡ 0
lp_in_ne k p d = ground (arith, nat_same_iff p.pool_id k)

-- What the positions of a pool gain and lose by a save of one.
pub held_of-save_row :
    (k id user : ℕ) (a b : PoolPosition) (rows : List PoolPosition)
    → Unique share_key rows
    → find_row share_key (id, user) rows ≡ some b
    → share_key a ≡ share_key b
    → held_of k (save_row share_key a rows) + lp_in k b ≡ held_of k rows + lp_in k a
held_of-save_row k id user a b rows u f same =
    let key_b = find_row-key share_key (id, user) b rows f in
    sum_of-save_row share_key (lp_in k) a b rows u
      (subst (λ j. find_row share_key j rows ≡ some b) (sym (same ∙ key_b)) f)

pub pool_of :
    (id user : ℕ) (b : PoolPosition) (rows : List PoolPosition)
    → find_row share_key (id, user) rows ≡ some b
    → b.pool_id ≡ id
pool_of id user b rows f = ap (λ k. k.0) (find_row-key share_key (id, user) b rows f)
