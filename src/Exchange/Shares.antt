-- ===== src/Exchange/Shares.antt =====
-- Deposits and withdrawals of src/exchange/services/liquidity-pool.service.ts taken apart.
use peerx_backend.Common.{
  ℕ, ◌-◌, ◌≤◌, ◌≡◌, refl, sym, ap, ◌∙◌, true, Option, some, ◌∷◌, String, arith, Bool-cases,
  Option-cases, inl, inr, text_keys, nat_keys, pair_keys, ltb, leb, leb→le,
}
use peerx_backend.Common.Outcome.{Outcome-cases, returns, returns-injective}
use peerx_backend.Common.Table.{find_row, save_row}
use peerx_backend.Orders.Order.{Ratio}
use peerx_backend.Exchange.State.{
  LiquidityPool, PoolPosition, EmergencyWithdrawal, Exchange, ExchangeError,
}
use peerx_backend.Exchange.Amm.{
  LiquidityQuote, calculate_lp_tokens_to_mint, WithdrawQuote, share_of, calculate_withdraw_amounts,
}
use peerx_backend.Exchange.Pools.{
  pool_key, share_key, is_active, is_emergency, with_liquidity, deposited, add_liquidity, holding,
  without_liquidity, less_liquidity, withdrawal_status, remove_liquidity, emergency_withdraw,
}

pub record IsDeposited (store : Ratio → ℕ) (square_root : ℕ → Ratio) (id user amount_a amount_b : ℕ)
    (db after : Exchange) (q : LiquidityQuote) : Type 0 where
  pub pool : LiquidityPool
  pub found : find_row pool_key id db.pools ≡ some pool
  pub live : is_active pool.status ≡ true
  pub quoted :
      calculate_lp_tokens_to_mint square_root amount_a amount_b pool.reserve_a pool.reserve_b
        pool.total_lp_supply
      ≡ returns q
  pub pools : save_row pool_key (with_liquidity store pool q) db.pools ≡ after.pools
  pub positions : deposited store id user q db.positions ≡ after.positions

pub add_liquidity-IsDeposited :
    (store : Ratio → ℕ) (square_root : ℕ → Ratio) (id user amount_a amount_b : ℕ)
    (db after : Exchange) (q : LiquidityQuote)
    → add_liquidity store square_root id user amount_a amount_b db ≡ returns (after, q)
    → IsDeposited store square_root id user amount_a amount_b db after q
unfolding add_liquidity
add_liquidity-IsDeposited store square_root id user amount_a amount_b db after q h =
    elim (Option-cases (find_row pool_key id db.pools)) [
      | inl missing ↦ ground arith
      | inr (p, f) ↦ elim (Bool-cases (is_active p.status)) [
        | inr stopped ↦ ground arith
        | inl live ↦
            elim (Outcome-cases (
              calculate_lp_tokens_to_mint square_root amount_a amount_b p.reserve_a p.reserve_b
                p.total_lp_supply)) [
                  | inr (x, e) ↦ ground arith
                  | inl (r, e) ↦
                      let done : Exchange = record db {
                        pools = save_row pool_key (with_liquidity store p r) db.pools;
                        positions = deposited store id user r db.positions;
                      } in
                      let both =
                        returns-injective {E = ExchangeError} (done, r) (after, q)
                          (rw (f, live, e) at h) in
                      let same = ap (λ x. x.1) both in
                      record {
                        pool = p;
                        found = f;
                        live = live;
                        quoted = rw (sym same) e;
                        pools = rw (sym same) (ap (λ x. x.0.pools) both);
                        positions = rw (sym same) (ap (λ x. x.0.positions) both);
                      }
                ]
      ]
    ]

-- A withdrawal, and the row that is saved for the position.
pub record IsWithdrawn (store : Ratio → ℕ) (id user lp : ℕ) (db after : Exchange) : Type 0 where
  pub pool : LiquidityPool
  pub position : PoolPosition
  pub row : PoolPosition
  pub found : find_row pool_key id db.pools ≡ some pool
  pub owned : find_row share_key (id, user) db.positions ≡ some position
  pub enough : lp ≤ position.lp_amount
  pub supplied : lp ≤ pool.total_lp_supply
  pub same_key : share_key row ≡ share_key position
  pub burned : row.lp_amount ≡ position.lp_amount - lp
  pub pools :
      save_row pool_key
        (without_liquidity store pool lp
          (share_of lp pool.total_lp_supply pool.reserve_a pool.reserve_b))
        db.pools
      ≡ after.pools
  pub positions : save_row share_key row db.positions ≡ after.positions

-- The quote of a withdrawal, and its tests.
record IsQuoted (lp supply reserve_a reserve_b : ℕ) (q : WithdrawQuote) : Type 0 where
  within : lp ≤ supply
  quote : share_of lp supply reserve_a reserve_b ≡ q

calculate_withdraw_amounts-IsQuoted :
    (lp supply reserve_a reserve_b : ℕ) (q : WithdrawQuote)
    → calculate_withdraw_amounts lp supply reserve_a reserve_b ≡ returns q
    → IsQuoted lp supply reserve_a reserve_b q
unfolding calculate_withdraw_amounts
calculate_withdraw_amounts-IsQuoted lp supply reserve_a reserve_b q h =
    elim (Bool-cases (ltb 0 lp)) [
      | inr none_asked ↦ ground arith
      | inl asked ↦ elim (Bool-cases (ltb 0 supply)) [
        | inr empty ↦ ground arith
        | inl full ↦ elim (Bool-cases (leb lp supply)) [
          | inr beyond ↦ ground arith
          | inl within ↦ record {
            within = leb→le lp supply within;
            quote =
                returns-injective {E = ExchangeError} (share_of lp supply reserve_a reserve_b) q
                  (rw (asked, full, within) at h);
          }
        ]
      ]
    ]

-- The tests that the two withdrawals share.
record IsHeld (id user lp : ℕ) (db : Exchange) (p : PoolPosition) : Type 0 where
  owned : find_row share_key (id, user) db.positions ≡ some p
  enough : lp ≤ p.lp_amount

holding-IsHeld :
    (id user lp : ℕ) (db : Exchange) (p : PoolPosition)
    → holding id user lp db ≡ returns p
    → IsHeld id user lp db p
holding-IsHeld id user lp db p h =
    elim (Option-cases (find_row share_key (id, user) db.positions)) [
      | inl missing ↦ ground arith
      | inr (r, f) ↦ elim (Bool-cases (leb lp r.lp_amount)) [
        | inr lacking ↦ ground arith
        | inl enough ↦
            let same = returns-injective {E = ExchangeError} r p (rw (f, enough) at h) in
            rw (sym same) record { owned = f; enough = leb→le lp r.lp_amount enough }
      ]
    ]

pub remove_liquidity-IsWithdrawn :
    (store : Ratio → ℕ) (id user lp : ℕ) (db after : Exchange) (q : WithdrawQuote)
    → remove_liquidity store id user lp db ≡ returns (after, q)
    → IsWithdrawn store id user lp db after
unfolding remove_liquidity
remove_liquidity-IsWithdrawn store id user lp db after q h =
    elim (Option-cases (find_row pool_key id db.pools)) [
      | inl missing ↦ ground arith
      | inr (p, f) ↦ elim (Bool-cases (is_emergency p.status)) [
        | inl stopped ↦ ground arith
        | inr live ↦ elim (Outcome-cases (holding id user lp db)) [
          | inr (x, e) ↦ ground arith
          | inl (r, e) ↦
              elim (Outcome-cases
                (calculate_withdraw_amounts lp p.total_lp_supply p.reserve_a p.reserve_b)) [
                  | inr (x, g) ↦ ground arith
                  | inl (w, g) ↦
                      let held = holding-IsHeld id user lp db r e in
                      let n =
                        calculate_withdraw_amounts-IsQuoted lp p.total_lp_supply p.reserve_a
                          p.reserve_b w g in
                      let done : Exchange = record db {
                        pools = save_row pool_key (without_liquidity store p lp w) db.pools;
                        positions = save_row share_key (less_liquidity store r lp) db.positions;
                      } in
                      let both =
                        returns-injective {E = ExchangeError} (done, w) (after, q)
                          (rw (f, live, e, g) at h) in
                      record {
                        pool = p;
                        position = r;
                        row = less_liquidity store r lp;
                        found = f;
                        owned = held.owned;
                        enough = held.enough;
                        supplied = n.within;
                        same_key = refl;
                        burned = refl;
                        pools =
                            ap (λ v. save_row pool_key (without_liquidity store p lp v) db.pools)
                              n.quote
                            ∙ ap (λ x. x.0.pools) both;
                        positions = ap (λ x. x.0.positions) both;
                      }
                ]
        ]
      ]
    ]

pub emergency_withdraw-IsWithdrawn :
    (store : Ratio → ℕ) (id user lp : ℕ) (reason : String) (admin : Option ℕ) (db after : Exchange)
    (w : EmergencyWithdrawal)
    → emergency_withdraw store id user lp reason admin db ≡ returns (after, w)
    → IsWithdrawn store id user lp db after
unfolding emergency_withdraw
emergency_withdraw-IsWithdrawn store id user lp reason admin db after w h =
    elim (Option-cases (find_row pool_key id db.pools)) [
      | inl missing ↦ ground arith
      | inr (p, f) ↦ elim (Outcome-cases (holding id user lp db)) [
        | inr (x, e) ↦ ground arith
        | inl (r, e) ↦
            elim (Outcome-cases
              (calculate_withdraw_amounts lp p.total_lp_supply p.reserve_a p.reserve_b)) [
                | inr (x, g) ↦ ground arith
                | inl (q, g) ↦
                    let held = holding-IsHeld id user lp db r e in
                    let n =
                      calculate_withdraw_amounts-IsQuoted lp p.total_lp_supply p.reserve_a
                        p.reserve_b q g in
                    let noted : EmergencyWithdrawal = record {
                      pool_id = id;
                      user_id = user;
                      lp_amount_burned = lp;
                      amount_a = store q.amount_a;
                      amount_b = store q.amount_b;
                      reason = reason;
                      status = withdrawal_status admin;
                      admin_approved_by = admin;
                    } in
                    let row = record r { lp_amount = r.lp_amount - lp } in
                    let done : Exchange = record db {
                      pools = save_row pool_key (without_liquidity store p lp q) db.pools;
                      positions = save_row share_key row db.positions;
                      withdrawals = noted ∷ db.withdrawals;
                    } in
                    let both =
                      returns-injective {E = ExchangeError} (done, noted) (after, w)
                        (rw (f, e, g) at h) in
                    record {
                      pool = p;
                      position = r;
                      row = row;
                      found = f;
                      owned = held.owned;
                      enough = held.enough;
                      supplied = n.within;
                      same_key = refl;
                      burned = refl;
                      pools =
                          ap (λ v. save_row pool_key (without_liquidity store p lp v) db.pools)
                            n.quote
                          ∙ ap (λ x. x.0.pools) both;
                      positions = ap (λ x. x.0.positions) both;
                    }
              ]
      ]
    ]
