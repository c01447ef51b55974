-- ===== src/Margin/Closed.antt =====
-- Closing and liquidation in src/margin/services/margin-position.service.ts, of a position that is
-- live and of one that has ended.
use peerx_backend.Common.{
  ℕ, ◌≡◌, refl, subst, sym, ap, ◌∙◌, true, false, some, String, arith, Bool-cases, Option-cases,
  inl, inr, text_keys, nat_keys,
}
use peerx_backend.Common.Outcome.{returns, throws, returns-injective}
use peerx_backend.Common.Table.{find_row, save_row, find_row-save_self, find_row-key}
use peerx_backend.Margin.State.{
  is_live, MarginPairConfig, MarginPosition, Margin, MarginError, position_not_open,
}
use peerx_backend.Margin.Positions.{
  config_key, position_key, closing, settled_and_saved, equity_of, liquidate_locked, close_position,
  liquidate_position,
}

-- The row of a position is there and has ended.
pub record HasEnded (id : String) (db : Margin) : Type 0 where
  pub row : MarginPosition
  pub found : find_row position_key id db.positions ≡ some row
  pub ended : is_live row.status ≡ false

-- Closing it fails, and a liquidation of it from any copy does nothing.
pub record IsFinal (id : String) (db : Margin) : Type 0 where
  pub close_fails : (price now : ℕ) → close_position id price now db ≡ throws position_not_open
  pub liquidation_skips :
      (copy : MarginPosition) (c : MarginPairConfig) (price now : ℕ)
      → copy.id ≡ id
      → (liquidate_position copy c price now db).0 ≡ db
  pub without_shortfall :
      (copy : MarginPosition) (c : MarginPairConfig) (price now : ℕ)
      → copy.id ≡ id
      → (liquidate_position copy c price now db).1.shortfall ≡ 0

pub liquidate_position-ended :
    (copy p : MarginPosition) (c : MarginPairConfig) (price now : ℕ) (db : Margin)
    → find_row position_key copy.id db.positions ≡ some p
    → is_live p.status ≡ false
    → liquidate_position copy c price now db ≡ (db, record { position = p; shortfall = 0 })
unfolding liquidate_position
liquidate_position-ended copy p c price now db e d = rw (liquidate_position, e, d) refl

pub liquidate_position-live :
    (copy p : MarginPosition) (c : MarginPairConfig) (price now : ℕ) (db : Margin)
    → find_row position_key copy.id db.positions ≡ some p
    → is_live p.status ≡ true
    → liquidate_position copy c price now db ≡ liquidate_locked p c price now db
unfolding liquidate_position
liquidate_position-live copy p c price now db e d = rw (liquidate_position, e, d) refl

close_position-ended :
    (id : String) (p : MarginPosition) (price now : ℕ) (db : Margin)
    → find_row position_key id db.positions ≡ some p
    → is_live p.status ≡ false
    → close_position id price now db ≡ throws position_not_open
unfolding close_position
close_position-ended id p price now db e d = rw (e, d) refl

pub found_as :
    (k id : String) (p : MarginPosition) (db : Margin)
    → k ≡ id
    → find_row position_key id db.positions ≡ some p
    → find_row position_key k db.positions ≡ some p
found_as k id p db same e = subst (λ j. find_row position_key j db.positions ≡ some p) (sym same) e

pub HasEnded-IsFinal : (id : String) (db : Margin) → HasEnded id db → IsFinal id db
HasEnded-IsFinal id db e =
    let skipped =
      λ (copy : MarginPosition) (c : MarginPairConfig) (price now : ℕ) (same : copy.id ≡ id).
        liquidate_position-ended copy e.row c price now db
          (found_as copy.id id e.row db same e.found) e.ended in
    record {
      close_fails = λ price now. close_position-ended id e.row price now db e.found e.ended;
      liquidation_skips = λ copy c price now same. ap (λ r. r.0) (skipped copy c price now same);
      without_shortfall =
          λ copy c price now same. ap (λ r. r.1.shortfall) (skipped copy c price now same);
    }

-- `closePosition` that returns: what it has read, and what it leaves.
pub record IsClosing (id : String) (price now : ℕ) (db after : Margin) (q : MarginPosition)
    : Type 0 where
  pub row : MarginPosition
  pub config : MarginPairConfig
  pub found : find_row position_key id db.positions ≡ some row
  pub live : is_live row.status ≡ true
  pub configured : find_row config_key row.pair_config_id db.configs ≡ some config
  pub position : closing row price now ≡ q
  pub state : settled_and_saved row (closing row price now) config (equity_of row price) db ≡ after

pub close_position-IsClosing :
    (id : String) (price now : ℕ) (db after : Margin) (q : MarginPosition)
    → close_position id price now db ≡ returns (after, q)
    → IsClosing id price now db after q
unfolding close_position
close_position-IsClosing id price now db after q h =
    elim (Option-cases (find_row position_key id db.positions)) [
      | inl missing ↦ ground arith
      | inr (p, e) ↦ elim (Bool-cases (is_live p.status)) [
        | inr ended ↦ ground arith
        | inl live ↦ elim (Option-cases (find_row config_key p.pair_config_id db.configs)) [
          | inl missing ↦ ground arith
          | inr (c, f) ↦
              let both =
                returns-injective {E = MarginError}
                  (
                    settled_and_saved p (closing p price now) c (equity_of p price) db,
                    closing p price now,
                  )
                  (after, q) (rw (e, live, f) at h) in
              record {
                row = p;
                config = c;
                found = e;
                live = live;
                configured = f;
                position = ap (λ r. r.1) both;
                state = ap (λ r. r.0) both;
              }
        ]
      ]
    ]

pub ended_row :
    (id : String) (p q : MarginPosition) (db : Margin)
    → find_row position_key id db.positions ≡ some p
    → q.id ≡ p.id
    → is_live q.status ≡ false
    → (after : Margin) → after.positions ≡ save_row position_key q db.positions
    → HasEnded id after
ended_row id p q db e same d after saved =
    let k : p.id ≡ id = find_row-key position_key id p db.positions e in
    record {
      row = q;
      found = rw saved (
          subst (λ j. find_row position_key j (save_row position_key q db.positions) ≡ some q)
            (same ∙ k)
            (find_row-save_self position_key q p db.positions
              (subst (λ j. find_row position_key j db.positions ≡ some p) (sym (same ∙ k)) e)));
      ended = d;
    }
