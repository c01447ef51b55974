-- ===== src/Margin/Settlement.antt =====
-- The settlement of src/margin/services/margin-position.service.ts: a position opened and closed, and
-- a liquidation with the cover of its shortfall.
use peerx_backend.Common.{
  ℕ, ◌+◌, ◌-◌, ◌≡◌, refl, sym, ap, subst, true, some, List, ◌∷◌, String, arith, Bool-cases,
  Option-cases, inl, inr, text_keys, nat_keys, pair_keys,
}
use peerx_backend.Common.Int.{ℤ, pos, ◌+ℤ◌, ◌-ℤ◌, +ℤ_parts, -ℤ_parts, parts-ext}
use peerx_backend.Common.Outcome.{returns, returns-injective}
use peerx_backend.Common.Table.{
  find_row, save_row, find_row-save_self, find_row-key, Unique, save_row-save_row,
}
use peerx_backend.Margin.State.{
  PositionSide, long, short, MarginPairConfig, MarginPosition, QuoteBalance, Margin, MarginError,
  position_opened,
}
use peerx_backend.Margin.Calculator.{calculate_unrealized_pnl, calculate_equity}
use peerx_backend.Margin.Price.{equity_parts}
use peerx_backend.Margin.Positions.{
  config_key, asset_key, position_key, balance_key, OpenMarginPosition, or_market_price,
  is_available, new_position, lock_and_create, open_position, settled, settle_position_balance,
  closing, settled_and_saved, equity_of, close_position,
}

abbrev pub held_for : ℕ → QuoteBalance → QuoteBalance
held_for collateral b = record b { locked_balance = b.locked_balance + collateral }

abbrev pub opening :
    String → OpenMarginPosition → MarginPairConfig → ℕ → QuoteBalance → Margin → Margin
opening id dto c entry b db = record db {
  balances = save_row balance_key (held_for dto.collateral b) db.balances;
  positions = new_position id dto c entry ∷ db.positions;
  events = position_opened id dto.user_id c.id dto.side dto.leverage dto.collateral ∷ db.events;
}

-- `openPosition` that returns: what it has read and tested, and what it leaves.
pub record IsOpening (id : String) (dto : OpenMarginPosition) (db after : Margin)
    (p : MarginPosition) : Type 0 where
  pub config : MarginPairConfig
  pub entry : ℕ
  pub balance : QuoteBalance
  pub configured : find_row config_key dto.pair_config_id db.configs ≡ some config
  pub funded : find_row balance_key (dto.user_id, config.quote_asset_id) db.balances ≡ some balance
  pub available : is_available dto.collateral balance ≡ true
  pub position : new_position id dto config entry ≡ p
  pub state : opening id dto config entry balance db ≡ after

lock_and_create-IsOpening :
    (id : String) (dto : OpenMarginPosition) (c : MarginPairConfig) (entry : ℕ) (db after : Margin)
    (p : MarginPosition)
    → find_row config_key dto.pair_config_id db.configs ≡ some c
    → lock_and_create id dto c entry db ≡ returns (after, p)
    → IsOpening id dto db after p
unfolding lock_and_create
lock_and_create-IsOpening id dto c entry db after p f h =
    elim (Option-cases (find_row balance_key (dto.user_id, c.quote_asset_id) db.balances)) [
      | inl missing ↦ ground arith
      | inr (b, e) ↦ elim (Bool-cases (is_available dto.collateral b)) [
        | inr short_of ↦ ground arith
        | inl enough ↦
            let both =
              returns-injective {E = MarginError}
                (opening id dto c entry b db, new_position id dto c entry) (after, p)
                (rw (e, enough) at h) in
            record {
              config = c;
              entry = entry;
              balance = b;
              configured = f;
              funded = e;
              available = enough;
              position = ap (λ r. r.1) both;
              state = ap (λ r. r.0) both;
            }
      ]
    ]

pub open_position-IsOpening :
    (id : String) (dto : OpenMarginPosition) (db after : Margin) (p : MarginPosition)
    → open_position id dto db ≡ returns (after, p)
    → IsOpening id dto db after p
unfolding open_position
open_position-IsOpening id dto db after p h =
    elim (Option-cases (find_row config_key dto.pair_config_id db.configs)) [
      | inl missing ↦ ground arith
      | inr (c, f) ↦ elim (Option-cases (find_row asset_key c.base_asset_id db.assets)) [
        | inl missing ↦ ground arith
        | inr (asset, a) ↦
            lock_and_create-IsOpening id dto c (or_market_price dto.entry_price asset.price) db
              after p f (ground arith)
      ]
    ]

pnl-entry :
    (side : PositionSide) (size entry : ℕ) → calculate_unrealized_pnl side size entry entry ≡ pos 0
unfolding calculate_unrealized_pnl
pnl-entry long size entry = ground arith
pnl-entry short size entry = ground arith

equity-entry :
    (side : PositionSide) (size entry collateral : ℕ)
    → calculate_equity collateral (calculate_unrealized_pnl side size entry entry) 0
      ≡ pos collateral
equity-entry side size entry collateral = rw (pnl-entry side size entry) (
    parts-ext (calculate_equity collateral (pos 0) 0) (pos collateral)
      (omega (arith, equity_parts collateral 0 (pos 0))))

restored : (n : ℕ) (b : ℤ) → b +ℤ (pos n -ℤ pos n) ≡ b
restored n b =
    parts-ext (b +ℤ (pos n -ℤ pos n)) b
      (omega (arith, +ℤ_parts b (pos n -ℤ pos n), -ℤ_parts (pos n) (pos n)))

settled-restored :
    (p : MarginPosition) (b : QuoteBalance)
    → settled p (pos p.collateral) (held_for p.collateral b) ≡ b
settled-restored p b =
    let locked : b.locked_balance + p.collateral - p.collateral ≡ b.locked_balance = omega arith in
    rw (restored p.collateral b.balance, locked) refl

settle_position_balance-restored :
    (p : MarginPosition) (quote : ℕ) (b : QuoteBalance) (rows : List QuoteBalance)
    → Unique balance_key rows
    → find_row balance_key (p.user_id, quote) rows ≡ some b
    → settle_position_balance p quote
        (pos p.collateral)
        (save_row balance_key (held_for p.collateral b) rows)
      ≡ rows
unfolding settle_position_balance
settle_position_balance-restored p quote b rows u e =
    let k : balance_key b ≡ (p.user_id, quote) =
      find_row-key balance_key (p.user_id, quote) b rows e in
    let own : find_row balance_key (balance_key b) rows ≡ some b =
      subst (λ j. find_row balance_key j rows ≡ some b) (sym k) e in
    let held : find_row balance_key (p.user_id, quote)
          (save_row balance_key (held_for p.collateral b) rows)
        ≡ some (held_for p.collateral b) =
      subst
        (λ j.
          find_row balance_key j (save_row balance_key (held_for p.collateral b) rows)
          ≡ some (held_for p.collateral b))
        k (find_row-save_self balance_key (held_for p.collateral b) b rows own) in
    rw (settle_position_balance, held, settled-restored p b)
      (save_row-save_row balance_key (held_for p.collateral b) b rows u own)

-- A position closed with its balances as they were.
pub record IsReturned (id : String) (price now : ℕ) (db opened_db : Margin) : Type 0 where
  pub after : Margin
  pub position : MarginPosition
  pub closes : close_position id price now opened_db ≡ returns (after, position)
  pub same_balances : after.balances ≡ db.balances

-- If no two balances are of one user and asset: a position that `openPosition` has opened can be
-- closed at its entry price, and then every balance and locked balance is as it was before it was
-- opened.
pub open_position-close_position :
    (id : String) (dto : OpenMarginPosition) (now : ℕ) (db mid : Margin) (p : MarginPosition)
    → open_position id dto db ≡ returns (mid, p)
    → Unique balance_key db.balances
    → IsReturned id p.entry_price now db mid
unfolding close_position
open_position-close_position id dto now db mid p h u =
    let o = open_position-IsOpening id dto db mid p h in
    let q = new_position id dto o.config o.entry in
    let c_id : o.config.id ≡ dto.pair_config_id =
      find_row-key config_key dto.pair_config_id o.config db.configs o.configured in
    let c_found : find_row config_key o.config.id db.configs ≡ some o.config =
      subst (λ k. find_row config_key k db.configs ≡ some o.config) (sym c_id) o.configured in
    let found : find_row position_key id (q ∷ db.positions) ≡ some q =
      ground (arith, text_keys.same_iff id id) in
    let final =
      settled_and_saved q (closing q o.entry now) o.config (equity_of q o.entry)
        (opening id dto o.config o.entry o.balance db) in
    subst (λ (m : Margin). IsReturned id p.entry_price now db m) o.state
      (subst
        (λ (x : MarginPosition).
          IsReturned id x.entry_price now db (opening id dto o.config o.entry o.balance db))
        o.position
        record {
          after = final;
          position = closing q o.entry now;
          closes = rw (found, c_found) refl;
          same_balances = rw (equity-entry dto.side q.size o.entry dto.collateral) (
              settle_position_balance-restored q o.config.quote_asset_id o.balance db.balances u
                o.funded);
        })
