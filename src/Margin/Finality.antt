-- ===== src/Margin/Finality.antt =====
-- What follows the end of a position, through the calls of src/margin/services/margin-position.service.ts
-- and changes of the database outside the table of positions. The liquidation engine's own save of a
-- position that it has read before is not among them.
use mathlib.Core.Option.{some-injective}
use peerx_backend.Common.{
  ◌∷◌, ℕ, ◌≡◌, ◌≢◌, refl, subst, sym, ap, ◌∙◌, true, none, some, String, arith, Bool-cases,
  Option-cases, inl, inr, text_keys, nat_keys, ◌==◌,
}
use peerx_backend.Common.Outcome.{returns}
use peerx_backend.Common.Table.{find_row, save_row, find_row-save_ne, find_row-key}
use peerx_backend.Margin.State.{is_live, MarginPairConfig, MarginPosition, Margin}
use peerx_backend.Margin.Positions.{
  OpenMarginPosition, position_key, closing, liquidating, open_position, close_position,
  liquidate_position,
}
use peerx_backend.Margin.Closed.{
  HasEnded, IsFinal, HasEnded-IsFinal, ended_row, found_as, liquidate_position-ended,
  liquidate_position-live, close_position-IsClosing,
}
use peerx_backend.Margin.Settlement.{open_position-IsOpening}

-- The states that follow: the database gives a new position an identifier that none has.
pub data Served (db : Margin) : Margin → Type 0 where
  unserved : Served db db
  opens :
      {x y : Margin} (id : String) (dto : OpenMarginPosition) (p : MarginPosition)
      → Served db x
      → find_row position_key id x.positions ≡ none
      → open_position id dto x ≡ returns (y, p)
      → Served db y
  closes :
      {x y : Margin} (id : String) (price now : ℕ) (q : MarginPosition)
      → Served db x
      → close_position id price now x ≡ returns (y, q)
      → Served db y
  liquidates :
      {x y : Margin} (copy : MarginPosition) (c : MarginPairConfig) (price now : ℕ)
      → Served db x
      → (liquidate_position copy c price now x).0 ≡ y
      → Served db y
  elsewhere : {x y : Margin} → Served db x → x.positions ≡ y.positions → Served db y

-- A position that is live is not the one that has ended.
apart_from :
    (k id : String) (p : MarginPosition) (x : Margin)
    → HasEnded id x
    → find_row position_key k x.positions ≡ some p
    → is_live p.status ≡ true
    → p.id ≢ id
apart_from k id p x e f live same =
    let key : p.id ≡ k = find_row-key position_key k p x.positions f in
    let found : find_row position_key id x.positions ≡ some p =
      subst (λ j. find_row position_key j x.positions ≡ some p) (sym key ∙ same) f in
    let row : p ≡ e.row = some-injective p e.row (sym found ∙ e.found) in
    let still : is_live e.row.status ≡ true =
      subst (λ (r : MarginPosition). is_live r.status ≡ true) row live in
    let over = e.ended in ground arith

-- A save of another position keeps it.
save_row-HasEnded :
    (id : String) (q : MarginPosition) (x y : Margin)
    → HasEnded id x
    → q.id ≢ id
    → save_row position_key q x.positions ≡ y.positions
    → HasEnded id y
save_row-HasEnded id q x y e apart saved = record {
  row = e.row;
  found = rw (sym saved) (find_row-save_ne position_key id q x.positions apart ∙ e.found);
  ended = e.ended;
}

created-HasEnded :
    (id : String) (q : MarginPosition) (x y : Margin)
    → HasEnded id x
    → find_row position_key q.id x.positions ≡ none
    → (q ∷ x.positions) ≡ y.positions
    → HasEnded id y
created-HasEnded id q x y e absent saved = record {
  row = e.row;
  found = rw (sym saved) (elim (Bool-cases (q.id == id)) [
    | inr other ↦ rw other e.found
    | inl same ↦
        let key : q.id ≡ id = (text_keys.same_iff q.id id).0 same in
        let gone = subst (λ k. find_row position_key k x.positions ≡ none) key absent in
        let found = e.found in ground arith
  ]);
  ended = e.ended;
}

liquidated-HasEnded :
    (id : String) (copy : MarginPosition) (c : MarginPairConfig) (price now : ℕ) (x : Margin)
    → HasEnded id x
    → HasEnded id (liquidate_position copy c price now x).0
unfolding liquidate_position
liquidated-HasEnded id copy c price now x e =
    elim (Option-cases (find_row position_key copy.id x.positions)) [
      | inl missing ↦ rw (liquidate_position, missing) e
      | inr (p, f) ↦ elim (Bool-cases (is_live p.status)) [
        | inr ended ↦ rw (liquidate_position-ended copy p c price now x f ended) e
        | inl live ↦
            let l = liquidate_position-live copy p c price now x f live in
            save_row-HasEnded id (liquidating p price now) x _ e
              (apart_from copy.id id p x e f live) (sym (ap (λ r. r.0.positions) l))
      ]
    ]

Served-HasEnded :
    (id : String) (db after : Margin) → Served db after → HasEnded id db → HasEnded id after
Served-HasEnded id db _ unserved e = e
Served-HasEnded id db y (opens {x = x} k dto p s absent h) e =
    let o = open_position-IsOpening k dto x y p h in
    created-HasEnded id _ x y (Served-HasEnded id db x s e) absent
      (ap (λ (d : Margin). d.positions) o.state)
Served-HasEnded id db y (closes {x = x} k price now q s h) e =
    let c = close_position-IsClosing k price now x y q h in
    let before = Served-HasEnded id db x s e in
    save_row-HasEnded id (closing c.row price now) x y before
      (apart_from k id c.row x before c.found c.live) (ap (λ (d : Margin). d.positions) c.state)
Served-HasEnded id db y (liquidates {x = x} copy c price now s h) e =
    subst (HasEnded id) h (liquidated-HasEnded id copy c price now x (Served-HasEnded id db x s e))
Served-HasEnded id db y (elsewhere {x = x} s same) e =
    let before = Served-HasEnded id db x s e in
    record {
      row = before.row;
      found = subst (λ rows. find_row position_key id rows ≡ some before.row) same before.found;
      ended = before.ended;
    }

-- The two ways to end a position.
pub record EndsOnce (id : String) (price now : ℕ) (db : Margin) : Type 0 where
  pub after_closing :
      (after later : Margin) (q : MarginPosition)
      → close_position id price now db ≡ returns (after, q)
      → Served after later
      → IsFinal id later
  pub after_liquidation :
      (copy p : MarginPosition) (c : MarginPairConfig) (later : Margin)
      → copy.id ≡ id
      → find_row position_key id db.positions ≡ some p
      → is_live p.status ≡ true
      → Served (liquidate_position copy c price now db).0 later
      → IsFinal id later

-- Once `close_position` has closed a position, or `liquidate_position` has liquidated it while it was
-- open or under a margin call: in every state that any openings, closings and liquidations by the
-- service and any changes outside the table of positions lead to, closing it fails at any price and
-- time, and a liquidation from any copy of it changes nothing and reports no shortfall.
pub ended-EndsOnce : (id : String) (price now : ℕ) (db : Margin) → EndsOnce id price now db
ended-EndsOnce id price now db = record {
  after_closing = λ after later q h served.
      let k = close_position-IsClosing id price now db after q h in
      HasEnded-IsFinal id later (
        Served-HasEnded id after later served (
          ended_row id k.row (closing k.row price now) db k.found refl refl after
            (ap (λ (d : Margin). d.positions) (sym k.state))));
  after_liquidation = λ copy p c later same e live served.
      let found = found_as copy.id id p db same e in
      let l = liquidate_position-live copy p c price now db found live in
      HasEnded-IsFinal id later (
        Served-HasEnded id (liquidate_position copy c price now db).0 later served
          (ended_row id p (liquidating p price now) db e refl refl _ (ap (λ r. r.0.positions) l)));
}
