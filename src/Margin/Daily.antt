-- ===== src/Margin/Daily.antt =====
-- The daily run of src/margin/services/margin-interest.service.ts charges a day once.
use peerx_backend.Common.{
  ℕ, ◌≡◌, refl, sym, subst, ◌⊎◌, Bool, true, false, ◌||◌, Option, none, some, List, [], ◌∷◌, String,
  arith, Bool-cases, Option-cases, inl, inr, All, keep, ◌==◌, nat_keys, text_keys,
}
use peerx_backend.Common.Table.{find_row, All-save_row}
use peerx_backend.Margin.State.{
  is_live, MarginPairConfig, MarginPosition, MarginInterestAccrual, Margin,
}
use peerx_backend.Margin.Positions.{config_key, position_key, get_open_positions}
use peerx_backend.Margin.Interest.{
  Saving, both_saved, has_accrued, accrue_for_position, accrued, accrue_from, accrue_daily_interest,
}

abbrev none_or : Option MarginPairConfig → Bool → Bool
none_or none b = true
none_or (some c) b = b

-- The run has nothing to do for a position.
abbrev is_done : ℕ → List MarginPairConfig → List MarginInterestAccrual → MarginPosition → Bool
is_done day configs accruals p =
    p.borrowed_amount == 0
    || none_or (find_row config_key p.pair_config_id configs) (has_accrued p.id day accruals)

abbrev IsDone : ℕ → Margin → MarginPosition → Type 0
IsDone day db p = is_done day db.configs db.accruals p ≡ true

accrued_done :
    (saving : String → Saving) (day now : ℕ) (p : MarginPosition) (db : Margin)
    → IsDone day db p
    → accrued saving day now p db ≡ db
accrued_done saving day now p db d = ground arith

accrue_from-done :
    (saving : String → Saving) (day now : ℕ) (ps : List MarginPosition) (db : Margin)
    → All (IsDone day db) ps
    → accrue_from saving day now ps db ≡ db
unfolding accrue_from
accrue_from-done saving day now [] db a = refl
accrue_from-done saving day now (p ∷ ps) db a =
    rw (accrued_done saving day now p db a.0) (accrue_from-done saving day now ps db a.1)

-- A turn makes its position done, and leaves those done that were.
has_accrued_self :
    (r : MarginInterestAccrual) (rs : List MarginInterestAccrual)
    → has_accrued r.position_id r.accrual_date (r ∷ rs) ≡ true
unfolding has_accrued
has_accrued_self r rs = ground (
  arith,
  text_keys.same_iff r.position_id r.position_id,
  nat_keys.same_iff r.accrual_date r.accrual_date,
)

has_accrued-later :
    (id : String) (day : ℕ) (r : MarginInterestAccrual) (rs : List MarginInterestAccrual)
    → has_accrued id day rs ≡ true
    → has_accrued id day (r ∷ rs) ≡ true
unfolding has_accrued
has_accrued-later id day r rs h = ground arith

abbrev LiveDone : ℕ → Margin → MarginPosition → Type 0
LiveDone day later r = is_live r.status ≡ true → IsDone day later r

none_or_mono :
    (b : Bool) (o : Option MarginPairConfig) (x y : Bool)
    → (x ≡ true → y ≡ true)
    → (b || none_or o x) ≡ true
    → (b || none_or o y) ≡ true
none_or_mono true o x y f h = refl
none_or_mono false none x y f h = refl
none_or_mono false (some c) x y f h = f h

or_none_or-true : (b : Bool) (o : Option MarginPairConfig) → (b || none_or o true) ≡ true
or_none_or-true true o = refl
or_none_or-true false none = refl
or_none_or-true false (some c) = refl

accrue_for_position-IsDone :
    (day now : ℕ) (p q : MarginPosition) (c : MarginPairConfig) (db : Margin)
    → IsDone day db q
    → IsDone day (accrue_for_position p c day now db).0 q
unfolding accrue_for_position
accrue_for_position-IsDone day now p q c db d =
    none_or_mono (q.borrowed_amount == 0) (find_row config_key q.pair_config_id db.configs) _ _
      (has_accrued-later q.id day _ db.accruals) d

accrue_for_position_self :
    (day now : ℕ) (p : MarginPosition) (c : MarginPairConfig) (db : Margin)
    → IsDone day (accrue_for_position p c day now db).0 p
unfolding accrue_for_position
accrue_for_position_self day now p c db =
    rw (has_accrued_self (accrue_for_position p c day now db).1 db.accruals)
      (or_none_or-true (p.borrowed_amount == 0) (find_row config_key p.pair_config_id db.configs))

live_of_kept :
    (day : ℕ) (later : Margin) (rows : List MarginPosition)
    → All (IsDone day later) (keep (λ p. is_live p.status) rows)
    → All (LiveDone day later) rows
live_of_kept day later [] a = tt
live_of_kept day later (r ∷ rows) a = elim (Bool-cases (is_live r.status)) [
  | inl live ↦ let both = rw live at a in (λ l. both.0, live_of_kept day later rows both.1)
  | inr over ↦ (λ l. cc, live_of_kept day later rows (rw over at a))
]

kept_of_live :
    (day : ℕ) (later : Margin) (rows : List MarginPosition)
    → All (LiveDone day later) rows
    → All (IsDone day later) (keep (λ p. is_live p.status) rows)
kept_of_live day later [] a = tt
kept_of_live day later (r ∷ rows) a = elim (Bool-cases (is_live r.status)) [
  | inl live ↦ rw live (a.0 live, kept_of_live day later rows a.1)
  | inr over ↦ rw over (kept_of_live day later rows a.1)
]

module _ (saving : String → Saving) (saved : (id : String) → saving id ≡ both_saved) where
  -- A turn does nothing for what is done, or accrues.
  accrued-cases :
      (day now : ℕ) (p : MarginPosition) (db : Margin)
      → ((accrued saving day now p db ≡ db) × IsDone day db p)
        ⊎ ((c : MarginPairConfig) × (accrued saving day now p db
              ≡ (accrue_for_position p c day now db).0))
  accrued-cases day now p db = elim (Bool-cases (p.borrowed_amount == 0)) [
    | inl nothing ↦ inl (rw nothing refl, rw nothing refl)
    | inr lent ↦ elim (Option-cases (find_row config_key p.pair_config_id db.configs)) [
      | inl missing ↦ inl (rw (lent, missing) refl, rw (lent, missing) refl)
      | inr (c, f) ↦ elim (Bool-cases (has_accrued p.id day db.accruals)) [
        | inl before ↦ inl (rw (lent, f, before) refl, rw (lent, f, before) refl)
        | inr first ↦ inr (c, rw (lent, f, first, saved p.id) refl)
      ]
    ]
  ]

  accrued-IsDone :
      (day now : ℕ) (p q : MarginPosition) (db : Margin)
      → IsDone day db q
      → IsDone day (accrued saving day now p db) q
  accrued-IsDone day now p q db d = elim (accrued-cases day now p db) [
    | inl (same, e) ↦ subst (λ (m : Margin). IsDone day m q) (sym same) d
    | inr (c, next) ↦
        subst (λ (m : Margin). IsDone day m q) (sym next)
          (accrue_for_position-IsDone day now p q c db d)
  ]

  accrued_self :
      (day now : ℕ) (p : MarginPosition) (db : Margin) → IsDone day (accrued saving day now p db) p
  accrued_self day now p db = elim (accrued-cases day now p db) [
    | inl (same, e) ↦ subst (λ (m : Margin). IsDone day m p) (sym same) e
    | inr (c, next) ↦
        subst (λ (m : Margin). IsDone day m p) (sym next) (accrue_for_position_self day now p c db)
  ]

  accrue_from-IsDone :
      (day now : ℕ) (ps : List MarginPosition) (q : MarginPosition) (db : Margin)
      → IsDone day db q
      → IsDone day (accrue_from saving day now ps db) q
  unfolding accrue_from
  accrue_from-IsDone day now [] q db d = d
  accrue_from-IsDone day now (p ∷ ps) q db d =
      accrue_from-IsDone day now ps q (accrued saving day now p db)
        (accrued-IsDone day now p q db d)

  accrue_from-All :
      (day now : ℕ) (ps : List MarginPosition) (db : Margin)
      → All (IsDone day (accrue_from saving day now ps db)) ps
  unfolding accrue_from
  accrue_from-All day now [] db = tt
  accrue_from-All day now (p ∷ ps) db = (
    accrue_from-IsDone day now ps p (accrued saving day now p db) (accrued_self day now p db),
    accrue_from-All day now ps (accrued saving day now p db),
  )

  -- The rows that a run leaves are done in `later` once they are live, if those read were.
  accrued-rows :
      (day now : ℕ) (p : MarginPosition) (db later : Margin)
      → IsDone day later p
      → All (LiveDone day later) db.positions
      → All (LiveDone day later) (accrued saving day now p db).positions
  unfolding accrue_for_position
  accrued-rows day now p db later d a = elim (accrued-cases day now p db) [
    | inl (same, e) ↦ subst (λ (m : Margin). All (LiveDone day later) m.positions) (sym same) a
    | inr (c, next) ↦
        subst (λ (m : Margin). All (LiveDone day later) m.positions) (sym next)
          (All-save_row position_key (LiveDone day later) _ db.positions (λ live. d) a)
  ]

  accrue_from-rows :
      (day now : ℕ) (ps : List MarginPosition) (db later : Margin)
      → All (IsDone day later) ps
      → All (LiveDone day later) db.positions
      → All (LiveDone day later) (accrue_from saving day now ps db).positions
  unfolding accrue_from
  accrue_from-rows day now [] db later ds a = a
  accrue_from-rows day now (p ∷ ps) db later ds a =
      accrue_from-rows day now ps (accrued saving day now p db) later ds.1
        (accrued-rows day now p db later ds.0 a)

  -- If the database makes both saves for every position: a second run of `accrueDailyInterest` on the
  -- same day, at whatever time and whatever fails in it, changes nothing, so that no position is charged
  -- interest twice for a day.
  pub accrue_daily_interest_twice :
      (other : String → Saving) (day now again : ℕ) (db : Margin)
      → accrue_daily_interest other day again (accrue_daily_interest saving day now db)
        ≡ accrue_daily_interest saving day now db
  accrue_daily_interest_twice other day now again db =
      let ps = get_open_positions db in
      let later = accrue_from saving day now ps db in
      let done = accrue_from-All day now ps db in
      accrue_from-done other day again (get_open_positions later) later (
        kept_of_live day later later.positions
          (accrue_from-rows day now ps db later done (live_of_kept day later db.positions done)))
