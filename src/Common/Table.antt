-- ===== src/Common/Table.antt =====
-- A database table as the list of its rows, read and saved by a key: `findOne` takes the first row
-- with the key, `save` of a row that is there writes it in its place.
use Prim.Native.Nat.{ℕ, ◌+◌}
use mathlib.Core.Path.{◌≡◌, refl, sym, ap, ◌∙◌, subst}
use mathlib.Core.Logic.{◌≢◌, inl, inr}
use mathlib.Core.Option.{Option, none, some}
use mathlib.Core.Option.{some-injective}
use mathlib.Core.List.{List, [], ◌∷◌, map}
use native.Mathlib.Omega.{arith}
use peerx_backend.Common.Tests.{KeyEq, ◌==◌, if◌then◌else◌, Bool-cases, if_both}
use peerx_backend.Common.Lists.{All, sum_of}

module _ {ℓ κ} {K : Type ℓ} {A : Type κ} ⦃e : KeyEq K⦄ (key : A → K) where
  abbrev pub find_row : K → List A → Option A
  find_row k [] = none
  find_row k (r ∷ rows) = if key r == k then some r else find_row k rows

  abbrev pub save_row : A → List A → List A
  save_row a [] = []
  save_row a (r ∷ rows) = (if key r == key a then a else r) ∷ save_row a rows

  -- No two rows have one key.
  abbrev pub Unique : List A → Type ℓ
  Unique [] = Unit
  Unique (r ∷ rows) = All (λ s. key s ≢ key r) rows × Unique rows

  pub find_row-key : (k : K) (a : A) (rows : List A) → find_row k rows ≡ some a → key a ≡ k
  find_row-key k a [] h = cc
  find_row-key k a (r ∷ rows) h = elim (Bool-cases (key r == k)) [
    | inl s ↦
        let same : r ≡ a = some-injective r a (ground arith) in
        subst (λ x. key x ≡ k) same ((e.same_iff (key r) k).0 s)
    | inr d ↦ find_row-key k a rows (ground arith)
  ]

  pub find_row-save_self :
      (a b : A) (rows : List A)
      → find_row (key a) rows ≡ some b
      → find_row (key a) (save_row a rows) ≡ some a
  find_row-save_self a b [] h = cc
  find_row-save_self a b (r ∷ rows) h = elim (Bool-cases (key r == key a)) [
    | inl s ↦ rw s (rw ((e.same_iff (key a) (key a)).1 refl) refl)
    | inr d ↦ ground (arith, find_row-save_self a b rows)
  ]

  pub find_row-save_ne :
      (k : K) (a : A) (rows : List A) → key a ≢ k → find_row k (save_row a rows) ≡ find_row k rows
  find_row-save_ne k a [] h = refl
  find_row-save_ne k a (r ∷ rows) h = ground (
    arith,
    e.same_iff (key r) (key a),
    e.same_iff (key r) k,
    e.same_iff (key a) k,
    find_row-save_ne k a rows h,
  )

  pub All-save_row {μ} :
      (P : A → Type μ) (a : A) (rows : List A) → P a → All P rows → All P (save_row a rows)
  All-save_row P a [] p h = tt
  All-save_row P a (r ∷ rows) p h = (if_both P (key r == key a) p h.0, All-save_row P a rows p h.1)

  pub All-find_row {μ} :
      (P : A → Type μ) (k : K) (a : A) (rows : List A) → find_row k rows ≡ some a → All P rows → P a
  All-find_row P k a [] h p = cc
  All-find_row P k a (r ∷ rows) h p = elim (Bool-cases (key r == k)) [
    | inl s ↦ subst P (some-injective r a (ground arith)) p.0
    | inr d ↦ All-find_row P k a rows (ground arith) p.1
  ]

  save_row_absent : (a : A) (rows : List A) → All (λ s. key s ≢ key a) rows → save_row a rows ≡ rows
  save_row_absent a [] h = refl
  save_row_absent a (r ∷ rows) h =
      ground (arith, e.same_iff (key r) (key a), h.0, save_row_absent a rows h.1)

  -- What a sum over the rows loses and gains by a save.
  pub sum_of-save_row :
      (f : A → ℕ) (a b : A) (rows : List A)
      → Unique rows
      → find_row (key a) rows ≡ some b
      → sum_of f (save_row a rows) + f b ≡ sum_of f rows + f a
  sum_of-save_row f a b [] u h = cc
  sum_of-save_row f a b (r ∷ rows) u h = elim (Bool-cases (key r == key a)) [
    | inl s ↦
        let same : key r ≡ key a = (e.same_iff (key r) (key a)).0 s in
        let rest = save_row_absent a rows (subst (λ k. All (λ t. key t ≢ k) rows) same u.0) in
        let old : r ≡ b = some-injective r b (ground arith) in rw (s, rest, old) (omega arith)
    | inr d ↦ rw d (omega (arith, sum_of-save_row f a b rows u.1 (ground arith)))
  ]

  save_row-All_ne :
      (k : K) (a : A) (rows : List A)
      → All (λ s. key s ≢ k) rows
      → All (λ s. key s ≢ k) (save_row a rows)
  save_row-All_ne k a [] h = tt
  save_row-All_ne k a (r ∷ rows) h = (
    elim (Bool-cases (key r == key a)) [
      | inl s ↦ rw s (λ p. h.0 ((e.same_iff (key r) (key a)).0 s ∙ p))
      | inr d ↦ rw d h.0
    ],
    save_row-All_ne k a rows h.1,
  )

  pub save_row-Unique : (a : A) (rows : List A) → Unique rows → Unique (save_row a rows)
  save_row-Unique a [] u = tt
  save_row-Unique a (r ∷ rows) u = (
    elim (Bool-cases (key r == key a)) [
      | inl s ↦
          let same : key r ≡ key a = (e.same_iff (key r) (key a)).0 s in
          rw s (
            subst (λ k. All (λ t. key t ≢ k) (save_row a rows)) same
              (save_row-All_ne (key r) a rows u.0))
      | inr d ↦ rw d (save_row-All_ne (key r) a rows u.0)
    ],
    save_row-Unique a rows u.1,
  )

  -- Saving a row and then what it was before gives the table back.
  pub save_row-save_row :
      (a b : A) (rows : List A)
      → Unique rows
      → find_row (key a) rows ≡ some b
      → save_row b (save_row a rows) ≡ rows
  save_row-save_row a b [] u h = cc
  save_row-save_row a b (r ∷ rows) u h = elim (Bool-cases (key r == key a)) [
    | inl s ↦
        let same : key r ≡ key a = (e.same_iff (key r) (key a)).0 s in
        let old : r ≡ b = some-injective r b (ground arith) in
        let back : key a ≡ key b = sym same ∙ ap key old in
        let rest = save_row_absent a rows (subst (λ k. All (λ t. key t ≢ k) rows) same u.0) in
        let again =
          save_row_absent b rows (subst (λ k. All (λ t. key t ≢ k) rows) (ap key old) u.0) in
        rw (s, rest, again, (e.same_iff (key a) (key b)).1 back, old) refl
    | inr d ↦
        let later : find_row (key a) rows ≡ some b = ground arith in
        let back : key b ≡ key a = find_row-key (key a) b rows later in
        rw (d, back, d, save_row-save_row a b rows u.1 later) refl
  ]

  -- The row found under a key, once it has been saved with the same key.
  pub find_row-save_found :
      (k : K) (a b : A) (rows : List A)
      → find_row k rows ≡ some b
      → key a ≡ key b
      → find_row k (save_row a rows) ≡ some a
  find_row-save_found k a b rows h same =
      let there : key a ≡ k = same ∙ find_row-key k b rows h in
      subst (λ j. find_row j (save_row a rows) ≡ some a) there
        (find_row-save_self a b rows (subst (λ j. find_row j rows ≡ some b) (sym there) h))

  pub find_row-eq-none :
      (k : K) (rows : List A) → find_row k rows ≡ none → All (λ s. key s ≢ k) rows
  find_row-eq-none k [] h = tt
  find_row-eq-none k (r ∷ rows) h = elim (Bool-cases (key r == k)) [
    | inl s ↦ ground arith
    | inr d ↦
        (λ p. ground (arith, (e.same_iff (key r) k).1 p), find_row-eq-none k rows (ground arith))
  ]

  map-All_ne :
      (f : A → A) (k : K) (rows : List A)
      → ((a : A) → key (f a) ≡ key a)
      → All (λ s. key s ≢ k) rows
      → All (λ s. key s ≢ k) (map f rows)
  map-All_ne f k [] kept h = tt
  map-All_ne f k (r ∷ rows) kept h = (λ p. h.0 (sym (kept r) ∙ p), map-All_ne f k rows kept h.1)

  pub map-Unique :
      (f : A → A) (rows : List A)
      → ((a : A) → key (f a) ≡ key a)
      → Unique rows
      → Unique (map f rows)
  map-Unique f [] kept u = tt
  map-Unique f (r ∷ rows) kept u = (
    map-All_ne f (key (f r)) rows kept (subst (λ k. All (λ s. key s ≢ k) rows) (sym (kept r)) u.0),
    map-Unique f rows kept u.1,
  )
