-- ===== src/Common/JsMap.antt =====
-- A JavaScript `Map` as the list of its entries in insertion order: `set` on a present key writes in
-- place, on a new key at the end; `get` gives `none` for `undefined`.
use Prim.Native.Nat.{suc, ◌≤◌}
use mathlib.Core.Path.{◌≡◌, refl}
use mathlib.Core.Logic.{◌≢◌}
use mathlib.Core.Bool.{Bool, true, false}
use mathlib.Core.Option.{Option, none, some}
use mathlib.Core.List.{List, [], ◌∷◌}
use native.Mathlib.Omega.{arith}
use mathlib.Core.Logic.{inl, inr}
use peerx_backend.Common.Tests.{KeyEq, ◌==◌, if◌then◌else◌, Bool-cases}
use peerx_backend.Common.Lists.{length}

abbrev pub JsMap {ℓ κ} : Type ℓ → Type κ → Type (ℓ ⊔ κ)
JsMap K V = List (K × V)

module _ {ℓ κ} {K : Type ℓ} {V : Type κ} ⦃e : KeyEq K⦄ where
  unfoldable pub get : K → JsMap K V → Option V
  get k [] = none
  get k ((j, v) ∷ m) = if j == k then some v else get k m

  unfoldable pub has : K → JsMap K V → Bool
  has k [] = false
  has k ((j, v) ∷ m) = if j == k then true else has k m

  unfoldable pub set : K → V → JsMap K V → JsMap K V
  set k v [] = (k, v) ∷ []
  set k v ((j, w) ∷ m) = if j == k then (j, v) ∷ m else (j, w) ∷ set k v m

  unfoldable pub delete : K → JsMap K V → JsMap K V
  delete k [] = []
  delete k ((j, v) ∷ m) = if j == k then delete k m else (j, v) ∷ delete k m

  abbrev pub values : JsMap K V → List V
  values [] = []
  values ((k, v) ∷ m) = v ∷ values m

  pub get-set_self : (k : K) (v : V) (m : JsMap K V) → get k (set k v m) ≡ some v
  unfolding get set
  get-set_self k v [] = ground (arith, e.same_iff k k)
  get-set_self k v ((j, w) ∷ m) = ground (arith, get-set_self k v m)

  pub get-set_ne : (k j : K) (v : V) (m : JsMap K V) → k ≢ j → get j (set k v m) ≡ get j m
  unfolding get set
  get-set_ne k j v [] h = ground (arith, e.same_iff k j)
  get-set_ne k j v ((i, w) ∷ m) h =
      ground (arith, e.same_iff i k, e.same_iff i j, e.same_iff k j, get-set_ne k j v m h)

  pub get-delete_self : (k : K) (m : JsMap K V) → get k (delete k m) ≡ none
  unfolding get delete
  get-delete_self k [] = refl
  get-delete_self k ((j, w) ∷ m) = ground (arith, get-delete_self k m)

  pub get-delete_ne : (k j : K) (m : JsMap K V) → k ≢ j → get j (delete k m) ≡ get j m
  unfolding get delete
  get-delete_ne k j [] h = refl
  get-delete_ne k j ((i, w) ∷ m) h =
      ground (arith, e.same_iff i k, e.same_iff i j, get-delete_ne k j m h)

  pub length-set_le : (k : K) (v : V) (m : JsMap K V) → length (set k v m) ≤ suc (length m)
  unfolding set
  length-set_le k v [] = omega arith
  length-set_le k v ((j, w) ∷ m) = ground (arith, length-set_le k v m)

  pub length-delete_le : (k : K) (m : JsMap K V) → length (delete k m) ≤ length m
  unfolding delete
  length-delete_le k [] = omega arith
  length-delete_le k ((j, w) ∷ m) = ground (arith, length-delete_le k m)

  pub has-set_ne : (k j : K) (v : V) (m : JsMap K V) → k ≢ j → has j (set k v m) ≡ has j m
  unfolding has set
  has-set_ne k j v [] h = ground (arith, e.same_iff k j)
  has-set_ne k j v ((i, w) ∷ m) h =
      ground (arith, e.same_iff i k, e.same_iff i j, e.same_iff k j, has-set_ne k j v m h)

  pub has-delete : (k j : K) (m : JsMap K V) → has j m ≡ false → has j (delete k m) ≡ false
  unfolding has delete
  has-delete k j [] h = refl
  has-delete k j ((i, w) ∷ m) h = ground (arith, has-delete k j m)

  pub length-delete_lt :
      (k : K) (m : JsMap K V) → has k m ≡ true → suc (length (delete k m)) ≤ length m
  unfolding has delete
  length-delete_lt k [] h = cc
  length-delete_lt k ((j, v) ∷ m) h = ground (arith, length-delete_lt k m, length-delete_le k m)

  -- No key has two entries.
  abbrev pub Distinct : JsMap K V → Type 0
  Distinct [] = Unit
  Distinct ((k, v) ∷ m) = (has k m ≡ false) × Distinct m

  pub set-Distinct : (k : K) (v : V) (m : JsMap K V) → Distinct m → Distinct (set k v m)
  unfolding set has
  set-Distinct k v [] d = (refl, tt)
  set-Distinct k v ((j, w) ∷ m) d = elim (Bool-cases (j == k)) [
    | inl h ↦ rw h d
    | inr h ↦
        rw h (
          rw (has-set_ne k j v m (λ p. ground (arith, e.same_iff j k))) d.0,
          set-Distinct k v m d.1,
        )
  ]

  pub delete-Distinct : (k : K) (m : JsMap K V) → Distinct m → Distinct (delete k m)
  unfolding delete has
  delete-Distinct k [] d = tt
  delete-Distinct k ((j, w) ∷ m) d = elim (Bool-cases (j == k)) [
    | inl h ↦ rw h (delete-Distinct k m d.1)
    | inr h ↦ rw h (has-delete k j m d.0, delete-Distinct k m d.1)
  ]
