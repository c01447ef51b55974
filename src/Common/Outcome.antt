-- ===== src/Common/Outcome.antt =====
-- Results with errors: a promise that resolves is `returns`, an exception thrown is `throws`.
use mathlib.Core.Path.{◌≡◌, refl}
use mathlib.Core.Logic.{◌⊎◌, inl, inr}
use mathlib.Core.Bool.{Bool, true, false}
use mathlib.Core.Option.{Option, none, some}
use native.Mathlib.Omega.{arith}

pub data Outcome {ℓ κ} (E : Type ℓ) (A : Type κ) : Type (ℓ ⊔ κ) where
  throws : E → Outcome E A
  returns : A → Outcome E A

module _ {ℓ κ μ} {E : Type ℓ} {A : Type κ} {B : Type μ} where
  infixl 5 ◌>>=◌
  abbrev pub ◌>>=◌ : Outcome E A → (A → Outcome E B) → Outcome E B
  throws e >>= rest = throws e
  returns a >>= rest = rest a

module _ {ℓ κ} {E : Type ℓ} {B : Type κ} where
  infixl 5 ◌>>◌
  abbrev pub ◌>>◌ : Outcome E (Unit {0}) → Outcome E B → Outcome E B
  first >> rest = first >>= λ _. rest

-- `if (!test) throw error`.
abbrev pub guard {ℓ} : {E : Type ℓ} → Bool → E → Outcome E (Unit {0})
guard true e = returns tt
guard false e = throws e

-- `if (!found) throw error`.
abbrev pub or_fail {ℓ κ} : {E : Type ℓ} {A : Type κ} → Option A → E → Outcome E A
or_fail none e = throws e
or_fail (some a) e = returns a

-- A call that fails leaves the state as it was.
abbrev pub after {ℓ κ μ} : {E : Type ℓ} {S : Type κ} {A : Type μ} → S → Outcome E (S × A) → S
after s (returns (t, a)) = t
after s (throws e) = s

-- What holds of a state, and of the state after the rest of a block whenever the first part
-- succeeds, holds after the block.
pub after_bind {ℓ κ μ ν} :
    {E : Type ℓ} {A : Type κ} {S : Type μ} {B : Type κ} (P : S → Type ν) (s : S) (m : Outcome E A)
    (f : A → Outcome E (S × B))
    → P s
    → ((a : A) → m ≡ returns a → P (after s (f a)))
    → P (after s (m >>= f))
after_bind P s (returns a) f p k = k a refl
after_bind P s (throws e) f p k = p

pub guard-eq-returns {ℓ} :
    {E : Type ℓ} (test : Bool) (e : E) (u : Unit {0}) → guard test e ≡ returns u → test ≡ true
guard-eq-returns true e u h = refl
guard-eq-returns false e u h = cc

pub or_fail-eq-returns {ℓ κ} :
    {E : Type ℓ} {A : Type κ} (o : Option A) (e : E) (a : A) → or_fail o e ≡ returns a → o ≡ some a
or_fail-eq-returns none e a h = cc
or_fail-eq-returns (some b) e a h = ground arith

pub Outcome-cases {ℓ κ} :
    {E : Type ℓ} {A : Type κ} (o : Outcome E A)
    → ((a : A) × (o ≡ returns a)) ⊎ ((e : E) × (o ≡ throws e))
Outcome-cases (returns a) = inl (a, refl)
Outcome-cases (throws e) = inr (e, refl)

pub returns-injective {ℓ κ} :
    {E : Type ℓ} {A : Type κ} (a b : A) → ◌≡◌ {A = Outcome E A} (returns a) (returns b) → a ≡ b
returns-injective a b h = ground arith
