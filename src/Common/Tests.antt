-- ===== src/Common/Tests.antt =====
-- Boolean tests on numbers and texts, the conditional, and equality as an interface.
use Prim.Native.Nat.{ℕ, ◌≤◌, ◌<◌, compare, Ordering}
use Prim.Native.String.{String}
use mathlib.Core.Path.{◌≡◌, refl, ap}
use mathlib.Core.Logic.{◌↔◌, ◌⊎◌, ◌≢◌, inl, inr}
use mathlib.Core.Bool.{Bool, true, false, ◌&&◌}
use mathlib.Core.Option.{Option, none, some}
use native.Mathlib.Omega.{arith}
use text.Mathlib.Text.{◌==◌ as str_eq}
use text.Mathlib.TextEquality.{eq_iff}

abbrev pub ltb : ℕ → ℕ → Bool
ltb a b = elim (compare a b) [ Ordering.lt ↦ true | _ ↦ false ]

abbrev pub leb : ℕ → ℕ → Bool
leb a b = elim (compare a b) [ Ordering.gt ↦ false | _ ↦ true ]

abbrev pub nat_same : ℕ → ℕ → Bool
nat_same a b = elim (compare a b) [ Ordering.eq ↦ true | _ ↦ false ]

infix 1 if◌then◌else◌
abbrev pub if◌then◌else◌ {ℓ} : {A : Type ℓ} → Bool → A → A → A
if true then x else y = x
if false then x else y = y

pub ltb→lt : (a b : ℕ) → ltb a b ≡ true → a < b
ltb→lt a b h = ground arith

pub lt→ltb : (a b : ℕ) → a < b → ltb a b ≡ true
lt→ltb a b h = ground arith

pub ltb→le : (a b : ℕ) → ltb a b ≡ false → b ≤ a
ltb→le a b h = ground arith

pub leb→le : (a b : ℕ) → leb a b ≡ true → a ≤ b
leb→le a b h = ground arith

pub le→leb : (a b : ℕ) → a ≤ b → leb a b ≡ true
le→leb a b h = ground arith

pub leb→lt : (a b : ℕ) → leb a b ≡ false → b < a
leb→lt a b h = ground arith

pub nat_same_iff : (a b : ℕ) → (nat_same a b ≡ true) ↔ (a ≡ b)
nat_same_iff a b = ground arith

-- Keys that the source compares by `===`.
pub record KeyEq {ℓ} (K : Type ℓ) : Type ℓ where
  pub same : K → K → Bool
  pub same_iff : (j k : K) → (same j k ≡ true) ↔ (j ≡ k)

instance abbrev pub text_keys : KeyEq String
text_keys = record { same = str_eq; same_iff = eq_iff }

instance abbrev pub nat_keys : KeyEq ℕ
nat_keys = record { same = nat_same; same_iff = nat_same_iff }

module _ {ℓ} {K : Type ℓ} ⦃keys : KeyEq K⦄ where
  infix 50 ◌==◌
  abbrev pub ◌==◌ : K → K → Bool
  j == k = keys.same j k

pub pair_same_iff {ℓ κ} :
    {J : Type ℓ} {K : Type κ} ⦃e : KeyEq J⦄ ⦃f : KeyEq K⦄ (a b : J × K)
    → (e.same a.0 b.0 && f.same a.1 b.1 ≡ true) ↔ (a ≡ b)
pair_same_iff ⦃e⦄ ⦃f⦄ (a, x) (b, y) = (
  λ h.
      let left : e.same a b ≡ true = ground arith in
      let right : f.same x y ≡ true = ground arith in
      rw ((e.same_iff a b).0 left, (f.same_iff x y).0 right) refl,
  λ p. rw ((e.same_iff a b).1 (ap (λ q. q.0) p), (f.same_iff x y).1 (ap (λ q. q.1) p)) refl,
)

instance abbrev pub pair_keys {ℓ κ} :
    {J : Type ℓ} {K : Type κ} ⦃e : KeyEq J⦄ ⦃f : KeyEq K⦄ → KeyEq (J × K)
pair_keys ⦃e⦄ ⦃f⦄ = record {
  same = λ a b. e.same a.0 b.0 && f.same a.1 b.1;
  same_iff = pair_same_iff;
}

pub Bool-cases : (b : Bool) → (b ≡ true) ⊎ (b ≡ false)
Bool-cases true = inl refl
Bool-cases false = inr refl

pub Option-cases {ℓ} : {A : Type ℓ} (o : Option A) → (o ≡ none) ⊎ ((a : A) × (o ≡ some a))
Option-cases none = inl refl
Option-cases (some a) = inr (a, refl)

-- What holds of both branches holds of the conditional.
pub if_both {ℓ κ} :
    {A : Type ℓ} (P : A → Type κ) (test : Bool) {x y : A} → P x → P y → P (if test then x else y)
if_both P true p q = p
if_both P false p q = q

pub ne_of_same {ℓ} : {A : Type ℓ} ⦃e : KeyEq A⦄ (a b : A) → (a == b) ≡ false → a ≢ b
ne_of_same ⦃e⦄ a b h p = ground (arith, (e.same_iff a b).1 p)
