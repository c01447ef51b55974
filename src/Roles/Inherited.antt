-- ===== src/Roles/Inherited.antt =====
-- `getInheritedRoles` of src/identity/roles/constants/role-hierarchy.ts against the relation of
-- inheritance.
use peerx_backend.Common.{
  ℕ, zero, suc, ◌≡◌, ◌↔◌, ◌⊎◌, refl, subst, true, List, [], ◌∷◌, ◌++◌, map, arith, inl, inr,
  Bool-cases, ◌==◌,
}
use peerx_backend.Roles.Hierarchy.{
  UserRole, super_admin, admin, compliance_officer, support_agent, trader, institutional_client,
  governance_operator, staff, user, kyc_operator, kyc_governance, role_keys, role_same_iff,
  role_hierarchy, includes, push_absent, push_all, inherited_within, get_inherited_roles,
}

-- The element of a list.
pub data IsParent (p : UserRole) : List UserRole → Type 0 where
  first : {ps : List UserRole} → IsParent p (p ∷ ps)
  next : {q : UserRole} {ps : List UserRole} → IsParent p ps → IsParent p (q ∷ ps)

-- A role inherits itself, and what a parent inherits.
pub data Inherits : UserRole → UserRole → Type 0 where
  itself : {r : UserRole} → Inherits r r
  by_parent : {r p s : UserRole} → IsParent p (role_hierarchy r) → Inherits p s → Inherits r s

includes-append_self : (r : UserRole) (xs : List UserRole) → includes r (xs ++ r ∷ []) ≡ true
unfolding includes
includes-append_self r [] = ground (arith, role_same_iff r r)
includes-append_self r (x ∷ xs) = ground (arith, includes-append_self r xs)

includes-append_left :
    (r s : UserRole) (xs : List UserRole) → includes r xs ≡ true → includes r (xs ++ s ∷ []) ≡ true
unfolding includes
includes-append_left r s [] h = cc
includes-append_left r s (x ∷ xs) h = ground (arith, includes-append_left r s xs)

includes-append_cases :
    (r s : UserRole) (xs : List UserRole)
    → includes r (xs ++ s ∷ []) ≡ true
    → (includes r xs ≡ true) ⊎ (s ≡ r)
unfolding includes
includes-append_cases r s [] h = elim (Bool-cases (s == r)) [
  | inl e ↦ inr ((role_same_iff s r).0 e)
  | inr d ↦ ground arith
]
includes-append_cases r s (x ∷ xs) h = elim (Bool-cases (x == r)) [
  | inl e ↦ inl (rw e refl)
  | inr d ↦ rw d (includes-append_cases r s xs (rw d at h))
]

-- What is pushed: what was there and what is in the list.
push_absent-left :
    (r : UserRole) (xs ys : List UserRole)
    → includes r xs ≡ true
    → includes r (push_absent xs ys) ≡ true
unfolding push_absent
push_absent-left r xs [] h = h
push_absent-left r xs (y ∷ ys) h = elim (Bool-cases (includes y xs)) [
  | inl there ↦ rw there (push_absent-left r xs ys h)
  | inr absent ↦ rw absent (push_absent-left r (xs ++ y ∷ []) ys (includes-append_left r y xs h))
]

push_absent-right :
    (r : UserRole) (ys xs : List UserRole)
    → includes r ys ≡ true
    → includes r (push_absent xs ys) ≡ true
unfolding push_absent includes
push_absent-right r [] xs h = cc
push_absent-right r (y ∷ ys) xs h = elim (Bool-cases (y == r)) [
  | inr other ↦ push_absent-right r ys _ (rw other at h)
  | inl same ↦
      let e : y ≡ r = (role_same_iff y r).0 same in
      elim (Bool-cases (includes y xs)) [
        | inl there ↦
            rw there (push_absent-left r xs ys (subst (λ x. includes x xs ≡ true) e there))
        | inr absent ↦ rw absent (
            push_absent-left r (xs ++ y ∷ []) ys
              (subst (λ x. includes x (xs ++ y ∷ []) ≡ true) e (includes-append_self y xs)))
      ]
]

push_absent-cases :
    (r : UserRole) (xs ys : List UserRole)
    → includes r (push_absent xs ys) ≡ true
    → (includes r xs ≡ true) ⊎ (includes r ys ≡ true)
unfolding push_absent includes
push_absent-cases r xs [] h = inl h
push_absent-cases r xs (y ∷ ys) h = elim (Bool-cases (y == r)) [
  | inl same ↦ inr (rw same refl)
  | inr other ↦ elim (Bool-cases (includes y xs)) [
    | inl there ↦ elim (push_absent-cases r xs ys (rw there at h)) [
      | inl old ↦ inl old
      | inr new ↦ inr (rw other new)
    ]
    | inr absent ↦ elim (push_absent-cases r (xs ++ y ∷ []) ys (rw absent at h)) [
      | inl old ↦ elim (includes-append_cases r y xs old) [
        | inl before ↦ inl before
        | inr e ↦ inr (rw ((role_same_iff y r).1 e) refl)
      ]
      | inr new ↦ inr (rw other new)
    ]
  ]
]

push_all-left :
    (r : UserRole) (xs : List UserRole) (lists : List (List UserRole))
    → includes r xs ≡ true
    → includes r (push_all xs lists) ≡ true
unfolding push_all
push_all-left r xs [] h = h
push_all-left r xs (ys ∷ rest) h =
    push_all-left r (push_absent xs ys) rest (push_absent-left r xs ys h)

-- A role that a parent has within some rounds.
record FromParent (n : ℕ) (s : UserRole) (ps : List UserRole) : Type 0 where
  parent : UserRole
  is_parent : IsParent parent ps
  has : includes s (inherited_within n parent) ≡ true

push_all-parent :
    (n : ℕ) (s p : UserRole) (xs ps : List UserRole)
    → IsParent p ps
    → includes s (inherited_within n p) ≡ true
    → includes s (push_all xs (map (inherited_within n) ps)) ≡ true
unfolding push_all
push_all-parent n s p xs _ (first {ps = ps}) h =
    push_all-left s (push_absent xs (inherited_within n p)) (map (inherited_within n) ps)
      (push_absent-right s (inherited_within n p) xs h)
push_all-parent n s p xs _ (next {q = q} {ps = ps} i) h =
    push_all-parent n s p (push_absent xs (inherited_within n q)) ps i h

push_all-cases :
    (n : ℕ) (s : UserRole) (xs ps : List UserRole)
    → includes s (push_all xs (map (inherited_within n) ps)) ≡ true
    → (includes s xs ≡ true) ⊎ FromParent n s ps
unfolding push_all
push_all-cases n s xs [] h = inl h
push_all-cases n s xs (p ∷ ps) h =
    elim (push_all-cases n s (push_absent xs (inherited_within n p)) ps h) [
      | inr f ↦ inr record { parent = f.parent; is_parent = next f.is_parent; has = f.has }
      | inl pushed ↦ elim (push_absent-cases s xs (inherited_within n p) pushed) [
        | inl old ↦ inl old
        | inr new ↦ inr record { parent = p; is_parent = first; has = new }
      ]
    ]

includes-one : (r s : UserRole) → includes s (r ∷ []) ≡ true → r ≡ s
unfolding includes
includes-one r s h = elim (Bool-cases (r == s)) [
  | inl same ↦ (role_same_iff r s).0 same
  | inr other ↦ ground arith
]

includes-own : (r : UserRole) → includes r (r ∷ []) ≡ true
unfolding includes
includes-own r = ground (arith, role_same_iff r r)

-- What a search of any depth finds is inherited.
within-Inherits : (n : ℕ) (r s : UserRole) → includes s (inherited_within n r) ≡ true → Inherits r s
unfolding inherited_within
within-Inherits zero r s h = subst (Inherits r) (includes-one r s h) itself
within-Inherits (suc n) r s h = elim (push_all-cases n s (r ∷ []) (role_hierarchy r) h) [
  | inl own ↦ subst (Inherits r) (includes-one r s own) itself
  | inr f ↦ by_parent f.is_parent (within-Inherits n f.parent s f.has)
]

-- One more round than the roles finds nothing new.
enough_rounds : (r : UserRole) → inherited_within 12 r ≡ inherited_within 11 r
unfolding inherited_within push_all push_absent includes
enough_rounds super_admin = refl
enough_rounds admin = refl
enough_rounds compliance_officer = refl
enough_rounds support_agent = refl
enough_rounds trader = refl
enough_rounds institutional_client = refl
enough_rounds governance_operator = refl
enough_rounds staff = refl
enough_rounds user = refl
enough_rounds kyc_operator = refl
enough_rounds kyc_governance = refl

Inherits-within : (r s : UserRole) → Inherits r s → includes s (get_inherited_roles r) ≡ true
unfolding inherited_within
Inherits-within r _ itself =
    push_all-left r (r ∷ []) (map (inherited_within 10) (role_hierarchy r)) (includes-own r)
Inherits-within r s (by_parent {p = p} i rest) =
    subst (λ xs. includes s xs ≡ true) (enough_rounds r)
      (push_all-parent 11 s p (r ∷ []) (role_hierarchy r) i (Inherits-within p s rest))

-- `getInheritedRoles` lists a role exactly when it is the role itself or is inherited by one of its
-- parents in the hierarchy.
pub get_inherited_roles-Inherits :
    (r s : UserRole) → (includes s (get_inherited_roles r) ≡ true) ↔ Inherits r s
get_inherited_roles-Inherits r s = (within-Inherits 11 r s, Inherits-within r s)
