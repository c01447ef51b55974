-- ===== src/Roles/Hierarchy.antt =====
-- src/identity/roles/constants/role-hierarchy.ts and enums/user-role.enum.ts. The recursion of
-- `getInheritedRoles` runs on fuel: one round for each role.
use peerx_backend.Common.{
  ℕ, zero, suc, ◌≡◌, ◌↔◌, refl, sym, ap, ◌∙◌, Bool, true, false, not, ◌&&◌, List, [], ◌∷◌, ◌++◌,
  map, KeyEq, ◌==◌, nat_keys, nat_same_iff, if◌then◌else◌,
}

pub data UserRole : Type 0 where
  super_admin admin compliance_officer support_agent trader institutional_client : UserRole
  governance_operator staff user kyc_operator kyc_governance : UserRole

abbrev pub index_of : UserRole → ℕ
index_of super_admin = 0
index_of admin = 1
index_of compliance_officer = 2
index_of support_agent = 3
index_of trader = 4
index_of institutional_client = 5
index_of governance_operator = 6
index_of staff = 7
index_of user = 8
index_of kyc_operator = 9
index_of kyc_governance = 10

abbrev role_at : ℕ → UserRole
role_at n =
    if n == 0
    then super_admin
    else if n == 1
    then admin
    else if n == 2
    then compliance_officer
    else if n == 3
    then support_agent
    else if n == 4
    then trader
    else if n == 5
    then institutional_client
    else if n == 6
    then governance_operator
    else if n == 7
    then staff
    else if n == 8
    then user
    else if n == 9
    then kyc_operator
    else kyc_governance

role_at-index_of : (r : UserRole) → role_at (index_of r) ≡ r
role_at-index_of super_admin = refl
role_at-index_of admin = refl
role_at-index_of compliance_officer = refl
role_at-index_of support_agent = refl
role_at-index_of trader = refl
role_at-index_of institutional_client = refl
role_at-index_of governance_operator = refl
role_at-index_of staff = refl
role_at-index_of user = refl
role_at-index_of kyc_operator = refl
role_at-index_of kyc_governance = refl

pub role_same_iff : (a b : UserRole) → ((index_of a == index_of b) ≡ true) ↔ (a ≡ b)
role_same_iff a b = (
  λ h.
      sym (role_at-index_of a)
      ∙ ap role_at ((nat_same_iff (index_of a) (index_of b)).0 h)
      ∙ role_at-index_of b,
  λ p. (nat_same_iff (index_of a) (index_of b)).1 (ap index_of p),
)

instance abbrev pub role_keys : KeyEq UserRole
role_keys = record { same = λ a b. index_of a == index_of b; same_iff = role_same_iff }

abbrev pub role_hierarchy : UserRole → List UserRole
role_hierarchy super_admin = []
role_hierarchy admin = super_admin ∷ []
role_hierarchy compliance_officer = admin ∷ []
role_hierarchy support_agent = admin ∷ []
role_hierarchy trader = user ∷ []
role_hierarchy institutional_client = trader ∷ []
role_hierarchy governance_operator = staff ∷ []
role_hierarchy staff = trader ∷ []
role_hierarchy user = []
role_hierarchy kyc_operator = user ∷ []
role_hierarchy kyc_governance = staff ∷ kyc_operator ∷ []

abbrev pub role_priority : UserRole → ℕ
role_priority super_admin = 110
role_priority admin = 100
role_priority compliance_officer = 85
role_priority governance_operator = 80
role_priority kyc_governance = 70
role_priority support_agent = 65
role_priority staff = 60
role_priority institutional_client = 45
role_priority kyc_operator = 40
role_priority trader = 30
role_priority user = 20

abbrev pub role_incompatibilities : UserRole → List UserRole
role_incompatibilities governance_operator = kyc_operator ∷ kyc_governance ∷ []
role_incompatibilities kyc_operator = governance_operator ∷ []
role_incompatibilities kyc_governance = governance_operator ∷ []
role_incompatibilities _ = []

unfoldable pub includes : UserRole → List UserRole → Bool
includes r [] = false
includes r (s ∷ ss) = if s == r then true else includes r ss

-- `push` of what is not there.
unfoldable pub push_absent : List UserRole → List UserRole → List UserRole
push_absent inherited [] = inherited
push_absent inherited (r ∷ rs) =
    push_absent (if includes r inherited then inherited else inherited ++ r ∷ []) rs

unfoldable pub push_all : List UserRole → List (List UserRole) → List UserRole
push_all inherited [] = inherited
push_all inherited (rs ∷ rest) = push_all (push_absent inherited rs) rest

unfoldable pub inherited_within : ℕ → UserRole → List UserRole
inherited_within zero role = role ∷ []
inherited_within (suc n) role =
    push_all (role ∷ []) (map (inherited_within n) (role_hierarchy role))

abbrev pub get_inherited_roles : UserRole → List UserRole
get_inherited_roles role = inherited_within 11 role

unfoldable pub are_roles_compatible : UserRole → UserRole → Bool
are_roles_compatible a b =
    if a == b
    then true
    else not (includes b (role_incompatibilities a)) && not (includes a (role_incompatibilities b))
