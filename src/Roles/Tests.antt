-- ===== src/Roles/Tests.antt =====
-- The roles of src/identity/roles at concrete inputs.
use peerx_backend.Common.{◌≡◌, ◌↔◌, refl, true, false, [], ◌∷◌}
use peerx_backend.Roles.Hierarchy.{
  super_admin, admin, trader, user, staff, governance_operator, kyc_operator, kyc_governance,
  includes, push_absent, push_all, inherited_within, get_inherited_roles, are_roles_compatible,
}
use peerx_backend.Roles.Inherited.{Inherits, get_inherited_roles-Inherits}

kyc_governance_inherits :
    get_inherited_roles kyc_governance ≡ kyc_governance ∷ staff ∷ trader ∷ user ∷ kyc_operator ∷ []
unfolding inherited_within push_all push_absent includes
kyc_governance_inherits = refl

-- The administrator inherits the role above its own.
admin_inherits : get_inherited_roles admin ≡ admin ∷ super_admin ∷ []
unfolding inherited_within push_all push_absent includes
admin_inherits = refl

separated : are_roles_compatible kyc_operator governance_operator ≡ false
unfolding are_roles_compatible includes
separated = refl

get_inherited_roles-Inherits_example :
    (includes super_admin (get_inherited_roles admin) ≡ true) ↔ Inherits admin super_admin
get_inherited_roles-Inherits_example = get_inherited_roles-Inherits admin super_admin
