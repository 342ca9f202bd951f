-- ===== src/SystemPermissions/Laws.antt =====
-- app/models/system_permissions.py: every system permission is defined, and the default roles form
-- a chain.
use userverse.Base.{
  ℕ, String, ◌≡◌, ◌↔◌, ◌⊎◌, Bool, true, false, arith, any, subst, ◌&&◌, any_sound, ◌==◌, ==_iff,
  ==_refl, nat_Eq, string_Eq,
}
use userverse.SystemPermissions.{
  SystemPermission, company_read, company_delete, company_members_read, value, owner, administrator,
  viewer, SystemPermissionDefinition, system_permission_definitions, is_default_for, permission_id,
  is_system_permission_id,
}

pub is_system_permission_id-permission_id :
    (uuid5 : String → ℕ) (p : SystemPermission)
    → is_system_permission_id uuid5 (permission_id uuid5 p) ≡ true
unfolding is_system_permission_id
is_system_permission_id-permission_id uuid5 company_read =
    ground (arith, ==_refl (uuid5 (value company_read)))
is_system_permission_id-permission_id uuid5 p = ground (arith, ==_refl (uuid5 (value p)))

-- `is_system_permission_id` recognises the identifiers of the system permissions and no other.
is_system_permission_id_iff :
    (uuid5 : String → ℕ) (id : ℕ)
    → (is_system_permission_id uuid5 id ≡ true)
      ↔ ((p : SystemPermission) × (permission_id uuid5 p ≡ id))
unfolding is_system_permission_id
is_system_permission_id_iff uuid5 id = (
  λ h.
      let (d, listed, same) =
        any_sound (λ (d : SystemPermissionDefinition). permission_id uuid5 d.permission == id)
          system_permission_definitions h in
      (d.permission, (==_iff _ _).0 same),
  λ s.
      subst (λ i. is_system_permission_id uuid5 i ≡ true) s.1
        (is_system_permission_id-permission_id uuid5 s.0),
)

-- A definition gives the permission to the role.
seeds : String → SystemPermission → Bool
seeds role_name p =
    any (λ d. value d.permission == value p && is_default_for role_name d)
      system_permission_definitions

-- By default the Owner role gets every system permission, the Administrator role all but deleting
-- the company, and the Viewer role reading the company and its members and no more.
default_roles_of :
    (p : SystemPermission)
    → (seeds owner p ≡ true)
      × ((seeds administrator p ≡ false) ↔ (p ≡ company_delete))
      × ((seeds viewer p ≡ true) ↔ ((p ≡ company_read) ⊎ (p ≡ company_members_read)))
unfolding seeds value is_default_for system_permission_definitions
default_roles_of company_read = ground arith
default_roles_of p = ground arith
