-- ===== src/SystemPermissions.antt =====
-- app/models/system_permissions.py, and `CompanyDefaultRoles` of app/models/company/roles.py.
-- `uuid5` in the namespace of the system permissions is a parameter.
pub mod Laws
mod Tests
use userverse.Base.{ℕ, String, Bool, List, [], ◌∷◌, map, any, ◌==◌, nat_Eq, string_Eq}

pub data SystemPermission : Type 0 where
  company_read company_update company_delete : SystemPermission
  company_members_read company_members_add : SystemPermission
  company_members_role_update company_members_remove : SystemPermission
  company_roles_read company_roles_assign company_roles_unassign : SystemPermission
  company_permissions_read company_permissions_create : SystemPermission
  company_permissions_update company_permissions_delete : SystemPermission
  company_permissions_assign company_permissions_unassign : SystemPermission

-- `SystemPermission.value`
unfoldable pub value : SystemPermission → String
value company_read = "company.read"
value company_update = "company.update"
value company_delete = "company.delete"
value company_members_read = "company.members.read"
value company_members_add = "company.members.add"
value company_members_role_update = "company.members.role.update"
value company_members_remove = "company.members.remove"
value company_roles_read = "company.roles.read"
value company_roles_assign = "company.roles.assign"
value company_roles_unassign = "company.roles.unassign"
value company_permissions_read = "company.permissions.read"
value company_permissions_create = "company.permissions.create"
value company_permissions_update = "company.permissions.update"
value company_permissions_delete = "company.permissions.delete"
value company_permissions_assign = "company.permissions.assign"
value company_permissions_unassign = "company.permissions.unassign"

abbrev pub owner : String
owner = "Owner"

abbrev pub administrator : String
administrator = "Administrator"

abbrev pub viewer : String
viewer = "Viewer"

abbrev owner_and_administrator : List String
owner_and_administrator = owner ∷ administrator ∷ []

abbrev all_default_roles : List String
all_default_roles = owner ∷ administrator ∷ viewer ∷ []

pub record SystemPermissionDefinition : Type 0 where
  pub permission : SystemPermission
  pub description : String
  pub default_roles : List String

abbrev define : SystemPermission → String → List String → SystemPermissionDefinition
define p description roles = record {
  permission = p;
  description = description;
  default_roles = roles;
}

unfoldable pub system_permission_definitions : List SystemPermissionDefinition
system_permission_definitions =
    define company_read "Read company details." all_default_roles
    ∷ define company_update "Update company details." owner_and_administrator
    ∷ define company_delete "Delete a company." (owner ∷ [])
    ∷ define company_members_read "Read company members." all_default_roles
    ∷ define company_members_add "Add members to a company." owner_and_administrator
    ∷ define company_members_role_update "Update a company member's role." owner_and_administrator
    ∷ define company_members_remove "Remove members from a company." owner_and_administrator
    ∷ define company_roles_read "Read roles enabled for a company." owner_and_administrator
    ∷ define company_roles_assign "Enable a global role for a company." owner_and_administrator
    ∷ define company_roles_unassign "Disable a global role for a company." owner_and_administrator
    ∷ define company_permissions_read "Read company permissions and effective role permissions."
        owner_and_administrator
    ∷ define company_permissions_create "Create company permissions." owner_and_administrator
    ∷ define company_permissions_update "Update company permissions." owner_and_administrator
    ∷ define company_permissions_delete "Delete company permissions." owner_and_administrator
    ∷ define company_permissions_assign "Assign company permissions to company roles."
        owner_and_administrator
    ∷ define company_permissions_unassign "Remove company permissions from company roles."
        owner_and_administrator
    ∷ []

-- The roles that `seed_new_default_roles` gives a permission to.
pub is_default_for : String → SystemPermissionDefinition → Bool
is_default_for role_name d = any (λ r. r == role_name) d.default_roles

module _ (uuid5 : String → ℕ) where
  -- `SystemPermission.permission_id`
  unfoldable pub permission_id : SystemPermission → ℕ
  permission_id p = uuid5 (value p)

  -- `permission_id in SYSTEM_PERMISSION_BY_ID`
  unfoldable pub is_system_permission_id : ℕ → Bool
  unfolding system_permission_definitions permission_id
  is_system_permission_id id =
      any (λ d. permission_id d.permission == id) system_permission_definitions
