-- ===== src/DefaultRoles.antt =====
-- app/repository/company.py: `_ensure_default_roles`, with `seed_new_default_roles` of
-- app/repository/permission.py and `CompanyDefaultRoles` of app/models/company/roles.py.
pub mod Failure
pub mod Placement
use userverse.Base.{
  ℕ, String, Bool, true, false, ◌&&◌, Option, none, some, List, [], ◌∷◌, ◌++◌, any, filter, Dict,
  lookup, ◌==◌, nat_Eq, string_Eq, option_Eq, is_none, if◌then◌else◌,
}
use userverse.Database.{
  flag, text, Role, GlobalPermission, RoleGlobalPermission, Db, key_error, Action, pure, ◌>>=◌,
  ◌>>◌, modify, commit, write_if, select_one, or_raise,
}
use userverse.SystemPermissions.{
  SystemPermissionDefinition, permission_id, system_permission_definitions, owner, administrator,
  viewer,
}
use userverse.Permission.Role.{may_link_global}
use userverse.Permission.System.{ensure_permissions}
use userverse.Roles.Assignment.{set_role_row}
use userverse.Roles.Repository.{add_role, is_new_role}

-- `name_value` and `description` of a member of `CompanyDefaultRoles`
pub record DefaultRole : Type 0 where
  pub name_value : String
  pub description : String

unfoldable pub company_default_roles : List DefaultRole
company_default_roles =
    record { name_value = owner; description = "Full access to manage users and data" }
    ∷ record { name_value = administrator; description = "Full access to manage users and data" }
    ∷ record { name_value = viewer; description = "Read-only access to company data" }
    ∷ []

unfoldable pub default_row : ℕ → DefaultRole → Role
default_row id d = record {
  id = id;
  name = d.name_value;
  description = some d.description;
  closed_at = none;
  primary_meta_data = [];
}

unfoldable pub describe : DefaultRole → Role → Role
describe d r = record r { description = some d.description }

-- The identifier that a new role gets, by the name.
module _ (uuid5 : String → ℕ) (new_id : String → ℕ) where
  -- A role that is missing is created; one with another description gets the default.
  pub ensure_found : DefaultRole → Option Role → Action (Role × Bool)
  unfolding default_row describe
  ensure_found d none = do
    write_if (is_new_role (new_id d.name_value) d.name_value)
        (add_role (default_row (new_id d.name_value) d))
    pure (default_row (new_id d.name_value) d, true)
  ensure_found d (some r) =
      if r.description == some d.description
      then pure (r, false)
      else (do modify (set_role_row r.id (describe d)); pure (describe d r, false))

  -- The body of the loop: the role, and whether it was created.
  unfoldable pub ensure_default_role : DefaultRole → Action (Role × Bool)
  unfolding ensure_found
  ensure_default_role d = do
    found ← select_one (λ db. db.roles) (λ r. (r.name == d.name_value) && is_none r.closed_at)
    ensure_found d found

  -- The roles by name, and the names of those that were created.
  unfoldable pub ensure_each : List DefaultRole → Action (Dict String Role × List String)
  unfolding ensure_default_role
  ensure_each [] = pure ([], [])
  ensure_each (d ∷ ds) =
      let later = ensure_each ds in
      (do
        (r, created) ← ensure_default_role d
        (roles, names) ← later
        pure ((d.name_value, r) ∷ roles, (if created then d.name_value ∷ names else names)))

  pub seed_link : ℕ → ℕ → String → Db → Db
  seed_link role_id permission_id role_name db = record db {
    role_global_permissions =
        db.role_global_permissions
        ++ record {
          role_id = role_id;
          global_permission_id = permission_id;
          closed_at = none;
          primary_meta_data = ("system_default", flag true) ∷ ("role", text role_name) ∷ [];
        }
          ∷ [];
  }

  module _ (roles : Dict String Role) (permissions : Dict ℕ GlobalPermission) where
    -- The inner loop, over the names of one definition that were created.
    pub seed_names : SystemPermissionDefinition → List String → Action (Unit {0})
    unfolding seed_link
    seed_names d [] = pure tt
    seed_names d (name ∷ names) =
        let later = seed_names d names in
        (do
          role ← or_raise key_error (lookup name roles)
          permission ← or_raise key_error (lookup (permission_id uuid5 d.permission) permissions)
          write_if (may_link_global role.id permission.id) (seed_link role.id permission.id name)
          later)

    pub seed_definitions :
        (created : List String) → List SystemPermissionDefinition → Action (Unit {0})
    unfolding seed_names
    seed_definitions created [] = pure tt
    seed_definitions created (d ∷ ds) =
        let later = seed_definitions created ds in
        (seed_names d (filter (λ name. any (λ c. c == name) created) d.default_roles) >> later)

  unfoldable pub seed_new_default_roles : Dict String Role → List String → Action (Unit {0})
  unfolding seed_definitions
  seed_new_default_roles roles [] = pure tt
  seed_new_default_roles roles (name ∷ names) = do
    permissions ← ensure_permissions uuid5
    seed_definitions roles permissions (name ∷ names) system_permission_definitions

  unfoldable pub ensure_default_roles : Action (Dict String Role)
  unfolding ensure_each seed_new_default_roles
  ensure_default_roles = do
    (roles, created) ← ensure_each company_default_roles
    seed_new_default_roles roles created
    commit
    pure roles
