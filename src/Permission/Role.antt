-- ===== src/Permission/Role.antt =====
-- app/repository/permission.py: `RolePermissionRepository`, but for the queries of effective
-- permissions.
mod Tests
pub mod Steps
pub mod Access
pub mod Writes
use userverse.Base.{
  ℕ, Bool, true, ◌&&◌, ◌||◌, not, none, some, List, [], ◌∷◌, ◌++◌, any, all, filter, ◌==◌, nat_Eq,
  is_none, is_some,
}
use userverse.Messages.{not_found, already_assigned, assignment_not_found, literal}
use userverse.Database.{
  Role, CompanyRole, RoleGlobalPermission, CompanyRolePermission, Db, Error, app_error, Action,
  gets, ◌>>=◌, ◌>>◌, modify, commit, raise_if, write_if, on_integrity_error, select_one, or_raise,
}
use userverse.Permission.{PermissionReadModel, RoleReadModel, Externals, failure}
use userverse.Permission.Effective.{
  global_permissions_by_role_ids, effective_permissions, global_role_read, company_role_read,
}
use userverse.Permission.Global
use userverse.Permission.Company

-- `_ensure_role`
pub ensure_role : ℕ → Action Role
ensure_role role_id = do
  found ← select_one (λ db. db.roles) (λ r. (r.id == role_id) && is_none r.closed_at)
  or_raise (app_error 404 (literal "No role found with the given identifier.")) found

-- `_ensure_company_role`
unfoldable pub ensure_company_role : ℕ → ℕ → Action CompanyRole
ensure_company_role company_id role_id = do
  found ←
      select_one (λ db. db.company_roles)
        (λ cr. (cr.company_id == company_id) && (cr.role_id == role_id) && is_none cr.closed_at)
  or_raise (app_error 404 (literal "Role is not linked to the company.")) found

-- `filter_by(role_id=…, global_permission_id=…)`; closed links count.
pub links_global : ℕ → ℕ → RoleGlobalPermission → Bool
links_global role_id permission_id l =
    (l.role_id == role_id) && (l.global_permission_id == permission_id)

-- The primary key and the two foreign keys.
pub may_link_global : ℕ → ℕ → Db → Bool
may_link_global role_id permission_id db =
    all (λ l. not (links_global role_id permission_id l)) db.role_global_permissions
    && any (λ r. r.id == role_id) db.roles
    && any (λ p. p.id == permission_id) db.global_permissions

pub link_global : ℕ → ℕ → Db → Db
link_global role_id permission_id db = record db {
  role_global_permissions =
      db.role_global_permissions
      ++ record {
        role_id = role_id;
        global_permission_id = permission_id;
        closed_at = none;
        primary_meta_data = [];
      }
        ∷ [];
}

pub unlink_global : ℕ → ℕ → Db → Db
unlink_global role_id permission_id db = record db {
  role_global_permissions =
      filter (λ l. not (links_global role_id permission_id l)) db.role_global_permissions;
}

links_company : ℕ → ℕ → ℕ → CompanyRolePermission → Bool
links_company company_id role_id permission_id l =
    (l.company_id == company_id)
    && (l.role_id == role_id)
    && (l.company_permission_id == permission_id)

may_link_company : ℕ → ℕ → ℕ → Db → Bool
may_link_company company_id role_id permission_id db =
    all (λ l. not (links_company company_id role_id permission_id l)) db.company_role_permissions
    && any (λ cr. (cr.company_id == company_id) && (cr.role_id == role_id)) db.company_roles
    && any (λ p. (p.company_id == company_id) && (p.id == permission_id)) db.company_permissions

link_company : ℕ → ℕ → ℕ → Db → Db
link_company company_id role_id permission_id db = record db {
  company_role_permissions =
      db.company_role_permissions
      ++ record {
        company_id = company_id;
        role_id = role_id;
        company_permission_id = permission_id;
        closed_at = none;
      }
        ∷ [];
}

unlink_company : ℕ → ℕ → ℕ → Db → Db
unlink_company company_id role_id permission_id db = record db {
  company_role_permissions =
      filter (λ l. not (links_company company_id role_id permission_id l))
        db.company_role_permissions;
}

module _ (ext : Externals) where
  pub get_global_role_permissions : ℕ → Action (List PermissionReadModel)
  get_global_role_permissions role_id = do
    _ ← ensure_role role_id
    gets (λ db. global_permissions_by_role_ids ext (role_id ∷ []) db role_id)

  unfoldable pub get_company_role_permissions : ℕ → ℕ → Action (List PermissionReadModel)
  get_company_role_permissions company_id role_id = do
    _ ← ensure_company_role company_id role_id
    gets (effective_permissions ext company_id role_id)

  -- The commit is in no `try` block.
  pub assign_global_permission : ℕ → ℕ → Action RoleReadModel
  assign_global_permission role_id permission_id = do
    role ← ensure_role role_id
    permission ← Global.ensure_record permission_id
    existing ← select_one (λ db. db.role_global_permissions) (links_global role_id permission.id)
    raise_if (is_some existing) (failure 409 already_assigned)
    write_if (may_link_global role_id permission.id) (link_global role_id permission.id)
    commit
    gets (global_role_read ext role)

  pub remove_global_permission : ℕ → ℕ → Action RoleReadModel
  remove_global_permission role_id permission_id = do
    role ← ensure_role role_id
    _ ← Global.ensure_record permission_id
    found ← select_one (λ db. db.role_global_permissions) (links_global role_id permission_id)
    _ ← or_raise (failure 404 assignment_not_found) found
    modify (unlink_global role_id permission_id)
    commit
    gets (global_role_read ext role)

  pub assign_company_permission : ℕ → ℕ → ℕ → Action RoleReadModel
  assign_company_permission company_id role_id permission_id = do
    _ ← ensure_company_role company_id role_id
    role ← ensure_role role_id
    permission ← Company.ensure_record company_id permission_id
    existing ←
        select_one (λ db. db.company_role_permissions)
          (links_company company_id role_id permission.id)
    raise_if (is_some existing) (failure 409 already_assigned)
    on_integrity_error
        (do
          write_if (may_link_company company_id role_id permission.id)
              (link_company company_id role_id permission.id)
          commit)
        (failure 404 not_found)
    gets (company_role_read ext company_id role)

  pub remove_company_permission : ℕ → ℕ → ℕ → Action RoleReadModel
  remove_company_permission company_id role_id permission_id = do
    _ ← ensure_company_role company_id role_id
    role ← ensure_role role_id
    _ ← Company.ensure_record company_id permission_id
    found ←
        select_one (λ db. db.company_role_permissions)
          (links_company company_id role_id permission_id)
    _ ← or_raise (failure 404 assignment_not_found) found
    modify (unlink_company company_id role_id permission_id)
    commit
    gets (company_role_read ext company_id role)
