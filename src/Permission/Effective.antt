-- ===== src/Permission/Effective.antt =====
-- app/repository/permission.py: the permissions of roles, `global_permissions_by_role_ids`,
-- `effective_permissions_by_assignments` and the read models of roles. A dict is read at its key.
use userverse.Base.{
  ℕ, Bool, ◌&&◌, List, [], ◌++◌, map, any, join, sort_by, ◌==◌, nat_Eq, is_none, if◌then◌else◌,
}
use userverse.Database.{
  Role, RoleGlobalPermission, GlobalPermission, CompanyRolePermission, CompanyPermission, Db,
}
use userverse.Permission.{
  PermissionReadModel, RoleReadModel, Externals, global_permission_model, company_permission_model,
}

-- An open link to an open permission.
unfoldable pub global_link : RoleGlobalPermission → GlobalPermission → Bool
global_link l p = (p.id == l.global_permission_id) && is_none l.closed_at && is_none p.closed_at

unfoldable pub company_link : CompanyRolePermission → CompanyPermission → Bool
company_link l p =
    (p.company_id == l.company_id)
    && (p.id == l.company_permission_id)
    && is_none l.closed_at
    && is_none p.closed_at

-- The models appended under a role, in the order of the query.
unfoldable pub global_models : Db → ℕ → List PermissionReadModel
unfolding global_link
global_models db role_id =
    map (λ row. global_permission_model row.1)
      (join (λ l p. (l.role_id == role_id) && global_link l p) db.role_global_permissions
        db.global_permissions)

unfoldable pub company_models : Db → ℕ → ℕ → List PermissionReadModel
unfolding company_link
company_models db company_id role_id =
    map (λ row. company_permission_model row.1)
      (join (λ l p. (l.company_id == company_id) && (l.role_id == role_id) && company_link l p)
        db.company_role_permissions db.company_permissions)

module _ (ext : Externals) where
  -- `global_permissions_by_role_ids(role_ids).get(role_id, [])`
  unfoldable pub global_permissions_by_role_ids : List ℕ → Db → ℕ → List PermissionReadModel
  unfolding global_models
  global_permissions_by_role_ids role_ids db role_id =
      if any (λ r. r == role_id) role_ids then sort_by ext.key_le (global_models db role_id) else []

  -- `effective_permissions_by_assignments([(company_id, role_id)]).get((company_id, role_id), [])`
  unfoldable pub effective_permissions : ℕ → ℕ → Db → List PermissionReadModel
  unfolding company_models
  effective_permissions company_id role_id db =
      sort_by ext.key_le
        (sort_by ext.key_le (global_models db role_id) ++ company_models db company_id role_id)

  unfoldable pub global_role_read : Role → Db → RoleReadModel
  unfolding global_models
  global_role_read role db = record {
    id = role.id;
    name = role.name;
    description = role.description;
    permissions = sort_by ext.key_le (global_models db role.id);
  }

  unfoldable pub company_role_read : ℕ → Role → Db → RoleReadModel
  unfolding effective_permissions
  company_role_read company_id role db = record {
    id = role.id;
    name = role.name;
    description = role.description;
    permissions = effective_permissions company_id role.id db;
  }
