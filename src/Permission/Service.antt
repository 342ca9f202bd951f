-- ===== src/Permission/Service.antt =====
-- app/services/permission.py: `PermissionService`.
pub mod Access
pub mod Calls
pub mod Plain
mod Tests
use userverse.Base.{ℕ, String, Bool, List, not}
use userverse.Messages.{management_forbidden}
use userverse.Pagination.{PaginatedResponse}
use userverse.Database.{
  UserReadModel, Role, GlobalPermission, CompanyPermission, Action, ◌>>=◌, ◌>>◌, raise_if,
}
use userverse.SystemPermissions.{
  SystemPermission, company_permissions_create, company_permissions_read,
  company_permissions_update, company_permissions_delete, company_permissions_assign,
  company_permissions_unassign,
}
use userverse.Authorization.{require}
use userverse.Permission.{
  PermissionQueryParamsModel, PermissionCreateModel, PermissionUpdateModel, PermissionReadModel,
  RoleReadModel, Externals, failure,
}
use userverse.Permission.Global
use userverse.Permission.Company
use userverse.Permission.Role
use userverse.Permission.Platform

module _ (ext : Externals) (current : UserReadModel) where
  -- `_ensure_superuser`
  pub ensure_superuser : Action (Unit {0})
  ensure_superuser = raise_if (not current.is_superuser) (failure 403 management_forbidden)

  -- `_ensure_company_permission`
  pub ensure_company_permission : ℕ → SystemPermission → Action (Unit {0})
  ensure_company_permission company_id permission = do
    _ ← Company.ensure_company company_id
    require ext.uuid5 current company_id permission

  pub create_global_permission : ℕ → PermissionCreateModel → Action PermissionReadModel
  unfolding ensure_superuser
  create_global_permission id payload =
      ensure_superuser >> Global.create_permission id payload current

  pub get_global_permissions :
      (ilike : String → String → Bool)
      → (row_le : GlobalPermission → GlobalPermission → Bool) → PermissionQueryParamsModel
      → Action (PaginatedResponse PermissionReadModel)
  unfolding ensure_superuser
  get_global_permissions ilike row_le payload =
      ensure_superuser >> Global.get_permissions ilike row_le payload

  pub update_global_permission : ℕ → PermissionUpdateModel → Action PermissionReadModel
  unfolding ensure_superuser
  update_global_permission permission_id payload =
      ensure_superuser >> Global.update_permission ext permission_id payload

  pub delete_global_permission : ℕ → Action String
  unfolding ensure_superuser
  delete_global_permission permission_id =
      ensure_superuser >> Global.delete_permission ext permission_id

  pub create_company_permission : ℕ → ℕ → PermissionCreateModel → Action PermissionReadModel
  create_company_permission company_id id payload = do
    ensure_company_permission company_id company_permissions_create
    Company.create_permission company_id id payload current

  pub get_company_permissions :
      (ilike : String → String → Bool)
      → (row_le : CompanyPermission → CompanyPermission → Bool) → ℕ
      → PermissionQueryParamsModel
      → Action (PaginatedResponse PermissionReadModel)
  get_company_permissions ilike row_le company_id payload = do
    ensure_company_permission company_id company_permissions_read
    Company.get_permissions company_id ilike row_le payload

  pub update_company_permission : ℕ → ℕ → PermissionUpdateModel → Action PermissionReadModel
  update_company_permission company_id permission_id payload = do
    ensure_company_permission company_id company_permissions_update
    Company.update_permission company_id permission_id payload

  pub delete_company_permission : ℕ → ℕ → Action String
  delete_company_permission company_id permission_id = do
    ensure_company_permission company_id company_permissions_delete
    Company.delete_permission company_id permission_id

  pub get_global_role_permissions : ℕ → Action (List PermissionReadModel)
  unfolding ensure_superuser
  get_global_role_permissions role_id =
      ensure_superuser >> Role.get_global_role_permissions ext role_id

  pub assign_global_permission : ℕ → ℕ → Action RoleReadModel
  unfolding ensure_superuser
  assign_global_permission role_id permission_id =
      ensure_superuser >> Role.assign_global_permission ext role_id permission_id

  pub remove_global_permission : ℕ → ℕ → Action RoleReadModel
  unfolding ensure_superuser
  remove_global_permission role_id permission_id =
      ensure_superuser >> Role.remove_global_permission ext role_id permission_id

  pub get_company_role_permissions : ℕ → ℕ → Action (List PermissionReadModel)
  get_company_role_permissions company_id role_id = do
    ensure_company_permission company_id company_permissions_read
    Role.get_company_role_permissions ext company_id role_id

  pub assign_company_permission : ℕ → ℕ → ℕ → Action RoleReadModel
  assign_company_permission company_id role_id permission_id = do
    ensure_company_permission company_id company_permissions_assign
    Role.assign_company_permission ext company_id role_id permission_id

  pub remove_company_permission : ℕ → ℕ → ℕ → Action RoleReadModel
  remove_company_permission company_id role_id permission_id = do
    ensure_company_permission company_id company_permissions_unassign
    Role.remove_company_permission ext company_id role_id permission_id

  module _ (role_le : Role → Role → Bool) where
    pub get_platform_roles : ℕ → Action (List RoleReadModel)
    unfolding ensure_superuser
    get_platform_roles user_id = ensure_superuser >> Platform.get_roles ext role_le user_id

    pub assign_platform_role : ℕ → ℕ → Action (List RoleReadModel)
    unfolding ensure_superuser
    assign_platform_role user_id role_id =
        ensure_superuser >> Platform.assign_role ext role_le user_id role_id

    pub remove_platform_role : ℕ → ℕ → Action (List RoleReadModel)
    unfolding ensure_superuser
    remove_platform_role user_id role_id =
        ensure_superuser >> Platform.remove_role ext role_le user_id role_id

    pub get_my_platform_permissions : Action (List PermissionReadModel)
    get_my_platform_permissions = Platform.get_effective_permissions ext role_le current.id
