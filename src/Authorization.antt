-- ===== src/Authorization.antt =====
-- app/services/company/authorization.py: `CompanyAuthorizationService.require`. The user of the
-- shared context is an argument.
pub mod Laws
pub mod Grants
mod Tests
use userverse.Base.{
  ℕ, String, Bool, true, false, ◌&&◌, Option, none, some, any, ◌==◌, nat_Eq, string_Eq, is_none,
  if◌then◌else◌,
}
use userverse.Messages.{Message, company, unauthorized_company_access}
use userverse.Database.{
  UserReadModel, AssociationUserCompany, Company, CompanyRole, Role, RoleGlobalPermission,
  GlobalPermission, Db, Error, app_error, Action, pure, raise, gets, ◌>>=◌,
}
use userverse.SystemPermissions.{SystemPermission, value, permission_id}

-- The joins and the filter of the query, on one row of each table.
module _ (uuid5 : String → ℕ) (user_id company_id : ℕ) (permission : SystemPermission) where
  pub joins :
      AssociationUserCompany
      → Company
      → CompanyRole
      → Role
      → RoleGlobalPermission
      → GlobalPermission
      → Bool
  joins a c cr r l g =
      (c.id == a.company_id)
      && (cr.company_id == a.company_id && cr.role_id == a.role_id)
      && (r.id == a.role_id)
      && (l.role_id == a.role_id)
      && (g.id == l.global_permission_id)

  pub passes :
      AssociationUserCompany
      → Company
      → CompanyRole
      → Role
      → RoleGlobalPermission
      → GlobalPermission
      → Bool
  passes a c cr r l g =
      (a.user_id == user_id)
      && (a.company_id == company_id)
      && is_none a.closed_at
      && is_none c.closed_at
      && is_none cr.closed_at
      && is_none r.closed_at
      && is_none l.closed_at
      && (g.id == permission_id uuid5 permission)
      && (g.name == value permission)
      && is_none g.closed_at

  -- The query, a level for each table.
  pub with_permissions :
      Db → AssociationUserCompany → Company → CompanyRole → Role → RoleGlobalPermission → Bool
  unfolding joins passes
  with_permissions db a c cr r l =
      any (λ g. joins a c cr r l g && passes a c cr r l g) db.global_permissions

  pub with_links : Db → AssociationUserCompany → Company → CompanyRole → Role → Bool
  unfolding with_permissions
  with_links db a c cr r = any (with_permissions db a c cr r) db.role_global_permissions

  pub with_roles : Db → AssociationUserCompany → Company → CompanyRole → Bool
  unfolding with_links
  with_roles db a c cr = any (with_links db a c cr) db.roles

  pub with_company_roles : Db → AssociationUserCompany → Company → Bool
  unfolding with_roles
  with_company_roles db a c = any (with_roles db a c) db.company_roles

  pub with_companies : Db → AssociationUserCompany → Bool
  unfolding with_company_roles
  with_companies db a = any (with_company_roles db a) db.companies

  -- `query(…).join(…).filter(…).first() is not None`
  pub is_authorized : Db → Bool
  unfolding with_companies
  is_authorized db = any (with_companies db) db.associations

pub require : (String → ℕ) → UserReadModel → ℕ → SystemPermission → Action (Unit {0})
require uuid5 current company_id permission = if current.is_superuser then pure tt else (do
  authorized ← gets (is_authorized uuid5 current.id company_id permission)
  if authorized then pure tt else raise (app_error 403 (company unauthorized_company_access)))
