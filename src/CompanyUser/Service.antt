-- ===== src/CompanyUser/Service.antt =====
-- app/services/company/user.py: `CompanyUserService`, but for its listing. Sending the invitation,
-- whose failures are only logged, is left out.
pub mod Owner
use userverse.Base.{ℕ, String, none, ◌&&◌, ◌==◌, nat_Eq, is_none}
use userverse.Messages.{company, company_user, company_not_found, remove_user_failed}
use userverse.Database.{
  UserReadModel, app_error, Action, pure, gets, select_one, ◌>>=◌, ◌>>◌, raise_if, or_raise,
}
use userverse.SystemPermissions.{
  company_members_add, company_members_role_update, company_members_remove,
}
use userverse.Authorization.{require}
use userverse.Permission.{Externals}
use userverse.CompanyUser.{CompanyUserAddModel, CompanyUserReadModel, is_user_linked_to_company}
use userverse.CompanyUser

module _ (ext : Externals) (current : UserReadModel) (company_id : ℕ) where
  pub add_user_to_company : CompanyUserAddModel → Action CompanyUserReadModel
  add_user_to_company payload = do
    require ext.uuid5 current company_id company_members_add
    user ← CompanyUser.add_user_to_company ext company_id payload current
    found ← select_one (λ db. db.companies) (λ c. (c.id == company_id) && is_none c.closed_at)
    _ ← or_raise (app_error 404 (company company_not_found)) found
    pure user

  pub update_user_role : ℕ → String → Action CompanyUserReadModel
  update_user_role user_id role_name = do
    require ext.uuid5 current company_id company_members_role_update
    CompanyUser.update_user_role ext company_id user_id role_name current

  pub remove_user_from_company : ℕ → ℕ → Action CompanyUserReadModel
  remove_user_from_company now user_id = do
    require ext.uuid5 current company_id company_members_remove
    owner ← gets (is_user_linked_to_company user_id company_id "Owner")
    raise_if owner (app_error 400 (company_user remove_user_failed))
    CompanyUser.remove_user_from_company ext company_id now user_id current
