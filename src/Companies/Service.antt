-- ===== src/Companies/Service.antt =====
-- app/services/company/company.py: `CompanyService`. The repository's methods return a company or
-- raise, so that the tests of what they return do not fail.
use userverse.Base.{ℕ, String, Option, none, some, ◌==◌, string_Eq, if◌then◌else◌}
use userverse.Messages.{company, company_id_or_email_required}
use userverse.Database.{UserReadModel, app_error, Action, pure, raise, ◌>>=◌, ◌>>◌}
use userverse.SystemPermissions.{company_read, company_update, company_delete}
use userverse.Authorization.{require}
use userverse.Permission.{Externals}
use userverse.Companies.{
  CompanyCreateModel, CompanyUpdateModel, CompanyReadModel, get_company_by_id, get_company_by_email,
}
use userverse.Companies

module _ (ext : Externals) (current : UserReadModel) where
  pub create_company : (new_id : String → ℕ) → ℕ → CompanyCreateModel → Action CompanyReadModel
  create_company new_id id payload = Companies.create_company ext new_id id payload current

  -- If both are given, both are looked up, and the company of the email is returned.
  find_company : Option ℕ → Option String → Action CompanyReadModel
  find_company none none = raise (app_error 400 (company company_id_or_email_required))
  find_company (some id) none = get_company_by_id id
  find_company none (some email) =
      if email == ""
      then raise (app_error 400 (company company_id_or_email_required))
      else get_company_by_email email
  find_company (some id) (some email) =
      if email == ""
      then get_company_by_id id
      else (get_company_by_id id >> get_company_by_email email)

  get_company : Option ℕ → Option String → Action CompanyReadModel
  unfolding find_company
  get_company company_id email = do
    c ← find_company company_id email
    require ext.uuid5 current c.id company_read
    pure c

  pub update_company : CompanyUpdateModel → ℕ → Action CompanyReadModel
  update_company payload company_id = do
    require ext.uuid5 current company_id company_update
    Companies.update_company payload company_id

  pub delete_company : (now : ℕ) → ℕ → Action (Unit {0})
  delete_company now company_id = do
    require ext.uuid5 current company_id company_delete
    Companies.delete_company now company_id
