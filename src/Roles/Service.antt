-- ===== src/Roles/Service.antt =====
-- app/services/company/role.py: `RoleService`, but for its listings.
pub mod Access
pub mod Enabled
mod Tests
use userverse.Base.{ℕ, String, Option, none, some, List, [], ◌∷◌, not}
use userverse.Messages.{company_role, role_management_forbidden}
use userverse.Database.{
  UserReadModel, Role, app_error, value_error, Action, pure, raise, raise_if, ◌>>=◌, ◌>>◌,
}
use userverse.SystemPermissions.{company_roles_assign, company_roles_unassign}
use userverse.Authorization.{require}
use userverse.Permission.{RoleReadModel, Externals}
use userverse.Roles.{RoleCreateModel, RoleUpdateModel, RoleDeleteModel, RoleAssignCompaniesModel}
use userverse.Roles.Repository.{get_role_by_name, ensure_role_exists}
use userverse.Roles.Repository
use userverse.Roles.Repository.OfCompany.{update_role_of_company}
use userverse.Roles.Assignment

-- Which role `update_role` is about: its identifier, or a company and a name.
pub data RoleTarget : Type 0 where
  by_id : (role_id : ℕ) → RoleTarget
  by_name : (company_id : ℕ) (name : String) → RoleTarget

module _ (ext : Externals) (current : UserReadModel) where
  -- `_ensure_superuser`
  pub ensure_superuser : Action (Unit {0})
  ensure_superuser =
      raise_if (not current.is_superuser) (app_error 403 (company_role role_management_forbidden))

  pub create_role : ℕ → RoleCreateModel → Action RoleReadModel
  unfolding ensure_superuser
  create_role id payload = ensure_superuser >> Repository.create_role ext id payload current

  update_target : RoleTarget → RoleUpdateModel → Action RoleReadModel
  update_target (by_id role_id) payload = Repository.update_role ext role_id payload
  update_target (by_name company_id name) payload =
      update_role_of_company company_id ext name payload

  pub update_role : RoleTarget → RoleUpdateModel → Action RoleReadModel
  unfolding ensure_superuser update_target
  update_role target payload = ensure_superuser >> update_target target payload

  pub update_company_role : ℕ → String → RoleUpdateModel → Action RoleReadModel
  unfolding ensure_superuser
  update_company_role company_id name payload =
      ensure_superuser >> Assignment.update_company_role company_id ext name payload

  pub delete_global_role : ℕ → ℕ → Action String
  unfolding ensure_superuser
  delete_global_role now role_id = ensure_superuser >> Repository.delete_role now role_id current

  pub assign_role_to_company : ℕ → ℕ → Action RoleReadModel
  assign_role_to_company company_id role_id = do
    require ext.uuid5 current company_id company_roles_assign
    role ← ensure_role_exists role_id
    Assignment.assign_role company_id ext role current

  -- `UUID(payload.company_ids[0])` raises before any company is looked at.
  assign_to_each : (uuid : String → Option ℕ) → ℕ → List String → Action (List String)
  assign_to_each uuid role_id [] = pure []
  assign_to_each uuid role_id (text ∷ texts) = elim (uuid text) [
    | none ↦ raise value_error
    | some first ↦ Assignment.assign_role_to_companies uuid role_id current (text ∷ texts)
  ]

  pub assign_role_to_companies :
      (uuid : String → Option ℕ) → ℕ → RoleAssignCompaniesModel → Action (List String)
  unfolding ensure_superuser assign_to_each
  assign_role_to_companies uuid role_id payload = do
    ensure_superuser
    role ← ensure_role_exists role_id
    assign_to_each uuid role.id payload.company_ids

  -- The role with the name, which is created where there is none.
  pub role_to_assign : ℕ → RoleCreateModel → Action Role
  role_to_assign id payload = do
    found ← get_role_by_name payload.name
    elim found [
      | some role ↦ pure role
      | none ↦ (do
        created ← Repository.create_role ext id payload current
        ensure_role_exists created.id)
    ]

  pub create_role_for_company : ℕ → RoleCreateModel → ℕ → Action RoleReadModel
  unfolding ensure_superuser role_to_assign
  create_role_for_company id payload company_id = do
    ensure_superuser
    role ← role_to_assign id payload
    Assignment.assign_role company_id ext role current

  pub unassign_role : ℕ → ℕ → ℕ → Action (Unit {0})
  unassign_role company_id now role_id = do
    require ext.uuid5 current company_id company_roles_unassign
    Assignment.unassign_role company_id now role_id

  pub delete_role : ℕ → RoleDeleteModel → ℕ → Action ℕ
  unfolding ensure_superuser
  delete_role now payload company_id =
      ensure_superuser >> Assignment.reassign_and_delete_role company_id now payload current
