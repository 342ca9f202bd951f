-- ===== src/Roles/Repository/OfCompany.antt =====
-- app/repository/company_role.py: `RoleRepository` with a company, the branches that no service
-- reaches included, and `Role.delete_role_and_reassign_users` of
-- app/repository/database/tables/role.py.
pub mod Replacement
mod Tests
use userverse.Base.{
  ℕ, String, Option, none, some, update_where, filter, put, length, ◌==◌, string_Eq, nat_Eq,
}
use userverse.Messages.{company_role, company_user, role_update_failed, add_user_failed}
use userverse.Database.{
  UserReadModel, text, Role, AssociationUserCompany, Db, app_error, value_error, no_result, Action,
  pure, raise, gets, ◌>>=◌, ◌>>◌, modify, commit, raise_if, write_if, on_exception, or_raise,
}
use userverse.Permission.{RoleReadModel, Externals}
use userverse.Permission.Effective.{global_role_read}
use userverse.Roles.{RoleUpdateModel, RoleDeleteModel}
use userverse.Roles.Assignment.{
  set_role_row, is_free_name, apply_role_update, is_member_in, set_assignment, close_assignment,
  get_role_name_assigned, get_assignment,
}
use userverse.Roles.Repository.{note_role, close_role, ensure_role_by_name}

-- `company_id` of the repository.
ensure_role_belongs_to_company : Option ℕ → String → Action Role
ensure_role_belongs_to_company none role_name = ensure_role_by_name role_name
ensure_role_belongs_to_company (some company_id) role_name = do
  found ← get_role_name_assigned company_id role_name
  or_raise (app_error 400 (company_user add_user_failed)) found

-- `update_role` with the name of a role.
pub update_role_of_company : ℕ → Externals → String → RoleUpdateModel → Action RoleReadModel
update_role_of_company company_id ext name payload =
    on_exception
      (do
        found ← get_role_name_assigned company_id name
        role ← or_raise value_error found
        let updated = apply_role_update payload role
        write_if (is_free_name role.id updated.name)
            (set_role_row role.id (apply_role_update payload))
        commit
        gets (global_role_read ext updated))
      (λ e. app_error 400 (company_role role_update_failed))

-- The open members of the company in the role move to its replacement.
pub move_to : Role → AssociationUserCompany → AssociationUserCompany
move_to replacement a = record a {
  role_id = replacement.id;
  secondary_meta_data = put "_legacy_role_name" (text replacement.name) a.secondary_meta_data;
}

pub move_members : ℕ → ℕ → Role → Db → Db
unfolding move_to
move_members company_id role_id replacement db = record db {
  associations =
      update_where (is_member_in company_id role_id) (move_to replacement) db.associations;
}

pub close_role_by : ℕ → UserReadModel → Role → Role
close_role_by now deleted_by r = close_role now (note_role "deleted_by" deleted_by r)

-- It closes the role itself, for every company.
pub delete_role_and_reassign_users :
    (company_id now : ℕ) → (name_to_delete replacement_name : String) → UserReadModel → Action ℕ
unfolding move_members close_role_by
delete_role_and_reassign_users company_id now name_to_delete replacement_name deleted_by = do
  raise_if (name_to_delete == replacement_name) value_error
  found ← get_role_name_assigned company_id name_to_delete
  role_to_delete ← or_raise value_error found
  found_replacement ← get_role_name_assigned company_id replacement_name
  replacement_role ← or_raise value_error found_replacement
  reassigned_count ←
      gets (λ db. length (filter (is_member_in company_id role_to_delete.id) db.associations))
  modify (move_members company_id role_to_delete.id replacement_role)
  assignment ← get_assignment company_id role_to_delete.id
  _ ← or_raise no_result assignment
  modify (set_role_row role_to_delete.id (close_role_by now deleted_by))
  modify (set_assignment company_id role_to_delete.id (close_assignment now))
  commit
  pure reassigned_count

-- `delete_role` with a payload.
pub delete_role_of_company :
    Option ℕ → (now : ℕ) → RoleDeleteModel → (deleted_by : Option UserReadModel) → Action ℕ
unfolding delete_role_and_reassign_users
delete_role_of_company none now payload deleted_by =
    raise (app_error 400 (company_role role_update_failed))
delete_role_of_company (some company_id) now payload none =
    raise (app_error 400 (company_role role_update_failed))
delete_role_of_company (some company_id) now payload (some by) =
    on_exception
      (delete_role_and_reassign_users company_id now payload.role_name_to_delete
        payload.replacement_role_name by)
      (λ e. app_error 400 (company_role role_update_failed))
