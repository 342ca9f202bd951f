-- ===== src/Roles/Repository.antt =====
-- app/repository/company_role.py: `RoleRepository` without a company, but for its listing.
pub mod Deletion
pub mod Rows
pub mod Lookup
pub mod OfCompany
mod Tests
use userverse.Base.{
  ℕ, String, Bool, ◌&&◌, ◌||◌, not, Option, none, some, List, [], ◌∷◌, ◌++◌, any, all, filter,
  update_where, put, ◌==◌, nat_Eq, string_Eq, is_none,
}
use userverse.Messages.{
  company_role, company_user, role_not_found, role_already_exists, role_update_failed,
  role_deletion_failed, add_user_failed,
}
use userverse.Database.{
  UserReadModel, dumped_user, Role, Db, app_error, value_error, Action, pure, gets, ◌>>=◌, ◌>>◌,
  modify, commit, raise_if, write_if, on_integrity_error, on_exception, select_one, or_raise,
}
use userverse.Permission.{RoleReadModel, Externals}
use userverse.Permission.Effective.{global_role_read}
use userverse.Roles.{RoleCreateModel, RoleUpdateModel}
use userverse.Roles.Assignment.{set_role_row, is_free_name, apply_role_update}

pub new_role : ℕ → RoleCreateModel → Role
new_role id payload = record {
  id = id;
  name = payload.name;
  description = payload.description;
  closed_at = none;
  primary_meta_data = [];
}

pub add_role : Role → Db → Db
add_role r db = record db { roles = db.roles ++ r ∷ [] }

-- The primary key and the unique name.
unfoldable pub is_new_role : ℕ → String → Db → Bool
is_new_role id name db = all (λ r. not (r.id == id) && not (r.name == name)) db.roles

pub note_role : String → UserReadModel → Role → Role
note_role key by r = record r { primary_meta_data = put key (dumped_user by) r.primary_meta_data }

pub close_role : ℕ → Role → Role
close_role now r = record r { closed_at = some now }

-- Open memberships of any company.
pub has_members : ℕ → Db → Bool
has_members role_id db = any (λ a. (a.role_id == role_id) && is_none a.closed_at) db.associations

-- Open platform roles of users that are open.
pub has_platform_users : ℕ → Db → Bool
has_platform_users role_id db =
    any
      (λ l.
        (l.role_id == role_id)
        && is_none l.closed_at
        && any (λ u. (u.id == l.user_id) && is_none u.closed_at) db.users)
      db.user_roles

pub remove_links_of_role : ℕ → Db → Db
remove_links_of_role role_id db = record db {
  role_global_permissions = filter (λ l. not (l.role_id == role_id)) db.role_global_permissions;
  company_role_permissions = filter (λ l. not (l.role_id == role_id)) db.company_role_permissions;
  user_roles = filter (λ l. not (l.role_id == role_id)) db.user_roles;
}

pub get_role_record : ℕ → Action (Option Role)
get_role_record role_id =
    select_one (λ db. db.roles) (λ r. (r.id == role_id) && is_none r.closed_at)

unfoldable pub get_role_by_name : String → Action (Option Role)
get_role_by_name role_name =
    select_one (λ db. db.roles) (λ r. (r.name == role_name) && is_none r.closed_at)

pub ensure_role_exists : ℕ → Action Role
unfolding get_role_record
ensure_role_exists role_id = do
  found ← get_role_record role_id
  or_raise (app_error 404 (company_role role_not_found)) found

pub ensure_role_by_name : String → Action Role
unfolding get_role_by_name
ensure_role_by_name role_name = do
  found ← get_role_by_name role_name
  or_raise (app_error 400 (company_user add_user_failed)) found

-- `create` with `update_json_field`: two commits.
pub create_role : Externals → ℕ → RoleCreateModel → UserReadModel → Action RoleReadModel
create_role ext id payload created_by =
    on_integrity_error
      (do
        write_if (is_new_role id payload.name) (add_role (new_role id payload))
        commit
        modify (set_role_row id (note_role "created_by" created_by))
        commit
        gets (global_role_read ext (new_role id payload)))
      (app_error 409 (company_role role_already_exists))

pub update_role : Externals → ℕ → RoleUpdateModel → Action RoleReadModel
update_role ext role_id payload =
    on_exception
      (do
        found ← get_role_record role_id
        role ← or_raise value_error found
        let updated = apply_role_update payload role
        write_if (is_free_name role.id updated.name)
            (set_role_row role.id (apply_role_update payload))
        commit
        gets (global_role_read ext updated))
      (λ e. app_error 400 (company_role role_update_failed))

-- `delete_role` with the identifier of a role, without a payload; `delete_role_of_company` of the
-- child OfCompany has one. The message that a deletion returns names the role.
pub delete_role : ℕ → ℕ → UserReadModel → Action String
delete_role now role_id deleted_by =
    on_exception
      (do
        found ← get_role_record role_id
        role ← or_raise value_error found
        members ← gets (has_members role_id)
        raise_if members value_error
        platform_users ← gets (has_platform_users role_id)
        raise_if platform_users value_error
        modify (remove_links_of_role role_id)
        modify (set_role_row role.id (close_role now))
        commit
        modify (set_role_row role.id (note_role "deleted_by" deleted_by))
        commit
        pure role.name)
      (λ e. app_error 400 (company_role role_deletion_failed))
