-- ===== src/Permission/Global.antt =====
-- app/repository/permission.py: `GlobalPermissionRepository`. A new identifier is `uuid4`'s, an
-- argument.
pub mod Steps
mod Tests
pub mod Unique
pub mod Access
use userverse.Pagination.{PaginatedResponse, paginate}
use userverse.Base.{
  some, map, sort_by, ℕ, String, Bool, true, false, ◌&&◌, ◌||◌, not, Option, none, List, [], ◌∷◌,
  ◌++◌, all, filter, update_where, ◌==◌, nat_Eq, string_Eq, is_none, if◌then◌else◌,
}
use userverse.Messages.{not_found, already_exists, system_permission_protected}
use userverse.Database.{
  gets, UserReadModel, dumped_user, GlobalPermission, Db, Action, pure, raise, ◌>>=◌, ◌>>◌, modify,
  commit, raise_if, write_if, on_integrity_error, select_one, or_raise,
}
use userverse.SystemPermissions.{is_system_permission_id}
use userverse.Permission.{
  PermissionQueryParamsModel, passes_filter, PermissionCreateModel, PermissionUpdateModel,
  PermissionReadModel, Externals, global_permission_model, failure, or_kept,
}

unfoldable pub get_record : ℕ → Action (Option GlobalPermission)
get_record permission_id =
    select_one (λ db. db.global_permissions) (λ p. (p.id == permission_id) && is_none p.closed_at)

unfoldable pub ensure_record : ℕ → Action GlobalPermission
unfolding get_record
ensure_record permission_id = do
  found ← get_record permission_id
  or_raise (failure 404 not_found) found

-- The primary key and the unique name.
unfoldable pub is_new : ℕ → String → Db → Bool
is_new id name db = all (λ p. not (p.id == id) && not (p.name == name)) db.global_permissions

pub new_row : ℕ → PermissionCreateModel → UserReadModel → GlobalPermission
new_row id payload created_by = record {
  id = id;
  name = payload.name;
  description = payload.description;
  closed_at = none;
  primary_meta_data = ("created_by", dumped_user created_by) ∷ [];
}

unfoldable pub add_row : GlobalPermission → Db → Db
add_row p db = record db { global_permissions = db.global_permissions ++ p ∷ [] }

pub create_permission : ℕ → PermissionCreateModel → UserReadModel → Action PermissionReadModel
create_permission id payload created_by =
    let p = new_row id payload created_by in
    on_integrity_error
      (do write_if (is_new id payload.name) (add_row p); commit; pure (global_permission_model p))
      (failure 409 already_exists)

-- The unique name, when the row of the identifier takes it.
pub is_free : ℕ → String → Db → Bool
is_free id name db = all (λ p. (p.id == id) || not (p.name == name)) db.global_permissions

pub apply_update : PermissionUpdateModel → GlobalPermission → GlobalPermission
apply_update payload p = record p {
  name = or_kept payload.name p.name;
  description = or_kept payload.description p.description;
}

pub set_row : ℕ → (GlobalPermission → GlobalPermission) → Db → Db
set_row id f db = record db {
  global_permissions = update_where (λ p. p.id == id) f db.global_permissions;
}

-- `"name" in payload.model_fields_set and payload.name != permission.name`
pub renames : PermissionUpdateModel → GlobalPermission → Bool
renames payload p = elim payload.name [ none ↦ false | some name ↦ not (name == p.name) ]

pub remove_row : ℕ → Db → Db
remove_row id db = record db {
  global_permissions = filter (λ p. not (p.id == id)) db.global_permissions;
}

pub remove_links : ℕ → Db → Db
remove_links id db = record db {
  role_global_permissions =
      filter (λ l. not (l.global_permission_id == id)) db.role_global_permissions;
}

module _ (ext : Externals) where
  pub update_permission : ℕ → PermissionUpdateModel → Action PermissionReadModel
  update_permission permission_id payload = do
    permission ← ensure_record permission_id
    raise_if (is_system_permission_id ext.uuid5 permission.id && renames payload permission)
        (failure 409 system_permission_protected)
    let updated = apply_update payload permission
    on_integrity_error
        (do
          write_if (is_free permission.id updated.name)
              (set_row permission.id (apply_update payload))
          commit
          pure (global_permission_model updated))
        (failure 409 already_exists)

  -- The message that a deletion returns names the permission.
  pub delete_permission : ℕ → Action String
  delete_permission permission_id = do
    permission ← ensure_record permission_id
    raise_if (is_system_permission_id ext.uuid5 permission.id)
        (failure 409 system_permission_protected)
    modify (remove_links permission_id)
    modify (remove_row permission.id)
    commit
    pure permission.name

-- The listing; `row_le` is the order of names, then identifiers.
pub get_permissions :
    (ilike : String → String → Bool)
    → (row_le : GlobalPermission → GlobalPermission → Bool) → PermissionQueryParamsModel
    → Action (PaginatedResponse PermissionReadModel)
get_permissions ilike row_le payload = gets (λ db.
    let query =
      filter
        (λ p.
          is_none p.closed_at
          && passes_filter ilike payload.name (some p.name)
          && passes_filter ilike payload.description p.description)
        db.global_permissions in
    let page = paginate (sort_by row_le query) payload.params in
    record { records = map global_permission_model page.records; pagination = page.pagination })
