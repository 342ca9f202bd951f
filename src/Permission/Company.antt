-- ===== src/Permission/Company.antt =====
-- app/repository/permission.py: `CompanyPermissionRepository`. A new identifier is `uuid4`'s, an
-- argument.
mod Tests
pub mod Steps
pub mod Isolation
pub mod Writes
use userverse.Pagination.{PaginatedResponse, paginate}
use userverse.Base.{
  some, map, sort_by, ℕ, String, Bool, ◌&&◌, ◌||◌, not, Option, none, List, [], ◌∷◌, ◌++◌, all,
  filter, update_where, ◌==◌, nat_Eq, string_Eq, is_none,
}
use userverse.Messages.{not_found, already_exists, literal}
use userverse.Database.{
  gets, UserReadModel, dumped_user, Company, CompanyPermission, Db, app_error, Action, pure, ◌>>=◌,
  ◌>>◌, modify, commit, write_if, on_integrity_error, select_one, or_raise,
}
use userverse.Permission.{
  PermissionQueryParamsModel, passes_filter, PermissionCreateModel, PermissionUpdateModel,
  PermissionReadModel, company_permission_model, failure, or_kept,
}

-- The primary key, and the unique pair of company and name.
pub is_unused : ℕ → ℕ → String → Db → Bool
is_unused company_id id name db =
    all (λ p. not (p.id == id) && not ((p.company_id == company_id) && (p.name == name)))
      db.company_permissions

pub new_company_row : ℕ → ℕ → PermissionCreateModel → UserReadModel → CompanyPermission
new_company_row company_id id payload created_by = record {
  id = id;
  company_id = company_id;
  name = payload.name;
  description = payload.description;
  closed_at = none;
  primary_meta_data = ("created_by", dumped_user created_by) ∷ [];
}

pub add_company_row : CompanyPermission → Db → Db
add_company_row p db = record db { company_permissions = db.company_permissions ++ p ∷ [] }

-- The unique pair, when the row of the identifier takes the name.
pub is_unused_by_others : ℕ → ℕ → String → Db → Bool
is_unused_by_others company_id id name db =
    all (λ p. (p.id == id) || not ((p.company_id == company_id) && (p.name == name)))
      db.company_permissions

pub apply_company_update : PermissionUpdateModel → CompanyPermission → CompanyPermission
apply_company_update payload p = record p {
  name = or_kept payload.name p.name;
  description = or_kept payload.description p.description;
}

pub set_company_row : ℕ → (CompanyPermission → CompanyPermission) → Db → Db
set_company_row id f db = record db {
  company_permissions = update_where (λ p. p.id == id) f db.company_permissions;
}

pub remove_company_row : ℕ → Db → Db
remove_company_row id db = record db {
  company_permissions = filter (λ p. not (p.id == id)) db.company_permissions;
}

pub remove_company_links : ℕ → ℕ → Db → Db
remove_company_links company_id id db = record db {
  company_role_permissions =
      filter (λ l. not ((l.company_id == company_id) && (l.company_permission_id == id)))
        db.company_role_permissions;
}

module _ (company_id : ℕ) where
  pub ensure_company : Action Company
  ensure_company = do
    found ← select_one (λ db. db.companies) (λ c. (c.id == company_id) && is_none c.closed_at)
    or_raise (app_error 404 (literal "Company not found.")) found

  unfoldable pub get_record : ℕ → Action (Option CompanyPermission)
  get_record permission_id =
      select_one (λ db. db.company_permissions)
        (λ p. (p.company_id == company_id) && (p.id == permission_id) && is_none p.closed_at)

  unfoldable pub ensure_record : ℕ → Action CompanyPermission
  unfolding get_record
  ensure_record permission_id = do
    found ← get_record permission_id
    or_raise (failure 404 not_found) found

  pub create_permission : ℕ → PermissionCreateModel → UserReadModel → Action PermissionReadModel
  create_permission id payload created_by = do
    _ ← ensure_company
    let p = new_company_row company_id id payload created_by
    on_integrity_error
        (do
          write_if (is_unused company_id id payload.name) (add_company_row p)
          commit
          pure (company_permission_model p))
        (failure 409 already_exists)

  pub update_permission : ℕ → PermissionUpdateModel → Action PermissionReadModel
  update_permission permission_id payload = do
    permission ← ensure_record permission_id
    let updated = apply_company_update payload permission
    on_integrity_error
        (do
          write_if (is_unused_by_others company_id permission.id updated.name)
              (set_company_row permission.id (apply_company_update payload))
          commit
          pure (company_permission_model updated))
        (failure 409 already_exists)

  -- The message that a deletion returns names the permission.
  pub delete_permission : ℕ → Action String
  delete_permission permission_id = do
    permission ← ensure_record permission_id
    modify (remove_company_links company_id permission_id)
    modify (remove_company_row permission.id)
    commit
    pure permission.name

  -- The listing; `row_le` is the order of names, then identifiers.
  pub get_permissions :
      (ilike : String → String → Bool)
      → (row_le : CompanyPermission → CompanyPermission → Bool) → PermissionQueryParamsModel
      → Action (PaginatedResponse PermissionReadModel)
  unfolding ensure_company
  get_permissions ilike row_le payload = do
    _ ← ensure_company
    gets (λ db.
        let query =
          filter
            (λ p.
              (p.company_id == company_id)
              && is_none p.closed_at
              && passes_filter ilike payload.name (some p.name)
              && passes_filter ilike payload.description p.description)
            db.company_permissions in
        let page = paginate (sort_by row_le query) payload.params in
        record {
          records = map company_permission_model page.records;
          pagination = page.pagination;
        })
