-- ===== src/Roles/Assignment.antt =====
-- app/repository/company_role.py: `CompanyRoleAssignmentRepository`, but for its listing.
mod Tests
pub mod Steps
pub mod Members
pub mod Placement
pub mod Reassign
pub mod Updates
pub mod Enabling
use userverse.Base.{
  ℕ, String, Bool, true, false, ◌&&◌, ◌||◌, not, Option, none, some, List, [], ◌∷◌, ◌++◌, any, all,
  filter, map, join, update_where, put, ◌==◌, nat_Eq, string_Eq, is_none, is_some, if◌then◌else◌,
  length,
}
use userverse.Messages.{
  company_role, company_user, role_creation_failed, role_update_failed, role_deletion_failed,
  role_not_found, add_user_failed,
}
use userverse.Database.{
  UserReadModel, dumped_user, MetaData, Role, CompanyRole, AssociationUserCompany, Db, Error,
  app_error, value_error, Result, ok, err, Action, pure, raise, gets, ◌>>=◌, ◌>>◌, modify, commit,
  raise_if, write_if, on_exception, select_one, or_raise, at_most_one,
}
use userverse.Permission.{RoleReadModel, Externals}
use userverse.Permission.Effective.{company_role_read}
use userverse.Roles.{RoleUpdateModel, RoleDeleteModel}

unfoldable pub is_assignment : ℕ → ℕ → CompanyRole → Bool
is_assignment company_id role_id cr = (cr.company_id == company_id) && (cr.role_id == role_id)

-- The primary key and the two foreign keys.
unfoldable pub may_assign : ℕ → ℕ → Db → Bool
unfolding is_assignment
may_assign company_id role_id db =
    all (λ cr. not (is_assignment company_id role_id cr)) db.company_roles
    && any (λ c. c.id == company_id) db.companies
    && any (λ r. r.id == role_id) db.roles

unfoldable pub add_assignment : ℕ → ℕ → Db → Db
add_assignment company_id role_id db = record db {
  company_roles =
      db.company_roles
      ++ record {
        company_id = company_id;
        role_id = role_id;
        closed_at = none;
        primary_meta_data = [];
      }
        ∷ [];
}

-- An UPDATE of the row of the primary key.
unfoldable pub set_assignment : ℕ → ℕ → (CompanyRole → CompanyRole) → Db → Db
unfolding is_assignment
set_assignment company_id role_id f db = record db {
  company_roles = update_where (is_assignment company_id role_id) f db.company_roles;
}

pub close_assignment : ℕ → CompanyRole → CompanyRole
close_assignment now cr = record cr { closed_at = some now }

-- `update_json_field` on `primary_meta_data`
pub note_assignment : String → UserReadModel → CompanyRole → CompanyRole
note_assignment key by cr = record cr {
  primary_meta_data = put key (dumped_user by) cr.primary_meta_data;
}

pub remove_permissions_of_role : ℕ → ℕ → Db → Db
remove_permissions_of_role company_id role_id db = record db {
  company_role_permissions =
      filter (λ l. not ((l.company_id == company_id) && (l.role_id == role_id)))
        db.company_role_permissions;
}

-- An open membership of the company in the role.
unfoldable pub is_member_in : ℕ → ℕ → AssociationUserCompany → Bool
is_member_in company_id role_id a =
    (a.company_id == company_id) && (a.role_id == role_id) && is_none a.closed_at

pub reassign : ℕ → ℕ → ℕ → Db → Db
unfolding is_member_in
reassign company_id role_id replacement_id db = record db {
  associations =
      update_where (is_member_in company_id role_id) (λ a. record a { role_id = replacement_id })
        db.associations;
}

-- The join of `get_role_name_assigned`.
unfoldable pub is_assigned_name : ℕ → String → Role → CompanyRole → Bool
is_assigned_name company_id name r cr =
    (cr.role_id == r.id)
    && (cr.company_id == company_id)
    && is_none cr.closed_at
    && (r.name == name)
    && is_none r.closed_at

unfoldable pub set_role_row : ℕ → (Role → Role) → Db → Db
set_role_row id f db = record db { roles = update_where (λ r. r.id == id) f db.roles }

-- The primary key has the row; the name is unique.
pub is_free_name : ℕ → String → Db → Bool
is_free_name id name db = all (λ r. (r.id == id) || not (r.name == name)) db.roles

pub apply_role_update : RoleUpdateModel → Role → Role
apply_role_update payload r = record r {
  name = elim payload.name [ none ↦ r.name | some name ↦ if name == "" then r.name else name ];
  description = elim payload.description [
    | none ↦ r.description
    | some description ↦ some description
  ];
}

module _ (company_id : ℕ) where
  unfoldable pub get_assignment : ℕ → Action (Option CompanyRole)
  unfolding is_assignment
  get_assignment role_id =
      select_one (λ db. db.company_roles)
        (λ cr. is_assignment company_id role_id cr && is_none cr.closed_at)

  unfoldable pub get_role_name_assigned : String → Action (Option Role)
  unfolding is_assigned_name
  get_role_name_assigned role_name s = (
    at_most_one (
        map (λ row. row.0)
          (join (is_assigned_name company_id role_name) s.live.roles s.live.company_roles)),
    s,
  )

  unfoldable pub ensure_role_name_assigned : String → Action Role
  unfolding get_role_name_assigned
  ensure_role_name_assigned role_name = do
    found ← get_role_name_assigned role_name
    or_raise (app_error 400 (company_user add_user_failed)) found

  ensure_role_assigned : ℕ → Action CompanyRole
  unfolding get_assignment
  ensure_role_assigned role_id = do
    found ← get_assignment role_id
    or_raise (app_error 400 (company_user add_user_failed)) found

  -- `create` with `update_json_field`: two commits.
  unfoldable pub assign : ℕ → UserReadModel → Action (Unit {0})
  assign role_id assigned_by = do
    write_if (may_assign company_id role_id) (add_assignment company_id role_id)
    commit
    modify (set_assignment company_id role_id (note_assignment "assigned_by" assigned_by))
    commit

  unfoldable pub assign_role : Externals → Role → UserReadModel → Action RoleReadModel
  assign_role ext role assigned_by = do
    existing ← get_assignment role.id
    raise_if (is_some existing) (app_error 400 (company_role role_creation_failed))
    assign role.id assigned_by
    gets (company_role_read ext company_id role)

  pub unassign_role : ℕ → ℕ → Action (Unit {0})
  unassign_role now role_id = do
    found ← get_assignment role_id
    _ ← or_raise (app_error 404 (company_role role_not_found)) found
    members ← gets (λ db. any (is_member_in company_id role_id) db.associations)
    raise_if members (app_error 400 (company_role role_deletion_failed))
    modify (remove_permissions_of_role company_id role_id)
    modify (set_assignment company_id role_id (close_assignment now))
    commit

  -- It returns the number of members that were reassigned.
  pub reassign_and_delete_role : ℕ → RoleDeleteModel → UserReadModel → Action ℕ
  reassign_and_delete_role now payload deleted_by =
      let failed = app_error 400 (company_role role_update_failed) in
      do
        raise_if (payload.role_name_to_delete == payload.replacement_role_name) failed
        found ← get_role_name_assigned payload.role_name_to_delete
        role_to_delete ← or_raise failed found
        found_replacement ← get_role_name_assigned payload.replacement_role_name
        replacement_role ← or_raise failed found_replacement
        reassigned_count ←
            gets (λ db. length (filter (is_member_in company_id role_to_delete.id) db.associations))
        modify (reassign company_id role_to_delete.id replacement_role.id)
        assignment ← get_assignment role_to_delete.id
        _ ← or_raise failed assignment
        modify (remove_permissions_of_role company_id role_to_delete.id)
        modify (set_assignment company_id role_to_delete.id (close_assignment now))
        commit
        modify
            (set_assignment company_id role_to_delete.id (note_assignment "deleted_by" deleted_by))
        commit
        pure reassigned_count

  pub update_company_role : Externals → String → RoleUpdateModel → Action RoleReadModel
  update_company_role ext name payload =
      on_exception
        (do
          found ← get_role_name_assigned name
          role ← or_raise value_error found
          let updated = apply_role_update payload role
          write_if (is_free_name role.id updated.name)
              (set_role_row role.id (apply_role_update payload))
          commit
          gets (company_role_read ext company_id updated))
        (λ e. app_error 400 (company_role role_update_failed))

-- `assign_role_to_companies`; the identifiers of the companies that were new are returned.
module _ (uuid : String → Option ℕ) where
  pub assign_one : ℕ → UserReadModel → String → Action (List String)
  unfolding get_assignment
  assign_one role_id assigned_by text = elim (uuid text) [
    | none ↦ raise value_error
    | some company_id ↦ (do
      existing ← get_assignment company_id role_id
      if is_some existing
          then pure []
          else (assign company_id role_id assigned_by >> pure (text ∷ [])))
  ]

  pub assign_role_to_companies : ℕ → UserReadModel → List String → Action (List String)
  assign_role_to_companies role_id assigned_by [] = pure []
  assign_role_to_companies role_id assigned_by (text ∷ texts) =
      let later = assign_role_to_companies role_id assigned_by texts in
      (do here ← assign_one role_id assigned_by text; rest ← later; pure (here ++ rest))
