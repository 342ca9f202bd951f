-- ===== src/CompanyUser.antt =====
-- app/repository/company_user.py: `CompanyUserRepository`, but for its listing.
pub mod Steps
mod Tests
pub mod Service
pub mod Rejoin
pub mod Placement
pub mod Joined
use userverse.Base.{
  ℕ, String, Bool, true, false, ◌&&◌, not, Option, none, some, List, [], ◌∷◌, ◌++◌, any, all, find?,
  update_where, put, lookup, ◌==◌, nat_Eq, string_Eq, option_Eq, is_none, is_some, if◌then◌else◌,
}
use userverse.Messages.{
  company_user, add_user_failed, add_existing_user_failed, update_user_role_failed,
  super_admin_remove_forbidden, user_already_removed,
}
use userverse.Database.{
  UserReadModel, text, dumped_user, MetaData, Json, User, Role, AssociationUserCompany, Db, Error,
  app_error, Action, pure, gets, select_one, no_result, ◌>>=◌, ◌>>◌, modify, commit, raise_if,
  write_if, or_raise,
}
use userverse.Permission.{PermissionReadModel, Externals}
use userverse.Permission.Role.{get_company_role_permissions}
use userverse.Roles.Assignment.{ensure_role_name_assigned}

-- app/models/company/user.py
pub record CompanyUserAddModel : Type 0 where
  pub email : String
  pub role : String

-- The user's row, the role and its permissions, that `_to_company_user` puts together.
pub record CompanyUserReadModel : Type 0 where
  pub user : User
  pub role : Role
  pub permissions : List PermissionReadModel

unfoldable pub is_membership : ℕ → ℕ → AssociationUserCompany → Bool
is_membership company_id user_id a = (a.user_id == user_id) && (a.company_id == company_id)

-- `filter_by(user_id=…, company_id=…, _closed_at=None).first()`
unfoldable pub find_membership : ℕ → ℕ → Db → Option AssociationUserCompany
unfolding is_membership
find_membership company_id user_id db =
    find? (λ a. is_membership company_id user_id a && is_none a.closed_at) db.associations

-- The primary key and the three foreign keys.
unfoldable pub may_join : ℕ → ℕ → ℕ → Db → Bool
unfolding is_membership
may_join company_id user_id role_id db =
    all (λ a. not (is_membership company_id user_id a)) db.associations
    && any (λ u. u.id == user_id) db.users
    && any (λ c. c.id == company_id) db.companies
    && any (λ r. r.id == role_id) db.roles

unfoldable pub new_membership : ℕ → ℕ → Role → UserReadModel → AssociationUserCompany
new_membership company_id user_id role added_by = record {
  user_id = user_id;
  company_id = company_id;
  role_id = role.id;
  closed_at = none;
  primary_meta_data = ("added_by", dumped_user added_by) ∷ [];
  secondary_meta_data = ("_legacy_role_name", text role.name) ∷ [];
}

unfoldable pub add_membership : AssociationUserCompany → Db → Db
add_membership a db = record db { associations = db.associations ++ a ∷ [] }

-- An UPDATE of the row of the primary key.
pub set_membership : ℕ → ℕ → (AssociationUserCompany → AssociationUserCompany) → Db → Db
unfolding is_membership
set_membership company_id user_id f db = record db {
  associations = update_where (is_membership company_id user_id) f db.associations;
}

pub close_membership : ℕ → UserReadModel → AssociationUserCompany → AssociationUserCompany
close_membership now removed_by a = record a {
  closed_at = some now;
  primary_meta_data = put "removed_by" (dumped_user removed_by) a.primary_meta_data;
}

pub give_role : Role → UserReadModel → AssociationUserCompany → AssociationUserCompany
give_role role updated_by a = record a {
  role_id = role.id;
  primary_meta_data = put "updated_by" (dumped_user updated_by) a.primary_meta_data;
  secondary_meta_data = put "_legacy_role_name" (text role.name) a.secondary_meta_data;
}

-- `assoc.role`: the relationship follows the foreign key, to a closed role too.
pub role_of : AssociationUserCompany → Db → Option Role
role_of a db = find? (λ r. r.id == a.role_id) db.roles

pub has_role_name : String → AssociationUserCompany → Db → Bool
unfolding role_of
has_role_name name a db = elim (role_of a db) [ none ↦ false | some r ↦ r.name == name ]

-- `is_user_linked_to_company` with a role's name
pub is_user_linked_to_company : ℕ → ℕ → String → Db → Bool
unfolding is_membership
is_user_linked_to_company user_id company_id role_name db =
    any
      (λ a.
        is_membership company_id user_id a
        && is_none a.closed_at
        && any (λ r. (r.id == a.role_id) && (r.name == role_name)) db.roles)
      db.associations

module _ (ext : Externals) (company_id : ℕ) where
  -- `_to_company_user` with what the role may do
  unfoldable pub to_company_user : User → Role → Action CompanyUserReadModel
  to_company_user user role = do
    permissions ← get_company_role_permissions ext company_id role.id
    pure (record { user = user; role = role; permissions = permissions })

  -- The user is looked up by email only, closed rows included.
  unfoldable pub add_user_to_company :
      CompanyUserAddModel → UserReadModel → Action CompanyUserReadModel
  add_user_to_company payload added_by = do
    found ← gets (λ db. find? (λ (u : User). u.email == payload.email) db.users)
    user ← or_raise (app_error 404 (company_user add_user_failed)) found
    role ← ensure_role_name_assigned company_id payload.role
    existing ← gets (find_membership company_id user.id)
    raise_if (is_some existing) (app_error 400 (company_user add_existing_user_failed))
    write_if (may_join company_id user.id role.id)
        (add_membership (new_membership company_id user.id role added_by))
    commit
    to_company_user user role

  pub remove_user_from_company : ℕ → ℕ → UserReadModel → Action CompanyUserReadModel
  remove_user_from_company now user_id removed_by = do
    found ← gets (find_membership company_id user_id)
    assoc ← or_raise (app_error 403 (company_user user_already_removed)) found
    administrator ← gets (has_role_name "Administrator" assoc)
    raise_if ((assoc.user_id == removed_by.id) && administrator)
        (app_error 400 (company_user super_admin_remove_forbidden))
    modify (set_membership company_id user_id (close_membership now removed_by))
    commit
    found_user ← gets (λ db. find? (λ (u : User). u.id == user_id) db.users)
    user ← or_raise no_result found_user
    found_role ← gets (role_of assoc)
    role ← or_raise no_result found_role
    to_company_user user role

  pub update_user_role : ℕ → String → UserReadModel → Action CompanyUserReadModel
  update_user_role user_id role_name updated_by = do
    role ← ensure_role_name_assigned company_id role_name
    found ← gets (find_membership company_id user_id)
    _ ← or_raise (app_error 404 (company_user update_user_role_failed)) found
    modify (set_membership company_id user_id (give_role role updated_by))
    commit
    found_user ← gets (λ db. find? (λ (u : User). u.id == user_id) db.users)
    user ← or_raise no_result found_user
    to_company_user user role
