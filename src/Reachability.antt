-- ===== src/Reachability.antt =====
-- app/repository/company_role.py, app/repository/company_user.py and app/repository/company.py: the
-- calls that write roles, assignments, memberships and companies, in any order.
pub mod Invariant
mod Tests
use userverse.Base.{ℕ, String, ◌≡◌, false, Option, none, some, List}
use userverse.Database.{UserReadModel, Role, Db, begin}
use userverse.Permission.{Externals}
use userverse.Roles.{RoleCreateModel, RoleUpdateModel, RoleDeleteModel}
use userverse.Roles.Assignment.{
  assign_role, unassign_role, reassign_and_delete_role, update_company_role,
  assign_role_to_companies,
}
use userverse.Roles.Repository.{create_role, update_role, delete_role}
use userverse.Roles.Repository.OfCompany.{update_role_of_company, delete_role_of_company}
use userverse.Roles.Repository.OfCompany.Replacement.{is_held_elsewhere}
use userverse.Companies.{
  CompanyCreateModel, CompanyUpdateModel, create_company, update_company, delete_company,
}
use userverse.CompanyUser.{
  CompanyUserAddModel, add_user_to_company, remove_user_from_company, update_user_role,
}

-- One call on a session of its own: from what was committed to what is committed after it, however
-- the call ends. `delete_role` with a payload closes a role for every company and moves the members
-- of one: no service calls it so, and its call is a step only where no open member of another company
-- has a role of the name.
pub data Step : Db → Db → Type 0 where
  create :
      (ext : Externals) (id : ℕ) (payload : RoleCreateModel) (by : UserReadModel) (db : Db)
      → Step db (create_role ext id payload by (begin db)).1.saved
  update :
      (ext : Externals) (role_id : ℕ) (payload : RoleUpdateModel) (db : Db)
      → Step db (update_role ext role_id payload (begin db)).1.saved
  delete :
      (now role_id : ℕ) (by : UserReadModel) (db : Db)
      → Step db (delete_role now role_id by (begin db)).1.saved
  update_named :
      (company_id : ℕ) (ext : Externals) (name : String) (payload : RoleUpdateModel) (db : Db)
      → Step db (update_role_of_company company_id ext name payload (begin db)).1.saved
  delete_without_company :
      (now : ℕ) (payload : RoleDeleteModel) (by : Option UserReadModel) (db : Db)
      → Step db (delete_role_of_company none now payload by (begin db)).1.saved
  delete_by_nobody :
      (company_id now : ℕ) (payload : RoleDeleteModel) (db : Db)
      → Step db (delete_role_of_company (some company_id) now payload none (begin db)).1.saved
  delete_alone :
      (company_id now : ℕ) (payload : RoleDeleteModel) (by : UserReadModel) (db : Db)
      → is_held_elsewhere company_id payload.role_name_to_delete db ≡ false
      → Step db (delete_role_of_company (some company_id) now payload (some by) (begin db)).1.saved
  update_assigned :
      (company_id : ℕ) (ext : Externals) (name : String) (payload : RoleUpdateModel) (db : Db)
      → Step db (update_company_role company_id ext name payload (begin db)).1.saved
  assign_to :
      (company_id : ℕ) (ext : Externals) (role : Role) (by : UserReadModel) (db : Db)
      → Step db (assign_role company_id ext role by (begin db)).1.saved
  assign_to_companies :
      (uuid : String → Option ℕ) (role_id : ℕ) (by : UserReadModel) (texts : List String) (db : Db)
      → Step db (assign_role_to_companies uuid role_id by texts (begin db)).1.saved
  unassign :
      (company_id now role_id : ℕ) (db : Db)
      → Step db (unassign_role company_id now role_id (begin db)).1.saved
  replace :
      (company_id now : ℕ) (payload : RoleDeleteModel) (by : UserReadModel) (db : Db)
      → Step db (reassign_and_delete_role company_id now payload by (begin db)).1.saved
  add_user :
      (ext : Externals) (company_id : ℕ) (payload : CompanyUserAddModel) (by : UserReadModel)
      (db : Db)
      → Step db (add_user_to_company ext company_id payload by (begin db)).1.saved
  remove_user :
      (ext : Externals) (company_id now user_id : ℕ) (by : UserReadModel) (db : Db)
      → Step db (remove_user_from_company ext company_id now user_id by (begin db)).1.saved
  change_user :
      (ext : Externals) (company_id user_id : ℕ) (role_name : String) (by : UserReadModel) (db : Db)
      → Step db (update_user_role ext company_id user_id role_name by (begin db)).1.saved
  found :
      (ext : Externals) (new_id : String → ℕ) (id : ℕ) (payload : CompanyCreateModel)
      (by : UserReadModel) (db : Db)
      → Step db (create_company ext new_id id payload by (begin db)).1.saved
  change :
      (payload : CompanyUpdateModel) (company_id : ℕ) (db : Db)
      → Step db (update_company payload company_id (begin db)).1.saved
  close :
      (now company_id : ℕ) (db : Db) → Step db (delete_company now company_id (begin db)).1.saved

pub data Reach (db : Db) : Db → Type 0 where
  here : Reach db db
  next : {later last : Db} → Reach db later → Step later last → Reach db last
