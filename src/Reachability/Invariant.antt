-- ===== src/Reachability/Invariant.antt =====
-- app/repository/company_role.py, app/repository/company_user.py and app/repository/company.py: what
-- holds after every sequence of calls.
use userverse.Base.{ℕ, String, inl, inr, Option, List}
use userverse.Database.{UserReadModel, Db, begin}
use userverse.Permission.{Externals}
use userverse.Roles.{RoleCreateModel, RoleUpdateModel}
use userverse.Roles.Assignment.{apply_role_update, update_company_role, assign_role_to_companies}
use userverse.Roles.Assignment.Updates.{
  update_company_role-cases, apply_role_update_keeps, assign_role_to_companies-kept,
}
use userverse.Roles.Assignment.Members.{
  assign_role-MembersHaveRoles, unassign_role-MembersHaveRoles,
  reassign_and_delete_role-MembersHaveRoles, MembersHaveRoles-assigned, HasUniqueRoleIds-assigned,
  assign_role-HasUniqueRoleIds, unassign_role-HasUniqueRoleIds,
  reassign_and_delete_role-HasUniqueRoleIds,
}
use userverse.Roles.Repository.{new_role, add_role, note_role, create_role, update_role}
use userverse.Roles.Repository.Deletion.{delete_role-MembersHaveRoles, delete_role-HasUniqueRoleIds}
use userverse.Roles.Repository.Rows.{
  IsPlaced-set_role_row, MembersHaveRoles-add_role, create_role-cases, update_role-cases,
  HasUniqueRoleIds-new_role, note_role_keeps,
}
use userverse.Roles.Repository.OfCompany.Replacement.{
  update_role_of_company-IsPlaced, delete_role_of_company-without_company,
  delete_role_of_company-by_nobody, delete_role_of_company-IsPlaced,
}
use userverse.CompanyUser.Placement.{
  add_user_to_company-MembersHaveRoles, remove_user_from_company-MembersHaveRoles,
  update_user_role-MembersHaveRoles, add_user_to_company-HasUniqueRoleIds,
  remove_user_from_company-HasUniqueRoleIds, update_user_role-HasUniqueRoleIds,
}
use userverse.Roles.Assignment.Placement.{IsPlaced}
use userverse.Companies.Placement.{
  create_company-IsPlaced, update_company-IsPlaced, delete_company-IsPlaced,
}
use userverse.Reachability.{
  Step, create, update, delete, update_named, delete_without_company, delete_by_nobody,
  delete_alone, update_assigned, assign_to, assign_to_companies, unassign, replace, add_user,
  remove_user, change_user, found, change, close, Reach, here, next,
}

create_role-IsPlaced :
    (ext : Externals) (id : ℕ) (payload : RoleCreateModel) (by : UserReadModel) (db : Db)
    → IsPlaced db
    → IsPlaced (create_role ext id payload by (begin db)).1.saved
create_role-IsPlaced ext id payload by db h = elim (create_role-cases ext db id payload by) [
  | inl same ↦ rw same h
  | inr (fresh, same) ↦ rw same (
      IsPlaced-set_role_row id (note_role "created_by" by) (note_role_keeps "created_by" by)
        (add_role (new_role id payload) db)
        (record {
          unique_ids = HasUniqueRoleIds-new_role id payload db fresh h.unique_ids;
          members_have_roles =
              MembersHaveRoles-add_role (new_role id payload) db h.members_have_roles;
        }))
]

update_role-IsPlaced :
    (ext : Externals) (role_id : ℕ) (payload : RoleUpdateModel) (db : Db)
    → IsPlaced db
    → IsPlaced (update_role ext role_id payload (begin db)).1.saved
update_role-IsPlaced ext role_id payload db h = elim (update_role-cases ext db role_id payload) [
  | inl same ↦ rw same h
  | inr (id, same) ↦
      rw same (
        IsPlaced-set_role_row id (apply_role_update payload) (apply_role_update_keeps payload) db h)
]

update_company_role-IsPlaced :
    (company_id : ℕ) (ext : Externals) (name : String) (payload : RoleUpdateModel) (db : Db)
    → IsPlaced db
    → IsPlaced (update_company_role company_id ext name payload (begin db)).1.saved
update_company_role-IsPlaced company_id ext name payload db h =
    elim (update_company_role-cases ext db company_id name payload) [
      | inl same ↦ rw same h
      | inr (id, same) ↦ rw same (
          IsPlaced-set_role_row id (apply_role_update payload) (apply_role_update_keeps payload) db
            h)
    ]

assign_role_to_companies-IsPlaced :
    (uuid : String → Option ℕ) (role_id : ℕ) (by : UserReadModel) (texts : List String) (db : Db)
    → IsPlaced db
    → IsPlaced (assign_role_to_companies uuid role_id by texts (begin db)).1.saved
assign_role_to_companies-IsPlaced uuid role_id by =
    assign_role_to_companies-kept role_id by uuid IsPlaced λ company_id db h. record {
      unique_ids = HasUniqueRoleIds-assigned company_id db h.unique_ids role_id by;
      members_have_roles = MembersHaveRoles-assigned role_id by company_id db h.members_have_roles;
    }

-- Each call keeps the invariant, however it ends.
Step-IsPlaced : {db later : Db} → Step db later → IsPlaced db → IsPlaced later
Step-IsPlaced (create ext id payload by db) h = create_role-IsPlaced ext id payload by db h
Step-IsPlaced (update ext role_id payload db) h = update_role-IsPlaced ext role_id payload db h
Step-IsPlaced (delete now role_id by db) h = record {
  unique_ids = delete_role-HasUniqueRoleIds now role_id by db h.unique_ids;
  members_have_roles = (delete_role-MembersHaveRoles now role_id by db h.members_have_roles).0;
}
Step-IsPlaced (update_named company_id ext name payload db) h =
    update_role_of_company-IsPlaced company_id ext name payload db h
Step-IsPlaced (delete_without_company now payload by db) h =
    rw (delete_role_of_company-without_company now payload by db) h
Step-IsPlaced (delete_by_nobody company_id now payload db) h =
    rw (delete_role_of_company-by_nobody company_id now payload db) h
Step-IsPlaced (delete_alone company_id now payload by db alone) h =
    delete_role_of_company-IsPlaced company_id now payload by db alone h
Step-IsPlaced (update_assigned company_id ext name payload db) h =
    update_company_role-IsPlaced company_id ext name payload db h
Step-IsPlaced (assign_to company_id ext role by db) h = record {
  unique_ids = assign_role-HasUniqueRoleIds company_id db h.unique_ids ext role by;
  members_have_roles =
      (assign_role-MembersHaveRoles company_id ext role by db h.members_have_roles).0;
}
Step-IsPlaced (assign_to_companies uuid role_id by texts db) h =
    assign_role_to_companies-IsPlaced uuid role_id by texts db h
Step-IsPlaced (unassign company_id now role_id db) h = record {
  unique_ids = unassign_role-HasUniqueRoleIds company_id db h.unique_ids now role_id;
  members_have_roles =
      (unassign_role-MembersHaveRoles company_id now role_id db h.members_have_roles).0;
}
Step-IsPlaced (replace company_id now payload by db) h = record {
  unique_ids = reassign_and_delete_role-HasUniqueRoleIds company_id db h.unique_ids now payload by;
  members_have_roles =
      (reassign_and_delete_role-MembersHaveRoles company_id now payload by db h.unique_ids
        h.members_have_roles).0;
}
Step-IsPlaced (add_user ext company_id payload by db) h = record {
  unique_ids = add_user_to_company-HasUniqueRoleIds ext company_id by db h.unique_ids payload;
  members_have_roles =
      (add_user_to_company-MembersHaveRoles ext company_id by db payload h.members_have_roles).0;
}
Step-IsPlaced (remove_user ext company_id now user_id by db) h = record {
  unique_ids =
      remove_user_from_company-HasUniqueRoleIds ext company_id by db h.unique_ids now user_id;
  members_have_roles =
      (remove_user_from_company-MembersHaveRoles ext company_id by db now user_id
        h.members_have_roles).0;
}
Step-IsPlaced (change_user ext company_id user_id role_name by db) h = record {
  unique_ids =
      update_user_role-HasUniqueRoleIds ext company_id by db h.unique_ids user_id role_name;
  members_have_roles =
      (update_user_role-MembersHaveRoles ext company_id by db user_id role_name
        h.members_have_roles).0;
}
Step-IsPlaced (found ext new_id id payload by db) h =
    (create_company-IsPlaced ext new_id id by payload (begin db) (h, h)).0
Step-IsPlaced (change payload company_id db) h =
    (update_company-IsPlaced company_id payload (begin db) (h, h)).0
Step-IsPlaced (close now company_id db) h =
    (delete_company-IsPlaced company_id now (begin db) (h, h)).0

-- If identifiers of roles are unique and every open membership has a role that is open and enabled
-- for its company, then both hold of what is committed after any sequence of calls of the
-- repositories of roles, of assignments, of company users and of companies, however each of them
-- ends, where a call of `delete_role` with a payload, a company and a deleting user is made only
-- while no open member of another company has a role of the name.
pub Reach-IsPlaced : {db later : Db} → IsPlaced db → Reach db later → IsPlaced later
Reach-IsPlaced h here = h
Reach-IsPlaced h (next before step) = Step-IsPlaced step (Reach-IsPlaced h before)
