-- ===== src/CompanyUser/Service/Owner.antt =====
-- app/services/company/user.py: owners, and who may manage members.
use userverse.Base.{
  ℕ, String, ◌≡◌, ◌⊎◌, inl, inr, true, false, ◌&&◌, none, Memᴰ, arith, any, any_complete,
  update_where, mem-update_where, is_none, Bool-cases, ◌==◌, ==_refl, nat_Eq, string_Eq,
}
use userverse.Messages.{company, unauthorized_company_access}
use userverse.Database.{
  UserReadModel, Role, AssociationUserCompany, Db, Session, begin, app_error, Result, err,
}
use userverse.SystemPermissions.{
  SystemPermission, company_members_add, company_members_role_update, company_members_remove,
}
use userverse.Authorization.{is_authorized}
use userverse.Authorization.Laws.{require_iff, require-refused}
use userverse.Permission.{Externals}
use userverse.CompanyUser.{
  CompanyUserAddModel, CompanyUserReadModel, is_membership, is_user_linked_to_company,
  set_membership, close_membership,
}
use userverse.CompanyUser.Steps.{remove_user_from_company-cases as removal_cases}
use userverse.CompanyUser.Service.{add_user_to_company, update_user_role, remove_user_from_company}

module _ (ext : Externals) (current : UserReadModel) (company_id : ℕ) where
  -- A removal leaves the database as it was, or the user is no owner and the membership is closed.
  pub remove_user_from_company-cases :
      (now user_id : ℕ) (db : Db)
      → ((remove_user_from_company ext current company_id now user_id (begin db)).1 ≡ begin db)
        ⊎ ((is_user_linked_to_company user_id company_id "Owner" db ≡ false)
            × ((remove_user_from_company ext current company_id now user_id (begin db)).1
                ≡ begin (set_membership company_id user_id (close_membership now current) db)))
  unfolding remove_user_from_company
  remove_user_from_company-cases now user_id db =
      let required = require_iff ext.uuid5 current company_id company_members_remove (begin db) in
      elim required.1 [
        | inr refused ↦ inl (ground (arith, refused, required.2))
        | inl passed ↦ elim (Bool-cases (is_user_linked_to_company user_id company_id "Owner" db)) [
          | inl owner ↦ inl (ground (arith, passed, required.2, owner))
          | inr no_owner ↦ elim (removal_cases ext company_id now user_id current db) [
            | inl same ↦ inl (ground (arith, passed, required.2, no_owner, same))
            | inr (a, present, same) ↦
                inr (no_owner, ground (arith, passed, required.2, no_owner, same))
          ]
        ]
      ]

  -- An open membership in a role that is called Owner is left as it was by every removal of a member,
  -- whether the call returns or raises, as committed and as the session sees it.
  pub remove_user_from_company-owners :
      (now user_id : ℕ) (a : AssociationUserCompany) (r : Role) (db : Db)
      → Memᴰ a db.associations
      → a.closed_at ≡ none
      → Memᴰ r db.roles
      → r.id ≡ a.role_id
      → r.name ≡ "Owner"
      → let s = (remove_user_from_company ext current company_id now user_id (begin db)).1 in
        Memᴰ a s.saved.associations × Memᴰ a s.live.associations
  unfolding set_membership is_user_linked_to_company
  remove_user_from_company-owners now user_id a r db listed a_open r_listed its_role its_name =
      elim (remove_user_from_company-cases now user_id db) [
        | inl same ↦ rw same (listed, listed)
        | inr (no_owner, same) ↦
            let has_name =
              any_complete (λ (x : Role). (x.id == a.role_id) && (x.name == "Owner")) r_listed
                (rw (its_role, its_name) (ground (arith, ==_refl {A = String} "Owner"))) in
            let other : is_membership company_id user_id a ≡ false =
              elim (Bool-cases (is_membership company_id user_id a)) [
                | inr not_its ↦ not_its
                | inl its ↦ absurd (
                    let found =
                      any_complete
                        (λ x.
                          is_membership company_id user_id x
                          && is_none x.closed_at
                          && any (λ (y : Role). (y.id == x.role_id) && (y.name == "Owner"))
                              db.roles)
                        listed (ground arith) in
                    ground arith)
              ] in
            let kept =
              mem-update_where (is_membership company_id user_id) (close_membership now current)
                listed in
            let stays : Memᴰ a (
                update_where (is_membership company_id user_id) (close_membership now current)
                  db.associations) =
              rw other at kept in
            rw same (stays, stays)
      ]

  -- For a user who is no superuser, adding, moving and removing a member each raise a 403 and change
  -- nothing, unless the user is authorized for that one operation in the company.
  pub members_need_permission :
      (db : Db) (payload : CompanyUserAddModel) (now user_id : ℕ) (role_name : String)
      → current.is_superuser ≡ false
      → let refused : Result CompanyUserReadModel × Session =
          (err (app_error 403 (company unauthorized_company_access)), begin db) in
        let may = λ (p : SystemPermission). is_authorized ext.uuid5 current.id company_id p db in
        (may company_members_add ≡ true
          ⊎ add_user_to_company ext current company_id payload (begin db) ≡ refused)
        × (may company_members_role_update ≡ true
            ⊎ update_user_role ext current company_id user_id role_name (begin db) ≡ refused)
        × (may company_members_remove ≡ true
            ⊎ remove_user_from_company ext current company_id now user_id (begin db) ≡ refused)
  unfolding add_user_to_company update_user_role remove_user_from_company
  members_need_permission db payload now user_id role_name plain = (
    unless company_members_add (λ denied. ground (
      arith,
      require-refused ext.uuid5 current company_id company_members_add (begin db) plain denied,
    )),
    unless company_members_role_update (λ denied. ground (
      arith,
      require-refused ext.uuid5 current company_id company_members_role_update (begin db) plain
          denied,
    )),
    unless company_members_remove (λ denied. ground (
      arith,
      require-refused ext.uuid5 current company_id company_members_remove (begin db) plain denied,
    )),
  )
    where
      unless :
          {A : Type 0} (p : SystemPermission)
          → (is_authorized ext.uuid5 current.id company_id p db ≡ false → A)
          → (is_authorized ext.uuid5 current.id company_id p db ≡ true) ⊎ A
      unless p refused = elim (Bool-cases (is_authorized ext.uuid5 current.id company_id p db)) [
        | inl allowed ↦ inl allowed
        | inr denied ↦ inr (refused denied)
      ]
