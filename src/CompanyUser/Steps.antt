-- ===== src/CompanyUser/Steps.antt =====
-- app/repository/company_user.py: how the calls of `CompanyUserRepository` end.
use userverse.Base.{
  ℕ, String, ◌≡◌, ◌⊎◌, inl, inr, true, ◌&&◌, some, arith, find?, Option-cases, Bool-cases, ◌==◌,
  nat_Eq, string_Eq,
}
use userverse.Database.{UserReadModel, User, Role, AssociationUserCompany, Db, Session, begin}
use userverse.Permission.{Externals}
use userverse.Permission.Role.Steps.{get_company_role_permissions-same}
use userverse.Roles.Assignment.Steps.{IsEnabled, ensure_role_name_assigned-cases}
use userverse.CompanyUser.{
  CompanyUserAddModel, find_membership, may_join, new_membership, add_membership, set_membership,
  close_membership, give_role, role_of, has_role_name, to_company_user, add_user_to_company,
  remove_user_from_company, update_user_role,
}

module _ (ext : Externals) (company_id : ℕ) where
  pub to_company_user-same :
      (user : User) (role : Role) (s : Session) → (to_company_user ext company_id user role s).1 ≡ s
  unfolding to_company_user
  to_company_user-same user role s =
      ground (arith, get_company_role_permissions-same ext company_id role.id s)

  -- An addition leaves the database as it was, or it adds an open membership in a role that is
  -- enabled for the company and commits that.
  pub add_user_to_company-cases :
      (payload : CompanyUserAddModel) (by : UserReadModel) (db : Db)
      → ((add_user_to_company ext company_id payload by (begin db)).1 ≡ begin db)
        ⊎ ((user : User) × (role : Role) × IsEnabled company_id role.id db
            × (may_join company_id user.id role.id db ≡ true)
            × ((add_user_to_company ext company_id payload by (begin db)).1
                ≡ begin (add_membership (new_membership company_id user.id role by) db)))
  unfolding add_user_to_company
  add_user_to_company-cases payload by db =
      elim (Option-cases (find? (λ (u : User). u.email == payload.email) db.users)) [
        | inl nobody ↦ inl (ground (arith, nobody))
        | inr (user, somebody) ↦
            elim (ensure_role_name_assigned-cases company_id payload.role (begin db)) [
              | inl (e, raised) ↦ inl (ground (arith, somebody, raised))
              | inr (role, returned, enabled) ↦
                  elim (Option-cases (find_membership company_id user.id db)) [
                    | inr (a, present) ↦ inl (ground (arith, somebody, returned, present))
                    | inl absent ↦ elim (Bool-cases (may_join company_id user.id role.id db)) [
                      | inr refused ↦ inl (ground (arith, somebody, returned, absent, refused))
                      | inl may ↦
                          let same = to_company_user-same user role (
                            begin
                              (add_membership (new_membership company_id user.id role by) db)) in
                          inr (
                            user,
                            role,
                            enabled,
                            may,
                            ground (arith, somebody, returned, absent, may, same),
                          )
                    ]
                  ]
            ]
      ]

  -- A removal leaves the database as it was, or it closes the membership and commits that.
  pub remove_user_from_company-cases :
      (now user_id : ℕ) (by : UserReadModel) (db : Db)
      → ((remove_user_from_company ext company_id now user_id by (begin db)).1 ≡ begin db)
        ⊎ ((a : AssociationUserCompany) × (find_membership company_id user_id db ≡ some a)
            × ((remove_user_from_company ext company_id now user_id by (begin db)).1
                ≡ begin (set_membership company_id user_id (close_membership now by) db)))
  unfolding remove_user_from_company
  remove_user_from_company-cases now user_id by db =
      elim (Option-cases (find_membership company_id user_id db)) [
        | inl absent ↦ inl (ground (arith, absent))
        | inr (a, present) ↦
            elim (Bool-cases ((a.user_id == by.id) && has_role_name "Administrator" a db)) [
              | inl forbidden ↦ inl (ground (arith, present, forbidden))
              | inr allowed ↦
                  let after = set_membership company_id user_id (close_membership now by) db in
                  inr (
                    a,
                    present,
                    elim (Option-cases (find? (λ (u : User). u.id == user_id) after.users)) [
                      | inl nobody ↦ ground (arith, present, allowed, nobody)
                      | inr (user, somebody) ↦ elim (Option-cases (role_of a after)) [
                        | inl no_role ↦ ground (arith, present, allowed, somebody, no_role)
                        | inr (role, its_role) ↦
                            let same = to_company_user-same user role (begin after) in
                            ground (arith, present, allowed, somebody, its_role, same)
                      ]
                    ],
                  )
            ]
      ]

  -- An update leaves the database as it was, or it gives the membership a role that is enabled for
  -- the company and commits that.
  pub update_user_role-cases :
      (user_id : ℕ) (role_name : String) (by : UserReadModel) (db : Db)
      → ((update_user_role ext company_id user_id role_name by (begin db)).1 ≡ begin db)
        ⊎ ((role : Role) × IsEnabled company_id role.id db
            × ((update_user_role ext company_id user_id role_name by (begin db)).1
                ≡ begin (set_membership company_id user_id (give_role role by) db)))
  unfolding update_user_role
  update_user_role-cases user_id role_name by db =
      elim (ensure_role_name_assigned-cases company_id role_name (begin db)) [
        | inl (e, raised) ↦ inl (ground (arith, raised))
        | inr (role, returned, enabled) ↦
            elim (Option-cases (find_membership company_id user_id db)) [
              | inl absent ↦ inl (ground (arith, returned, absent))
              | inr (a, present) ↦
                  let after = set_membership company_id user_id (give_role role by) db in
                  inr (
                    role,
                    enabled,
                    elim (Option-cases (find? (λ (u : User). u.id == user_id) after.users)) [
                      | inl nobody ↦ ground (arith, returned, present, nobody)
                      | inr (user, somebody) ↦
                          let same = to_company_user-same user role (begin after) in
                          ground (arith, returned, present, somebody, same)
                    ],
                  )
            ]
      ]
