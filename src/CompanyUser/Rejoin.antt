-- ===== src/CompanyUser/Rejoin.antt =====
-- app/repository/company_user.py: adding a user after a removal.
use userverse.Base.{
  ℕ, ◌≡◌, ◌≢◌, refl, inl, inr, true, false, not, ◌&&◌, none, some, List, [], ◌∷◌, arith, all, find?,
  find?_sound, update_where, mem-update_where, all_mem, is_none, if◌then◌else◌, Bool-cases, ◌==◌,
  nat_Eq, string_Eq,
}
use userverse.Database.{
  UserReadModel, User, Role, AssociationUserCompany, Db, begin, integrity_error, ok, err,
}
use userverse.Permission.{Externals}
use userverse.Roles.Assignment.{ensure_role_name_assigned}
use userverse.CompanyUser.{
  CompanyUserAddModel, is_membership, find_membership, may_join, set_membership, close_membership,
  add_user_to_company, remove_user_from_company,
}
use userverse.CompanyUser.Steps.{remove_user_from_company-cases}

module _ (company_id now user_id : ℕ) (by : UserReadModel) where
  abbrev closed : AssociationUserCompany → AssociationUserCompany
  closed = close_membership now by

  none_open :
      (rows : List AssociationUserCompany)
      → find?
          (λ a. is_membership company_id user_id a && is_none a.closed_at)
          (update_where (is_membership company_id user_id) closed rows)
        ≡ none
  unfolding is_membership close_membership
  none_open [] = refl
  none_open (a ∷ rows) = ground (arith, none_open rows)

  none_found :
      (db : Db)
      → find_membership company_id user_id (set_membership company_id user_id closed db) ≡ none
  unfolding find_membership set_membership
  none_found db = none_open db.associations

  still_member :
      (a : AssociationUserCompany)
      → is_membership company_id user_id a ≡ true
      → is_membership company_id user_id
          (if is_membership company_id user_id a then closed a else a)
        ≡ true
  unfolding is_membership close_membership
  still_member a same = ground arith

  may_not_join :
      (db : Db) (a : AssociationUserCompany) (role_id : ℕ)
      → find_membership company_id user_id db ≡ some a
      → may_join company_id user_id role_id (set_membership company_id user_id closed db) ≡ false
  unfolding may_join set_membership find_membership
  may_not_join db a role_id present =
      let (listed, passes) =
        find?_sound (λ x. is_membership company_id user_id x && is_none x.closed_at) db.associations
          present in
      let kept = mem-update_where (is_membership company_id user_id) closed listed in
      elim (Bool-cases (
        all (λ x. not (is_membership company_id user_id x))
          (update_where (is_membership company_id user_id) closed db.associations))) [
            | inl fresh ↦
                let apart = all_mem (λ x. not (is_membership company_id user_id x)) fresh kept in
                let still = still_member a (ground arith) in absurd (ground arith)
            | inr taken ↦ ground (arith, taken)
          ]

-- A user without an open membership but with a closed one: the addition is refused by the database.
add_user_to_company-refused :
    (ext : Externals) (company_id : ℕ) (payload : CompanyUserAddModel) (by : UserReadModel)
    (user : User) (role : Role) (db : Db)
    → find? (λ (u : User). u.email == payload.email) db.users ≡ some user
    → ensure_role_name_assigned company_id payload.role (begin db) ≡ (ok role, begin db)
    → find_membership company_id user.id db ≡ none
    → may_join company_id user.id role.id db ≡ false
    → add_user_to_company ext company_id payload by (begin db) ≡ (err integrity_error, begin db)
unfolding add_user_to_company
add_user_to_company-refused ext company_id payload by user role db somebody returned absent taken =
    ground (arith, somebody, returned, absent, taken)

-- After a removal that changed the database, adding the user to the company again, in a role that is
-- enabled for it, always raises `IntegrityError`, which nothing catches, and changes nothing.
pub add_user_to_company-remove_user_from_company :
    (ext : Externals) (company_id now : ℕ) (by : UserReadModel) (payload : CompanyUserAddModel)
    (user : User) (role : Role) (db : Db)
    → let s = (remove_user_from_company ext company_id now user.id by (begin db)).1 in
      s ≢ begin db
      → find? (λ (u : User). u.email == payload.email) s.live.users ≡ some user
      → ensure_role_name_assigned company_id payload.role s ≡ (ok role, s)
      → add_user_to_company ext company_id payload by s ≡ (err integrity_error, s)
add_user_to_company-remove_user_from_company ext company_id now by payload user role db changed
      somebody returned =
    elim (remove_user_from_company-cases ext company_id now user.id by db) [
      | inl same ↦ absurd (changed same)
      | inr (a, present, same) ↦
          let after = set_membership company_id user.id (close_membership now by) db in
          rw same (
            add_user_to_company-refused ext company_id payload by user role after
              (rw same at somebody) (rw same at returned) (none_found company_id now user.id by db)
              (may_not_join company_id now user.id by db a role.id present))
    ]
