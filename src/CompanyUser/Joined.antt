-- ===== src/CompanyUser/Joined.antt =====
-- app/repository/company_user.py: what holds after a user was added to a company.
use userverse.Base.{
  ℕ, String, ◌≡◌, refl, inl, inr, none, some, arith, find?, Memᴰ, mem-append_right, Option-cases,
  Bool-cases, ◌==◌, ◌==◌, nat_Eq, string_Eq,
}
use userverse.Messages.{company_user, add_user_failed}
use userverse.Database.{UserReadModel, User, Role, AssociationUserCompany, Db, begin, app_error, ok}
use userverse.Permission.{Externals}
use userverse.Roles.Assignment.{ensure_role_name_assigned}
use userverse.Roles.Assignment.Steps.{IsEnabled, get_role_name_assigned-cases}
use userverse.Roles.Assignment.Placement.{IsEnabled-kept}
use userverse.CompanyUser.{
  CompanyUserAddModel, CompanyUserReadModel, find_membership, may_join, new_membership,
  add_membership, add_user_to_company,
}
use userverse.CompanyUser.Steps.{to_company_user-same}

-- An open membership of a user, whom the email finds, in a role of a name that is open and enabled
-- for the company.
pub record IsMember (company_id : ℕ) (email role_name : String) (db : Db) : Type 0 where
  pub user : User
  pub membership : AssociationUserCompany
  pub role : Role
  pub found : find? (λ (u : User). u.email == email) db.users ≡ some user
  pub listed : Memᴰ membership db.associations
  pub of_user : membership.user_id ≡ user.id
  pub of_company : membership.company_id ≡ company_id
  pub in_role : membership.role_id ≡ role.id
  pub membership_open : membership.closed_at ≡ none
  pub role_listed : Memᴰ role db.roles
  pub named : role.name ≡ role_name
  pub enabled : IsEnabled company_id role.id db

module _ (ext : Externals) (company_id : ℕ) (payload : CompanyUserAddModel) (by : UserReadModel)
    (db : Db) where
  IsMember-joined :
      (user : User) (role : Role)
      → find? (λ (u : User). u.email == payload.email) db.users ≡ some user
      → Memᴰ role db.roles
      → role.name ≡ payload.role
      → IsEnabled company_id role.id db
      → IsMember company_id payload.email payload.role
          (add_membership (new_membership company_id user.id role by) db)
  unfolding add_membership new_membership
  IsMember-joined user role somebody role_listed named enabled = record {
    user = user;
    membership = new_membership company_id user.id role by;
    role = role;
    found = somebody;
    listed = mem-append_right db.associations (Memᴰ.head refl);
    of_user = refl;
    of_company = refl;
    in_role = refl;
    membership_open = refl;
    role_listed = role_listed;
    named = named;
    enabled =
        IsEnabled-kept company_id role.id db
          (add_membership (new_membership company_id user.id role by) db) (λ cr m. m) refl enabled;
  }

  -- If an addition returns, the user is a member in the role, and that is committed.
  pub add_user_to_company-IsMember :
      (m : CompanyUserReadModel)
      → (add_user_to_company ext company_id payload by (begin db)).0 ≡ ok m
      → (after : Db) × ((add_user_to_company ext company_id payload by (begin db)).1 ≡ begin after)
        × IsMember company_id payload.email payload.role after
        × (after.companies ≡ db.companies)
  unfolding add_user_to_company ensure_role_name_assigned add_membership
  add_user_to_company-IsMember m returned =
      elim (Option-cases (find? (λ (u : User). u.email == payload.email) db.users)) [
        | inl nobody ↦ absurd (ground (arith, nobody))
        | inr (user, somebody) ↦
            elim (get_role_name_assigned-cases company_id payload.role
              (app_error 400 (company_user add_user_failed)) (begin db)) [
                | inl (e, raised) ↦ absurd (ground (arith, somebody, raised))
                | inr (role, returned_role, enabled, named, role_listed) ↦
                    elim (Option-cases (find_membership company_id user.id db)) [
                      | inr (a, present) ↦ absurd (ground (arith, somebody, returned_role, present))
                      | inl absent ↦ elim (Bool-cases (may_join company_id user.id role.id db)) [
                        | inr refused ↦
                            absurd (ground (arith, somebody, returned_role, absent, refused))
                        | inl may ↦
                            let after =
                              add_membership (new_membership company_id user.id role by) db in
                            let same =
                              to_company_user-same ext company_id user role (begin after) in
                            (
                              after,
                              ground (arith, somebody, returned_role, absent, may, same),
                              IsMember-joined user role somebody role_listed named enabled,
                              refl,
                            )
                      ]
                    ]
              ]
      ]
