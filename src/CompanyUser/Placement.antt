-- ===== src/CompanyUser/Placement.antt =====
-- app/repository/company_user.py: the roles of members under `CompanyUserRepository`.
use userverse.Base.{
  ℕ, String, ◌≡◌, refl, sym, ap, ◌∙◌, subst, inl, inr, true, none, arith, mem-update_where_inv,
  mem-append_cases, mem-one, Bool-cases, nat_Eq,
}
use userverse.Database.{UserReadModel, Role, AssociationUserCompany, Db, begin}
use userverse.Permission.{Externals}
use userverse.Roles.Assignment.Steps.{IsEnabled}
use userverse.Roles.Assignment.Placement.{
  MembersHaveRoles, HasUniqueRoleIds, IsPlaced, IsEnabled-kept,
}
use userverse.CompanyUser.{
  CompanyUserAddModel, is_membership, new_membership, add_membership, set_membership,
  close_membership, give_role, add_user_to_company, remove_user_from_company, update_user_role,
}
use userverse.CompanyUser.Steps.{
  add_user_to_company-cases, remove_user_from_company-cases, update_user_role-cases,
}

module _ (ext : Externals) (company_id : ℕ) (by : UserReadModel) (db : Db) where
  MembersHaveRoles-add_membership :
      (user_id : ℕ) (role : Role)
      → IsEnabled company_id role.id db
      → MembersHaveRoles db
      → MembersHaveRoles (add_membership (new_membership company_id user_id role by) db)
  unfolding add_membership new_membership
  MembersHaveRoles-add_membership user_id role enabled h a m o =
      IsEnabled-kept a.company_id a.role_id db
        (add_membership (new_membership company_id user_id role by) db) (λ cr n. n) refl
        (elim (mem-append_cases db.associations m) [
          | inl old ↦ h a old o
          | inr new ↦
              subst (λ (x : AssociationUserCompany). IsEnabled x.company_id x.role_id db)
                (sym (mem-one new)) enabled
        ])

  module _ (user_id : ℕ) (f : AssociationUserCompany → AssociationUserCompany)
      (fits : (a : AssociationUserCompany)
        → is_membership company_id user_id a ≡ true
        → (f a).closed_at ≡ none
        → IsEnabled (f a).company_id (f a).role_id db) where
    MembersHaveRoles-set_membership :
        MembersHaveRoles db → MembersHaveRoles (set_membership company_id user_id f db)
    unfolding set_membership
    MembersHaveRoles-set_membership h a m o =
        let (b, listed, e) =
          mem-update_where_inv (is_membership company_id user_id) f db.associations m in
        IsEnabled-kept a.company_id a.role_id db (set_membership company_id user_id f db)
          (λ cr n. n) refl
          (elim (Bool-cases (is_membership company_id user_id b)) [
            | inl its ↦
                let same : a ≡ f b = e ∙ (rw its refl) in
                subst (λ (x : AssociationUserCompany). IsEnabled x.company_id x.role_id db)
                  (sym same)
                  (fits b its (sym (ap (λ (x : AssociationUserCompany). x.closed_at) same) ∙ o))
            | inr other ↦
                let same : a ≡ b = e ∙ (rw other refl) in
                subst (λ (x : AssociationUserCompany). IsEnabled x.company_id x.role_id db)
                  (sym same)
                  (h b listed (sym (ap (λ (x : AssociationUserCompany). x.closed_at) same) ∙ o))
          ])

  -- If every open membership has a role that is open and enabled for its company, then every one
  -- has after a user is added to a company, whether the call returns or raises, as committed and as
  -- the session sees it.
  pub add_user_to_company-MembersHaveRoles :
      (payload : CompanyUserAddModel)
      → MembersHaveRoles db
      → let s = (add_user_to_company ext company_id payload by (begin db)).1 in
        MembersHaveRoles s.saved × MembersHaveRoles s.live
  add_user_to_company-MembersHaveRoles payload h =
      elim (add_user_to_company-cases ext company_id payload by db) [
        | inl same ↦ rw same (h, h)
        | inr (user, role, enabled, may, same) ↦
            let kept = MembersHaveRoles-add_membership user.id role enabled h in
            rw same (kept, kept)
      ]

  -- If every open membership has a role that is open and enabled for its company, then every one
  -- has after a user is removed from a company, whether the call returns or raises, as committed
  -- and as the session sees it.
  pub remove_user_from_company-MembersHaveRoles :
      (now user_id : ℕ)
      → MembersHaveRoles db
      → let s = (remove_user_from_company ext company_id now user_id by (begin db)).1 in
        MembersHaveRoles s.saved × MembersHaveRoles s.live
  unfolding close_membership
  remove_user_from_company-MembersHaveRoles now user_id h =
      elim (remove_user_from_company-cases ext company_id now user_id by db) [
        | inl same ↦ rw same (h, h)
        | inr (a, present, same) ↦
            let kept =
              MembersHaveRoles-set_membership user_id (close_membership now by)
                (λ b its still_open. absurd (cc still_open)) h in
            rw same (kept, kept)
      ]

  -- If every open membership has a role that is open and enabled for its company, then every one
  -- has after a member's role is updated, whether the call returns or raises, as committed and as
  -- the session sees it.
  pub update_user_role-MembersHaveRoles :
      (user_id : ℕ) (role_name : String)
      → MembersHaveRoles db
      → let s = (update_user_role ext company_id user_id role_name by (begin db)).1 in
        MembersHaveRoles s.saved × MembersHaveRoles s.live
  unfolding give_role is_membership
  update_user_role-MembersHaveRoles user_id role_name h =
      elim (update_user_role-cases ext company_id user_id role_name by db) [
        | inl same ↦ rw same (h, h)
        | inr (role, enabled, same) ↦
            let kept =
              MembersHaveRoles-set_membership user_id (give_role role by)
                (λ b its still_open.
                  let in_company : b.company_id ≡ company_id = ground arith in
                  rw in_company enabled)
                h in
            rw same (kept, kept)
      ]

module _ (ext : Externals) (company_id : ℕ) (by : UserReadModel) (db : Db)
    (unique : HasUniqueRoleIds db) where
  pub add_user_to_company-HasUniqueRoleIds :
      (payload : CompanyUserAddModel)
      → HasUniqueRoleIds (add_user_to_company ext company_id payload by (begin db)).1.saved
  unfolding add_membership
  add_user_to_company-HasUniqueRoleIds payload =
      elim (add_user_to_company-cases ext company_id payload by db) [
        | inl same ↦ rw same unique
        | inr (user, role, enabled, may, same) ↦ rw same unique
      ]

  pub remove_user_from_company-HasUniqueRoleIds :
      (now user_id : ℕ)
      → HasUniqueRoleIds (remove_user_from_company ext company_id now user_id by (begin db)).1.saved
  unfolding set_membership
  remove_user_from_company-HasUniqueRoleIds now user_id =
      elim (remove_user_from_company-cases ext company_id now user_id by db) [
        | inl same ↦ rw same unique
        | inr (a, present, same) ↦ rw same unique
      ]

  pub update_user_role-HasUniqueRoleIds :
      (user_id : ℕ) (role_name : String)
      → HasUniqueRoleIds (update_user_role ext company_id user_id role_name by (begin db)).1.saved
  unfolding set_membership
  update_user_role-HasUniqueRoleIds user_id role_name =
      elim (update_user_role-cases ext company_id user_id role_name by db) [
        | inl same ↦ rw same unique
        | inr (role, enabled, same) ↦ rw same unique
      ]

-- An addition, on a session where everything is committed, keeps the roles of members.
pub add_user_to_company-IsPlaced :
    (ext : Externals) (company_id : ℕ) (payload : CompanyUserAddModel) (by : UserReadModel)
    (db : Db)
    → IsPlaced db
    → let s = (add_user_to_company ext company_id payload by (begin db)).1 in
      IsPlaced s.saved × IsPlaced s.live
unfolding add_membership
add_user_to_company-IsPlaced ext company_id payload by db h =
    elim (add_user_to_company-cases ext company_id payload by db) [
      | inl same ↦ rw same (h, h)
      | inr (user, role, enabled, may, same) ↦
          let kept : IsPlaced (add_membership (new_membership company_id user.id role by) db) =
            record {
              unique_ids = h.unique_ids;
              members_have_roles =
                  MembersHaveRoles-add_membership ext company_id by db user.id role enabled
                    h.members_have_roles;
            } in
          rw same (kept, kept)
    ]
