-- ===== src/Roles/Service/Access.antt =====
-- app/services/company/role.py: who may manage roles.
use userverse.Base.{ℕ, String, Option, ◌≡◌, ◌⊎◌, inl, inr, true, false, arith, Bool-cases}
use userverse.Messages.{
  company, company_role, unauthorized_company_access, role_management_forbidden,
}
use userverse.Database.{UserReadModel, Session, app_error, err}
use userverse.SystemPermissions.{SystemPermission, company_roles_assign, company_roles_unassign}
use userverse.Authorization.{is_authorized}
use userverse.Authorization.Laws.{require-refused}
use userverse.Permission.{Externals}
use userverse.Roles.{RoleCreateModel, RoleUpdateModel, RoleDeleteModel, RoleAssignCompaniesModel}
use userverse.Roles.Service.{
  RoleTarget, ensure_superuser, create_role, update_role, update_company_role, delete_global_role,
  assign_role_to_company, assign_role_to_companies, create_role_for_company, unassign_role,
  delete_role,
}

module _ (ext : Externals) (current : UserReadModel) (plain : current.is_superuser ≡ false)
    (s : Session) where
  -- For a user who is no superuser, creating, changing and deleting roles, for one company or all of
  -- them, raises a 403 and changes nothing; so do assigning a role to a company and taking it away,
  -- unless the user is authorized for that one operation in the company.
  pub management_needs_permission :
      (id now role_id company_id : ℕ) (new : RoleCreateModel) (name : String) (target : RoleTarget)
      (update : RoleUpdateModel) (uuid : String → Option ℕ) (companies : RoleAssignCompaniesModel)
      (replace : RoleDeleteModel)
      → let forbidden = app_error 403 (company_role role_management_forbidden) in
        let unauthorized = app_error 403 (company unauthorized_company_access) in
        let may =
          λ (p : SystemPermission). is_authorized ext.uuid5 current.id company_id p s.live in
        (create_role ext current id new s ≡ (err forbidden, s))
        × (update_role ext current target update s ≡ (err forbidden, s))
        × (update_company_role ext current company_id name update s ≡ (err forbidden, s))
        × (delete_global_role ext current now role_id s ≡ (err forbidden, s))
        × (assign_role_to_companies ext current uuid role_id companies s ≡ (err forbidden, s))
        × (create_role_for_company ext current id new company_id s ≡ (err forbidden, s))
        × (delete_role ext current now replace company_id s ≡ (err forbidden, s))
        × (may company_roles_assign ≡ true
            ⊎ assign_role_to_company ext current company_id role_id s ≡ (err unauthorized, s))
        × (may company_roles_unassign ≡ true
            ⊎ unassign_role ext current company_id now role_id s ≡ (err unauthorized, s))
  unfolding create_role update_role update_company_role delete_global_role assign_role_to_companies
      create_role_for_company delete_role assign_role_to_company unassign_role ensure_superuser
  management_needs_permission id now role_id company_id new name target update uuid companies
        replace =
      (
        ground (arith, plain),
        ground (arith, plain),
        ground (arith, plain),
        ground (arith, plain),
        ground (arith, plain),
        ground (arith, plain),
        ground (arith, plain),
        elim (Bool-cases
            (is_authorized ext.uuid5 current.id company_id company_roles_assign s.live)) [
              | inl allowed ↦ inl allowed
              | inr denied ↦ inr (
                  ground (
                    arith,
                    require-refused ext.uuid5 current company_id company_roles_assign s plain
                        denied,
                  ))
            ],
        elim (Bool-cases
            (is_authorized ext.uuid5 current.id company_id company_roles_unassign s.live)) [
              | inl allowed ↦ inl allowed
              | inr denied ↦ inr (
                  ground (
                    arith,
                    require-refused ext.uuid5 current company_id company_roles_unassign s plain
                        denied,
                  ))
            ],
      )
