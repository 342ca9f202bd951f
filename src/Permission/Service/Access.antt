-- ===== src/Permission/Service/Access.antt =====
-- app/services/permission.py: who may manage permissions.
use userverse.Base.{ℕ, String, ◌≡◌, ◌⊎◌, inl, inr, Bool, true, false, arith, Bool-cases}
use userverse.Messages.{company, unauthorized_company_access}
use userverse.Database.{UserReadModel, Session, Error, app_error, Result, err, Action, ◌>>◌}
use userverse.SystemPermissions.{
  SystemPermission, company_permissions_create, company_permissions_read,
  company_permissions_update, company_permissions_delete, company_permissions_assign,
  company_permissions_unassign,
}
use userverse.Authorization.{is_authorized}
use userverse.Authorization.Laws.{require-refused}
use userverse.Database.{CompanyPermission}
use userverse.Permission.{
  PermissionQueryParamsModel, PermissionCreateModel, PermissionUpdateModel, Externals,
}
use userverse.Permission.Company
use userverse.Permission.Role
use userverse.Permission.Company.Steps.{ensure_company-cases}
use userverse.Permission.Service.{
  get_company_permissions, ensure_company_permission, create_company_permission,
  update_company_permission, delete_company_permission, get_company_role_permissions,
  assign_company_permission, remove_company_permission,
}

-- A refusal raises and changes nothing.
abbrev pub IsRefused : {A : Type 0} → Session → Result A × Session → Type 0
IsRefused {A} s outcome = (e : Error) × (outcome ≡ (err e, s))

module _ (ext : Externals) (current : UserReadModel) (plain : current.is_superuser ≡ false)
    (s : Session) where
  module _ (company_id : ℕ) where
    abbrev May : SystemPermission → Type 0
    May permission = is_authorized ext.uuid5 current.id company_id permission s.live ≡ true

    is_gated :
        {A : Type 0} (permission : SystemPermission) (m : Action A)
        → May permission
          ⊎ IsRefused s ((ensure_company_permission ext current company_id permission >> m) s)
    unfolding ensure_company_permission
    is_gated permission m =
        elim (Bool-cases (is_authorized ext.uuid5 current.id company_id permission s.live)) [
          | inl allowed ↦ inl allowed
          | inr denied ↦ elim (ensure_company-cases company_id s) [
            | inl (e, raised) ↦ inr (e, ground (arith, raised))
            | inr (c, returned) ↦ inr (
              app_error 403 (company unauthorized_company_access),
              ground (
                arith,
                returned,
                require-refused ext.uuid5 current company_id permission s plain denied,
              ),
            )
          ]
        ]

    -- For a user who is no superuser, each operation on the permissions of a company and on their
    -- links to roles, listing them included, raises and changes nothing, unless the user is authorized for that one
    -- operation in that company.
    pub company_management_needs_permission :
        (id permission_id role_id : ℕ) (new : PermissionCreateModel)
        (update : PermissionUpdateModel) (ilike : String → String → Bool)
        (row_le : CompanyPermission → CompanyPermission → Bool) (query : PermissionQueryParamsModel)
        → (May company_permissions_create
            ⊎ IsRefused s (create_company_permission ext current company_id id new s))
          × (May company_permissions_read
              ⊎ IsRefused s (get_company_permissions ext current ilike row_le company_id query s))
          × (May company_permissions_update
              ⊎ IsRefused s
                  (update_company_permission ext current company_id permission_id update s))
          × (May company_permissions_delete
              ⊎ IsRefused s (delete_company_permission ext current company_id permission_id s))
          × (May company_permissions_read
              ⊎ IsRefused s (get_company_role_permissions ext current company_id role_id s))
          × (May company_permissions_assign
              ⊎ IsRefused s
                  (assign_company_permission ext current company_id role_id permission_id s))
          × (May company_permissions_unassign
              ⊎ IsRefused s
                  (remove_company_permission ext current company_id role_id permission_id s))
    unfolding create_company_permission update_company_permission delete_company_permission
        get_company_role_permissions assign_company_permission remove_company_permission
        get_company_permissions
    company_management_needs_permission id permission_id role_id new update ilike row_le query = (
      is_gated company_permissions_create (Company.create_permission company_id id new current),
      is_gated company_permissions_read (Company.get_permissions company_id ilike row_le query),
      is_gated company_permissions_update
          (Company.update_permission company_id permission_id update),
      is_gated company_permissions_delete (Company.delete_permission company_id permission_id),
      is_gated company_permissions_read (Role.get_company_role_permissions ext company_id role_id),
      is_gated company_permissions_assign
          (Role.assign_company_permission ext company_id role_id permission_id),
      is_gated company_permissions_unassign
          (Role.remove_company_permission ext company_id role_id permission_id),
    )
