-- ===== src/Permission/Service/Tests.antt =====
-- app/services/permission.py on the small database.
use Prim.Native.String.{count}
use userverse.Base.{String, List, [], ◌∷◌, ◌≡◌, ◌⊎◌, Bool, refl, true, none}
use userverse.Database.{UserReadModel, Role, begin}
use userverse.Database.Samples.{ann, small}
use userverse.SystemPermissions.{
  company_permissions_create, company_permissions_read, company_permissions_update,
  company_permissions_delete, company_permissions_assign, company_permissions_unassign,
}
use userverse.Authorization.{is_authorized}
use userverse.Permission.{
  PermissionQueryParamsModel, PermissionCreateModel, PermissionUpdateModel, Externals,
}
use userverse.Permission.Service.Access.{IsRefused, company_management_needs_permission}
use userverse.Authorization.Laws.{SameAccess}
use userverse.Permission.Company.Writes.{DiffersInCompanies}
use userverse.Permission.Service.Calls.{
  Call, list_global, assign_global, assign_platform, list_company, committed_after,
}
use userverse.Permission.Service.Plain.{committed_after-SameAccess}
use userverse.Permission.Service.{
  get_company_permissions, create_company_permission, update_company_permission,
  delete_company_permission, get_company_role_permissions, assign_company_permission,
  remove_company_permission,
}

abbrev lengths : Externals
lengths = record { uuid5 = count; key_le = λ p q. true }

abbrev any_order : Role → Role → Bool
any_order r q = true

abbrev export : PermissionCreateModel
export = record { name = "export"; description = none }

abbrev nothing : PermissionUpdateModel
nothing = record { name = none; description = none }

abbrev every : PermissionQueryParamsModel
every = record { params = record { limit = 10; page = 1 }; name = none; description = none }

abbrev any_pattern : String → String → Bool
any_pattern pattern value = true

-- Ann tries to read, to link and to give herself a platform role, and then lists her company's
-- permissions.
abbrev requests : List (UserReadModel × Call)
requests =
    (ann, list_global any_pattern (λ p q. true) every)
    ∷ (ann, assign_global 7 50)
    ∷ (ann, assign_platform any_order 3 7)
    ∷ (ann, list_company any_pattern (λ p q. true) 1 every)
    ∷ []

committed_after-SameAccess_example :
    DiffersInCompanies small (committed_after lengths requests small)
    × SameAccess count small (committed_after lengths requests small)
committed_after-SameAccess_example = committed_after-SameAccess lengths requests small refl

company_management_needs_permission_example :
    ((is_authorized count 3 1 company_permissions_create small ≡ true)
      ⊎ IsRefused (begin small) (create_company_permission lengths ann 1 60 export (begin small)))
    × ((is_authorized count 3 1 company_permissions_read small ≡ true)
        ⊎ IsRefused
            (begin small)
            (get_company_permissions lengths ann any_pattern (λ p q. true) 1 every (begin small)))
    × ((is_authorized count 3 1 company_permissions_update small ≡ true)
        ⊎ IsRefused
            (begin small)
            (update_company_permission lengths ann 1 61 nothing (begin small)))
    × ((is_authorized count 3 1 company_permissions_delete small ≡ true)
        ⊎ IsRefused (begin small) (delete_company_permission lengths ann 1 61 (begin small)))
    × ((is_authorized count 3 1 company_permissions_read small ≡ true)
        ⊎ IsRefused (begin small) (get_company_role_permissions lengths ann 1 7 (begin small)))
    × ((is_authorized count 3 1 company_permissions_assign small ≡ true)
        ⊎ IsRefused (begin small) (assign_company_permission lengths ann 1 7 61 (begin small)))
    × ((is_authorized count 3 1 company_permissions_unassign small ≡ true)
        ⊎ IsRefused (begin small) (remove_company_permission lengths ann 1 7 61 (begin small)))
company_management_needs_permission_example =
    company_management_needs_permission lengths ann refl (begin small) 1 60 61 7 export nothing
      any_pattern (λ p q. true) every
