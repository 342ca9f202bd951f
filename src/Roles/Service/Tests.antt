-- ===== src/Roles/Service/Tests.antt =====
-- app/services/company/role.py: a role that is there and is not enabled for the company yet.
use Prim.Native.String.{count}
use userverse.Base.{ℕ, String, Option, ◌≡◌, ◌⊎◌, refl, true, none, some, [], ◌∷◌}
use userverse.Messages.{
  company, company_role, unauthorized_company_access, role_management_forbidden,
}
use userverse.Database.{Db, begin, app_error, value_error, ok, err, one_or_none, at_most_one}
use userverse.Database.Samples.{ann, root, viewer_row, small}
use userverse.SystemPermissions.{company_roles_assign, company_roles_unassign}
use userverse.Authorization.{is_authorized}
use userverse.Permission.{RoleReadModel, Externals}
use userverse.Permission.Effective.{
  company_role_read, effective_permissions, global_models, company_models,
}
use userverse.Roles.{RoleCreateModel, RoleUpdateModel, RoleDeleteModel, RoleAssignCompaniesModel}
use userverse.Roles.Samples.{auditor_row}
use userverse.Roles.Repository.{get_role_by_name}
use userverse.Roles.Assignment.{
  is_assignment, may_assign, add_assignment, set_assignment, get_assignment, assign, assign_role,
}
use userverse.Roles.Service.{
  by_name, ensure_superuser, create_role, update_role, update_company_role, delete_global_role,
  assign_role_to_company, assign_to_each, assign_role_to_companies, role_to_assign,
  create_role_for_company, unassign_role, delete_role,
}
use userverse.Roles.Service.Access.{management_needs_permission}
use userverse.Roles.Service.Enabled.{HasRole, create_role_for_company-HasRole}

abbrev lengths : Externals
lengths = record { uuid5 = count; key_le = λ p q. true }

abbrev with_auditor : Db
with_auditor = record small { roles = viewer_row ∷ auditor_row ∷ [] }

abbrev auditor : RoleCreateModel
auditor = record { name = "Auditor"; description = none }

abbrev auditor_read : RoleReadModel
auditor_read = record { id = 8; name = "Auditor"; description = none; permissions = [] }

managing : Unit {0}
unfolding ensure_superuser role_to_assign create_role_for_company get_role_by_name is_assignment
    may_assign add_assignment set_assignment get_assignment assign assign_role one_or_none
    at_most_one company_role_read effective_permissions global_models company_models assign_to_each
managing = tt

auditor_is_enabled :
    (create_role_for_company lengths root 9 auditor 1 (begin with_auditor)).0 ≡ ok auditor_read
unfolding managing
auditor_is_enabled = refl

-- An identifier that is no UUID raises.
no_uuid_raises :
    assign_to_each lengths root (λ text. none) 7 ("acme" ∷ []) (begin small)
    ≡ (err value_error, begin small)
unfolding managing
no_uuid_raises = refl

create_role_for_company-HasRole_example :
    HasRole 1 "Auditor" (create_role_for_company lengths root 9 auditor 1 (begin with_auditor)).1
create_role_for_company-HasRole_example =
    create_role_for_company-HasRole lengths root 9 auditor 1 with_auditor auditor_read
      auditor_is_enabled

abbrev nothing : RoleUpdateModel
nothing = record { name = none; description = none }

abbrev both : RoleAssignCompaniesModel
both = record { company_ids = "1" ∷ "2" ∷ [] }

abbrev to_auditor : RoleDeleteModel
to_auditor = record { replacement_role_name = "Auditor"; role_name_to_delete = "Viewer" }

abbrev uuid : String → Option ℕ
uuid text = some (count text)

management_needs_permission_example :
    let s = begin small in
    let forbidden = app_error 403 (company_role role_management_forbidden) in
    let unauthorized = app_error 403 (company unauthorized_company_access) in
    (create_role lengths ann 9 auditor s ≡ (err forbidden, s))
    × (update_role lengths ann (by_name 1 "Viewer") nothing s ≡ (err forbidden, s))
    × (update_company_role lengths ann 1 "Viewer" nothing s ≡ (err forbidden, s))
    × (delete_global_role lengths ann 100 7 s ≡ (err forbidden, s))
    × (assign_role_to_companies lengths ann uuid 7 both s ≡ (err forbidden, s))
    × (create_role_for_company lengths ann 9 auditor 1 s ≡ (err forbidden, s))
    × (delete_role lengths ann 100 to_auditor 1 s ≡ (err forbidden, s))
    × ((is_authorized count 3 1 company_roles_assign small ≡ true)
        ⊎ (assign_role_to_company lengths ann 1 7 s ≡ (err unauthorized, s)))
    × ((is_authorized count 3 1 company_roles_unassign small ≡ true)
        ⊎ (unassign_role lengths ann 1 100 7 s ≡ (err unauthorized, s)))
management_needs_permission_example =
    management_needs_permission lengths ann refl (begin small) 9 100 7 1 auditor "Viewer"
      (by_name 1 "Viewer") nothing uuid both to_auditor
