-- ===== src/Permission/Role/Tests.antt =====
-- app/repository/permission.py: `RolePermissionRepository` on the small database.
use Prim.Native.String.{count}
use userverse.Base.{◌≡◌, ◌↔◌, ◌⊎◌, refl, true}
use userverse.Messages.{already_assigned, assignment_not_found}
use userverse.Database.{begin, ok, err, one_or_none}
use userverse.Database.Samples.{viewer_row, small}
use userverse.SystemPermissions.{company_read}
use userverse.Authorization.{is_authorized}
use userverse.Authorization.Grants.{GrantBy}
use userverse.Permission.{RoleReadModel, Externals, failure}
use userverse.Permission.Effective.{global_role_read}
use userverse.Permission.Global.{get_record, ensure_record}
use userverse.Permission.Role.Access.{
  new_link, GrantByOther, remove_global_permission-assign_global_permission,
  is_authorized-assign_global_permission, is_authorized-remove_global_permission,
}
use userverse.Permission.Role.{
  ensure_role, links_global, may_link_global, link_global, unlink_global, assign_global_permission,
  remove_global_permission,
}

abbrev lengths : Externals
lengths = record { uuid5 = count; key_le = λ p q. true }

linking : Unit {0}
unfolding ensure_role links_global may_link_global link_global unlink_global
    assign_global_permission remove_global_permission one_or_none get_record ensure_record
linking = tt

abbrev after_assigning : RoleReadModel
after_assigning = global_role_read lengths viewer_row (link_global 7 50 small)

abbrev after_removing : RoleReadModel
after_removing = global_role_read lengths viewer_row (unlink_global 7 12 small)

report_is_assigned : (assign_global_permission lengths 7 50 (begin small)).0 ≡ ok after_assigning
unfolding linking
report_is_assigned = refl

reading_is_removed : (remove_global_permission lengths 7 12 (begin small)).0 ≡ ok after_removing
unfolding linking
reading_is_removed = refl

no_second_link :
    (assign_global_permission lengths 7 12 (begin small)).0 ≡ err (failure 409 already_assigned)
unfolding linking
no_second_link = refl

no_link_to_remove :
    (remove_global_permission lengths 7 50 (begin small)).0 ≡ err (failure 404 assignment_not_found)
unfolding linking
no_link_to_remove = refl

remove_global_permission-assign_global_permission_example :
    (r' : RoleReadModel) × (remove_global_permission lengths 7 50
        (assign_global_permission lengths 7 50 (begin small)).1
      ≡ (ok r', begin small))
remove_global_permission-assign_global_permission_example =
    remove_global_permission-assign_global_permission lengths 7 50 small after_assigning
      report_is_assigned

is_authorized-assign_global_permission_example :
    (is_authorized count 3 1 company_read
        (assign_global_permission lengths 7 50 (begin small)).1.saved
      ≡ true)
    ↔ ((is_authorized count 3 1 company_read small ≡ true)
        ⊎ GrantBy count 3 1 company_read (new_link 7 50) small)
is_authorized-assign_global_permission_example =
    is_authorized-assign_global_permission lengths 7 50 small 3 1 company_read after_assigning
      report_is_assigned

is_authorized-remove_global_permission_example :
    (is_authorized count 3 1 company_read
        (remove_global_permission lengths 7 12 (begin small)).1.saved
      ≡ true)
    ↔ GrantByOther count 7 12 small 3 1 company_read
is_authorized-remove_global_permission_example =
    is_authorized-remove_global_permission lengths 7 12 small 3 1 company_read after_removing
      reading_is_removed
