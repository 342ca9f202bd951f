-- ===== src/Roles/Assignment/Tests.antt =====
-- app/repository/company_role.py: `CompanyRoleAssignmentRepository` on a company with two roles.
use Prim.Native.String.{count}
use userverse.Base.{◌≡◌, refl, true, [], ◌∷◌, map}
use userverse.Messages.{company_role, role_deletion_failed, role_update_failed}
use userverse.Database.{
  AssociationUserCompany, begin, app_error, integrity_error, ok, err, one_or_none, at_most_one,
}
use userverse.Database.Samples.{ann, root}
use userverse.Permission.{Externals}
use userverse.Roles.{RoleDeleteModel}
use userverse.Roles.Samples.{auditor_row, two_roles}
use userverse.Roles.Assignment.{
  is_assignment, may_assign, add_assignment, set_assignment, close_assignment, note_assignment,
  remove_permissions_of_role, is_member_in, reassign, is_assigned_name, get_assignment,
  get_role_name_assigned, assign, assign_role, unassign_role, reassign_and_delete_role,
}
use userverse.Roles.Assignment.Reassign.{assign_role-unassign_role}

abbrev lengths : Externals
lengths = record { uuid5 = count; key_le = λ p q. true }

assigning : Unit {0}
unfolding is_assignment may_assign add_assignment set_assignment close_assignment note_assignment
    remove_permissions_of_role is_member_in reassign is_assigned_name get_assignment
    get_role_name_assigned assign assign_role unassign_role reassign_and_delete_role one_or_none
    at_most_one
assigning = tt

abbrev to_auditors : RoleDeleteModel
to_auditors = record { replacement_role_name = "Auditor"; role_name_to_delete = "Viewer" }

role_in_use_stays :
    (unassign_role 1 100 7 (begin two_roles)).0
    ≡ err (app_error 400 (company_role role_deletion_failed))
unfolding assigning
role_in_use_stays = refl

unused_role_goes : (unassign_role 1 100 8 (begin two_roles)).0 ≡ ok tt
unfolding assigning
unused_role_goes = refl

members_move :
    map
      (λ (a : AssociationUserCompany). a.role_id)
      (reassign_and_delete_role 1 100 to_auditors root (begin two_roles)).1.saved.associations
    ≡ 8 ∷ []
unfolding assigning
members_move = refl

no_replacement_by_itself :
    (reassign_and_delete_role 1 100
      (record to_auditors { replacement_role_name = "Viewer" })
      root
      (begin two_roles)).0
    ≡ err (app_error 400 (company_role role_update_failed))
unfolding assigning
no_replacement_by_itself = refl

assign_role-unassign_role_example :
    let s = (unassign_role 1 100 8 (begin two_roles)).1 in
    assign_role 1 lengths auditor_row ann s ≡ (err integrity_error, s)
assign_role-unassign_role_example =
    assign_role-unassign_role lengths 1 100 auditor_row ann two_roles unused_role_goes
