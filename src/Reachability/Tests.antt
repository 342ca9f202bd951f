-- ===== src/Reachability/Tests.antt =====
-- app/repository/company_role.py and app/repository/company_user.py: a sequence of calls.
use userverse.Database.{begin}
use userverse.Database.Samples.{root}
use userverse.Roles.{RoleDeleteModel}
use userverse.Roles.Samples.{two_roles, two_roles-MembersHaveRoles, two_roles-HasUniqueRoleIds}
use userverse.Roles.Assignment.Placement.{IsPlaced}
use userverse.Roles.Assignment.{unassign_role, reassign_and_delete_role}
use userverse.Reachability.{here, next, replace, unassign}
use userverse.Reachability.Invariant.{Reach-IsPlaced}

abbrev to_auditors : RoleDeleteModel
to_auditors = record { replacement_role_name = "Auditor"; role_name_to_delete = "Viewer" }

two_roles-IsPlaced : IsPlaced two_roles
two_roles-IsPlaced = record {
  unique_ids = two_roles-HasUniqueRoleIds;
  members_have_roles = two_roles-MembersHaveRoles;
}

-- The members move to the other role, and then that role cannot be taken from the company.
Reach-IsPlaced_example :
    IsPlaced
      (unassign_role 1 101 8
        (begin (reassign_and_delete_role 1 100 to_auditors root (begin two_roles)).1.saved)).1.saved
Reach-IsPlaced_example = Reach-IsPlaced two_roles-IsPlaced (
    next (next here (replace 1 100 to_auditors root two_roles)) (
      unassign 1 101 8 (reassign_and_delete_role 1 100 to_auditors root (begin two_roles)).1.saved))
