-- ===== src/Roles/Repository/OfCompany/Tests.antt =====
-- app/repository/company_role.py: `delete_role` with a payload, when two companies have the role.
use userverse.Base.{◌≡◌, refl, none, some, [], ◌∷◌, map, lookup, put}
use userverse.Messages.{company_role, role_update_failed}
use userverse.Database.{
  Role, AssociationUserCompany, Db, begin, app_error, err, one_or_none, at_most_one,
}
use userverse.Database.Samples.{root, ann_at_acme, viewer_enabled}
use userverse.Roles.{RoleDeleteModel}
use userverse.Roles.Samples.{two_roles}
use userverse.Roles.Assignment.{
  is_member_in, is_assigned_name, is_assignment, set_role_row, set_assignment, get_assignment,
  get_role_name_assigned,
}
use userverse.Roles.Repository.{close_role, note_role}
use userverse.Roles.Repository.OfCompany.{
  move_to, move_members, close_role_by, delete_role_and_reassign_users, delete_role_of_company,
}

abbrev to_auditors : RoleDeleteModel
to_auditors = record { replacement_role_name = "Auditor"; role_name_to_delete = "Viewer" }

-- Company 2 has a viewer too.
abbrev shared : Db
shared = record two_roles {
  company_roles = record viewer_enabled { company_id = 2 } ∷ two_roles.company_roles;
  associations = ann_at_acme ∷ record ann_at_acme { user_id = 5; company_id = 2 } ∷ [];
}

replacing : Unit {0}
unfolding is_member_in is_assigned_name is_assignment set_role_row set_assignment get_assignment
    get_role_name_assigned close_role note_role move_to move_members close_role_by
    delete_role_and_reassign_users delete_role_of_company one_or_none at_most_one lookup put
replacing = tt

-- The viewer of company 2 keeps a role that is closed.
member_is_left_behind :
    let db = (delete_role_of_company (some 1) 100 to_auditors (some root) (begin shared)).1.saved in
    (map (λ (a : AssociationUserCompany). a.role_id) db.associations ≡ 8 ∷ 7 ∷ [])
    × (map (λ (r : Role). r.closed_at) db.roles ≡ some 100 ∷ none ∷ [])
unfolding replacing
member_is_left_behind = (refl, refl)

no_replacement_by_itself :
    (delete_role_of_company
      (some 1)
      100
      (record to_auditors { replacement_role_name = "Viewer" })
      (some root)
      (begin shared)).0
    ≡ err (app_error 400 (company_role role_update_failed))
unfolding replacing
no_replacement_by_itself = refl
