-- ===== src/CompanyUser/Tests.antt =====
-- app/repository/company_user.py and app/services/company/user.py on a company with two roles.
use Prim.Native.String.{count}
use userverse.Base.{
  String, ◌≡◌, ◌≢◌, ◌⊎◌, refl, ap, true, false, some, [], ◌∷◌, map, Memᴰ, arith, is_none, Bool,
  find?, ◌==◌, string_Eq,
}
use userverse.Messages.{
  company, company_user, unauthorized_company_access, add_existing_user_failed,
}
use userverse.Database.{
  User, Role, AssociationUserCompany, Db, Session, Result, begin, app_error, integrity_error, ok,
  err, one_or_none, at_most_one,
}
use userverse.Database.Samples.{ann, root, ann_row, ann_at_acme, viewer_row, small}
use userverse.SystemPermissions.{
  company_members_add, company_members_role_update, company_members_remove,
}
use userverse.Authorization.{is_authorized}
use userverse.Permission.{Externals}
use userverse.Permission.Role.{ensure_company_role, get_company_role_permissions}
use userverse.Roles.Assignment.{is_assigned_name, get_role_name_assigned, ensure_role_name_assigned}
use userverse.Roles.Samples.{two_roles}
use userverse.CompanyUser.{
  CompanyUserAddModel, CompanyUserReadModel, is_membership, find_membership, may_join,
  new_membership, add_membership, set_membership, close_membership, give_role, role_of,
  has_role_name, is_user_linked_to_company, to_company_user, add_user_to_company,
  remove_user_from_company, update_user_role,
}
use userverse.CompanyUser.Rejoin.{add_user_to_company-remove_user_from_company}
use userverse.CompanyUser.Service
use userverse.CompanyUser.Service.Owner.{remove_user_from_company-owners, members_need_permission}

abbrev lengths : Externals
lengths = record { uuid5 = count; key_le = λ p q. true }

managing : Unit {0}
unfolding is_membership find_membership may_join new_membership add_membership set_membership
    close_membership give_role role_of has_role_name is_user_linked_to_company to_company_user
    add_user_to_company remove_user_from_company update_user_role one_or_none at_most_one
    is_assigned_name get_role_name_assigned ensure_role_name_assigned ensure_company_role
    get_company_role_permissions
managing = tt

-- The database with a second user, who is no member.
abbrev bob_row : User
bob_row = record ann_row { id = 5; email = "bob@x.org" }

abbrev with_bob : Db
with_bob = record two_roles { users = ann_row ∷ bob_row ∷ [] }

abbrev as_viewer : String → CompanyUserAddModel
as_viewer email = record { email = email; role = "Viewer" }

bob_joins :
    map
      (λ (a : AssociationUserCompany). a.user_id)
      (add_user_to_company lengths 1
        (as_viewer "bob@x.org")
        root
        (begin with_bob)).1.saved.associations
    ≡ 3 ∷ 5 ∷ []
unfolding managing
bob_joins = refl

ann_is_a_member_already :
    (add_user_to_company lengths 1 (as_viewer "ann@x.org") root (begin with_bob)).0
    ≡ err (app_error 400 (company_user add_existing_user_failed))
unfolding managing
ann_is_a_member_already = refl

abbrev removed : Session
removed = (remove_user_from_company lengths 1 100 3 root (begin two_roles)).1

abbrev is_active : Session → Bool
is_active s = elim s.live.associations [ [] ↦ true | a ∷ rest ↦ is_none a.closed_at ]

removal_closes : is_active removed ≡ false
unfolding managing
removal_closes = refl

removal_changes : removed ≢ begin two_roles
removal_changes e =
    absurd (let same = ap is_active e in let closes = removal_closes in ground arith)

ann_still_registered :
    find? (λ (u : User). u.email == "ann@x.org") removed.live.users ≡ some ann_row
unfolding managing
ann_still_registered = refl

viewer_still_enabled : ensure_role_name_assigned 1 "Viewer" removed ≡ (ok viewer_row, removed)
unfolding managing
viewer_still_enabled = refl

add_user_to_company-remove_user_from_company_example :
    add_user_to_company lengths 1 (as_viewer "ann@x.org") root removed
    ≡ (err integrity_error, removed)
add_user_to_company-remove_user_from_company_example =
    add_user_to_company-remove_user_from_company lengths 1 100 root (as_viewer "ann@x.org") ann_row
      viewer_row two_roles removal_changes ann_still_registered viewer_still_enabled

-- Ann as the owner of her company.
abbrev owner_row : Role
owner_row = record viewer_row { name = "Owner" }

abbrev owned : Db
owned = record small { roles = owner_row ∷ [] }

remove_user_from_company-owners_example :
    let s = (Service.remove_user_from_company lengths root 1 100 3 (begin owned)).1 in
    Memᴰ ann_at_acme s.saved.associations × Memᴰ ann_at_acme s.live.associations
remove_user_from_company-owners_example =
    remove_user_from_company-owners lengths root 1 100 3 ann_at_acme owner_row owned
      (Memᴰ.head refl) refl (Memᴰ.head refl) refl refl

members_need_permission_example :
    let refused : Result CompanyUserReadModel × Session =
      (err (app_error 403 (company unauthorized_company_access)), begin small) in
    (is_authorized count 3 1 company_members_add small ≡ true
      ⊎ Service.add_user_to_company lengths ann 1 (as_viewer "bob@x.org") (begin small) ≡ refused)
    × (is_authorized count 3 1 company_members_role_update small ≡ true
        ⊎ Service.update_user_role lengths ann 1 3 "Auditor" (begin small) ≡ refused)
    × (is_authorized count 3 1 company_members_remove small ≡ true
        ⊎ Service.remove_user_from_company lengths ann 1 100 3 (begin small) ≡ refused)
members_need_permission_example =
    members_need_permission lengths ann 1 small (as_viewer "bob@x.org") 100 3 "Auditor" refl
