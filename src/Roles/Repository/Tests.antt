-- ===== src/Roles/Repository/Tests.antt =====
-- app/repository/company_role.py: `RoleRepository` on a company with two roles.
use Prim.Native.String.{count}
use userverse.Base.{◌≡◌, refl, true, none, [], ◌∷◌, map, is_none, false}
use userverse.Messages.{company_role, role_deletion_failed, role_already_exists}
use userverse.Database.{Role, begin, app_error, err, one_or_none}
use userverse.Database.Samples.{root}
use userverse.Permission.{Externals}
use userverse.Roles.Samples.{two_roles}
use userverse.Roles.Assignment.{set_role_row}
use userverse.Roles.Repository.{
  new_role, add_role, is_new_role, note_role, close_role, has_members, has_platform_users,
  remove_links_of_role, get_role_record, create_role, delete_role,
}

abbrev lengths : Externals
lengths = record { uuid5 = count; key_le = λ p q. true }

managing : Unit {0}
unfolding new_role add_role is_new_role note_role close_role has_members has_platform_users
    remove_links_of_role get_role_record create_role delete_role one_or_none set_role_row
managing = tt

role_in_use_stays :
    (delete_role 100 7 root (begin two_roles)).0
    ≡ err (app_error 400 (company_role role_deletion_failed))
unfolding managing
role_in_use_stays = refl

unused_role_closes :
    map (λ (r : Role). is_none r.closed_at) (delete_role 100 8 root (begin two_roles)).1.saved.roles
    ≡ true ∷ false ∷ []
unfolding managing
unused_role_closes = refl

taken_name_is_refused :
    (create_role lengths 9
      (record { name = "Viewer"; description = none })
      root
      (begin two_roles)).0
    ≡ err (app_error 409 (company_role role_already_exists))
unfolding managing
taken_name_is_refused = refl
