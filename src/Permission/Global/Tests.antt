-- ===== src/Permission/Global/Tests.antt =====
-- app/repository/permission.py: `GlobalPermissionRepository` on the small database.
use Prim.Native.String.{count}
use userverse.Base.{String, ◌≡◌, refl, true, none, some, [], ◌∷◌, map}
use userverse.Messages.{already_exists, system_permission_protected}
use userverse.Database.{Session, GlobalPermission, begin, err, one_or_none}
use userverse.Database.Samples.{ann, small}
use userverse.SystemPermissions.{value, is_system_permission_id}
use userverse.Authorization.Laws.{SameAccess}
use userverse.Permission.{
  PermissionCreateModel, PermissionUpdateModel, Externals, global_permission_model, failure,
}
use userverse.Permission.Global.{
  get_record, ensure_record, is_new, new_row, add_row, create_permission, is_free, apply_update,
  set_row, renames, remove_row, remove_links, update_permission, delete_permission,
}
use userverse.Permission.Global.Access.{delete_permission-SameAccess, update_permission-SameAccess}
use userverse.Permission.Global.Unique.{IsUnique, management-IsUnique}

abbrev lengths : Externals
lengths = record { uuid5 = count; key_le = λ p q. true }

managing : Unit {0}
unfolding get_record ensure_record is_new new_row add_row create_permission is_free apply_update
    set_row renames remove_row remove_links update_permission delete_permission one_or_none
    is_system_permission_id value global_permission_model
managing = tt

abbrev named : String → PermissionUpdateModel
named name = record { name = some name; description = none }

system_permission_stays :
    (delete_permission lengths 12 (begin small)).0 ≡ err (failure 409 system_permission_protected)
unfolding managing
system_permission_stays = refl

other_permission_goes :
    map
      (λ (p : GlobalPermission). p.id)
      (delete_permission lengths 50 (begin small)).1.saved.global_permissions
    ≡ 12 ∷ []
unfolding managing
other_permission_goes = refl

taken_name_is_refused :
    (update_permission lengths 50 (named "company.read") (begin small)).0
    ≡ err (failure 409 already_exists)
unfolding managing
taken_name_is_refused = refl

small-IsUnique : IsUnique small
small-IsUnique = (refl, (refl, tt))

delete_permission-SameAccess_example :
    let s = (delete_permission lengths 50 (begin small)).1 in
    SameAccess count small s.saved × SameAccess count small s.live
delete_permission-SameAccess_example = delete_permission-SameAccess lengths 50 small

update_permission-SameAccess_example :
    let s = (update_permission lengths 12 (named "company.read") (begin small)).1 in
    SameAccess count small s.saved × SameAccess count small s.live
update_permission-SameAccess_example =
    update_permission-SameAccess lengths 12 (named "company.read") small small-IsUnique

abbrev export : PermissionCreateModel
export = record { name = "export"; description = none }

management-IsUnique_example :
    let unique = λ (s : Session). IsUnique s.saved × IsUnique s.live in
    unique (create_permission 51 export ann (begin small)).1
    × unique (update_permission lengths 50 (named "export") (begin small)).1
    × unique (delete_permission lengths 50 (begin small)).1
management-IsUnique_example =
    management-IsUnique lengths 51 50 export (named "export") ann small small-IsUnique
