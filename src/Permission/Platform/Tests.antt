-- ===== src/Permission/Platform/Tests.antt =====
-- app/repository/permission.py: `PlatformRoleRepository`, Ann as a viewer of the platform.
use Prim.Native.String.{count}
use userverse.Base.{ℕ, ◌≡◌, ◌≢◌, ◌↔◌, refl, Bool, true, any, [], ◌∷◌, none}
use userverse.Messages.{platform_role, assignment_not_found}
use userverse.Bootstrap.{is_active}
use userverse.Base.{ℕ, lookup}
use userverse.Database.{Role, Db, begin, app_error, ok, err, one_or_none, at_most_one}
use userverse.Database.Samples.{small}
use userverse.Permission.{PermissionScope, PermissionReadModel, Externals, global_permission_model}
use userverse.Permission.Effective.{global_link, global_models, global_permissions_by_role_ids}
use userverse.Permission.Platform.{
  ensure_active_user, is_user_role, unlink_user, is_role_of, put_permission, put_all, put_roles,
  roles_of, platform_role_read, get_roles, remove_role, get_effective_permissions,
}
use userverse.Permission.Platform.Grants.{has_id, PlatformGrant}
use userverse.Permission.Platform.Access.{get_effective_permissions_iff}
use userverse.Permission.Platform.Removal.{PlatformGrant-remove_role}

abbrev lengths : Externals
lengths = record { uuid5 = count; key_le = λ p q. true }

abbrev any_order : Role → Role → Bool
any_order r q = true

-- Ann has the role Viewer on the platform.
abbrev with_viewer : Db
with_viewer = record small {
  user_roles = record { user_id = 3; role_id = 7; closed_at = none } ∷ [];
}

reading : Unit {0}
unfolding one_or_none at_most_one is_active lookup ensure_active_user is_user_role unlink_user
    is_role_of put_permission put_all put_roles roles_of platform_role_read get_roles remove_role
    get_effective_permissions global_permission_model global_link global_models
    global_permissions_by_role_ids
reading = tt

abbrev read_model : PermissionReadModel
read_model = record {
  id = 12;
  name = "company.read";
  description = none;
  scope = PermissionScope.global;
  company_id = none;
}

viewer_reads_companies :
    (get_effective_permissions lengths any_order 3 (begin with_viewer)).0 ≡ ok (read_model ∷ [])
unfolding reading
viewer_reads_companies = refl

nothing_is_left : (remove_role lengths any_order 3 7 (begin with_viewer)).0 ≡ ok []
unfolding reading
nothing_is_left = refl

no_role_is_removed_twice :
    (remove_role lengths any_order 3 7 (begin small)).0
    ≡ err (app_error 404 (platform_role assignment_not_found))
unfolding reading
no_role_is_removed_twice = refl

get_effective_permissions_iff_example :
    (any (has_id 12) (read_model ∷ []) ≡ true) ↔ PlatformGrant 3 12 with_viewer
get_effective_permissions_iff_example =
    get_effective_permissions_iff lengths any_order 3 12 (begin with_viewer) (read_model ∷ [])
      viewer_reads_companies

PlatformGrant-remove_role_example :
    let s = (remove_role lengths any_order 3 7 (begin with_viewer)).1 in
    let still = (g : PlatformGrant 3 12 with_viewer) × (◌≡◌ {A = ℕ} 3 3 → g.role.id ≢ 7) in
    (PlatformGrant 3 12 s.live ↔ still) × (PlatformGrant 3 12 s.saved ↔ still)
PlatformGrant-remove_role_example =
    PlatformGrant-remove_role lengths any_order 3 7 with_viewer 3 12 [] nothing_is_left
