-- ===== src/Permission/System.antt =====
-- app/repository/permission.py: `SystemPermissionRepository`.
mod Tests
pub mod Seeding
pub mod Keeping
use userverse.Base.{
  ℕ, String, Bool, true, false, ◌&&◌, ◌||◌, not, Option, none, some, List, [], ◌∷◌, ◌++◌, any, all,
  filter, Dict, lookup, put, ◌==◌, nat_Eq, string_Eq, if◌then◌else◌,
}
use userverse.Messages.{system_permission_conflict}
use userverse.Database.{
  flag, text, Role, GlobalPermission, RoleGlobalPermission, Db, no_result, Action, Result, ok, err,
  pure, raise, gets, lift, ◌>>=◌, ◌>>◌, modify, write_if, or_raise,
}
use userverse.SystemPermissions.{
  SystemPermissionDefinition, value, permission_id, system_permission_definitions,
}
use userverse.Permission.{failure}
use userverse.Permission.Global.{is_new, add_row}

module _ (uuid5 : String → ℕ) where
  -- `GlobalPermission.id == definition.id` or `GlobalPermission.name == definition.name`
  pub is_candidate : SystemPermissionDefinition → GlobalPermission → Bool
  is_candidate d g = (g.id == permission_id uuid5 d.permission) || (g.name == value d.permission)

  -- `_resolve_definition`
  pub resolve_definition :
      SystemPermissionDefinition → List GlobalPermission → Result (Option GlobalPermission)
  resolve_definition d [] = ok none
  resolve_definition d (g ∷ []) =
      if (g.id == permission_id uuid5 d.permission) && (g.name == value d.permission)
      then ok (some g)
      else err (failure 409 system_permission_conflict)
  resolve_definition d (g ∷ h ∷ rest) = err (failure 409 system_permission_conflict)

  pub system_row : SystemPermissionDefinition → GlobalPermission
  system_row d = record {
    id = permission_id uuid5 d.permission;
    name = value d.permission;
    description = some d.description;
    closed_at = none;
    primary_meta_data = ("system", flag true) ∷ ("kind", text "default_api_permission") ∷ [];
  }

  -- The body of the loop of `ensure_permissions`
  pub ensure_permission : SystemPermissionDefinition → Action GlobalPermission
  unfolding is_candidate resolve_definition
  ensure_permission d = do
    records ← gets (λ db. filter (is_candidate d) db.global_permissions)
    resolved ← lift (resolve_definition d records)
    elim resolved [
      | some g ↦ pure g
      | none ↦ (do
        write_if (is_new (permission_id uuid5 d.permission) (value d.permission))
            (add_row (system_row d))
        pure (system_row d))
    ]

  pub ensure_all : List SystemPermissionDefinition → Action (Dict ℕ GlobalPermission)
  ensure_all [] = pure []
  ensure_all (d ∷ ds) =
      let later = ensure_all ds in
      (do
        g ← ensure_permission d
        rest ← later
        pure ((permission_id uuid5 d.permission, g) ∷ rest))

  pub ensure_permissions : Action (Dict ℕ GlobalPermission)
  unfolding ensure_all
  ensure_permissions = ensure_all system_permission_definitions
