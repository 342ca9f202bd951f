-- ===== src/Permission/System/Keeping.antt =====
-- app/repository/permission.py: what `ensure_permissions` keeps.
use userverse.Base.{ℕ, String, List, [], ◌∷◌, Option, none, some, filter}
use userverse.Database.{
  GlobalPermission, Db, Action, pure, lift, ◌>>=◌, ◌>>◌, write_if, Keeps, Keeps-bind,
  Keeps-write_if,
}
use userverse.SystemPermissions.{
  SystemPermissionDefinition, value, permission_id, system_permission_definitions,
}
use userverse.Permission.Global.{is_new, add_row}
use userverse.Permission.System.{
  is_candidate, resolve_definition, system_row, ensure_permission, ensure_all, ensure_permissions,
}

module _ {κ} (P : Db → Type κ) (adds : (g : GlobalPermission) (db : Db) → P db → P (add_row g db))
    (uuid5 : String → ℕ) where
  abbrev found_or_added :
      SystemPermissionDefinition → Option GlobalPermission → Action GlobalPermission
  found_or_added d resolved = elim resolved [
    | some g ↦ pure g
    | none ↦
        (write_if (is_new (permission_id uuid5 d.permission) (value d.permission))
            (add_row (system_row uuid5 d))
          >> pure (system_row uuid5 d))
  ]

  kept_by_one :
      (d : SystemPermissionDefinition) (resolved : Option GlobalPermission)
      → Keeps P (found_or_added d resolved)
  kept_by_one d (some g) s h = h
  kept_by_one d none s h =
      Keeps-bind P
        (write_if (is_new (permission_id uuid5 d.permission) (value d.permission))
          (add_row (system_row uuid5 d)))
        (λ _. pure (system_row uuid5 d))
        (Keeps-write_if P (is_new (permission_id uuid5 d.permission) (value d.permission))
          (add_row (system_row uuid5 d)) (λ db fresh k. adds (system_row uuid5 d) db k))
        (λ _ t k. k) s h

  ensured : (d : SystemPermissionDefinition) → Keeps P (ensure_permission uuid5 d)
  unfolding ensure_permission
  ensured d s h =
      Keeps-bind P
        (lift
          (resolve_definition uuid5 d (filter (is_candidate uuid5 d) s.live.global_permissions)))
        (found_or_added d) (λ t k. k) (kept_by_one d) s h

  all_ensured : (ds : List SystemPermissionDefinition) → Keeps P (ensure_all uuid5 ds)
  unfolding ensure_all
  all_ensured [] s h = h
  all_ensured (d ∷ ds) s h =
      Keeps-bind P (ensure_permission uuid5 d)
        (λ g. ensure_all uuid5 ds >>= λ rest. pure ((permission_id uuid5 d.permission, g) ∷ rest))
        (ensured d)
        (λ g.
          Keeps-bind P (ensure_all uuid5 ds)
            (λ rest. pure ((permission_id uuid5 d.permission, g) ∷ rest)) (all_ensured ds)
            (λ rest t k. k))
        s h

  -- What each new row keeps, the call keeps, whether it returns or raises.
  pub Keeps-ensure_permissions : Keeps P (ensure_permissions uuid5)
  unfolding ensure_permissions
  Keeps-ensure_permissions = all_ensured system_permission_definitions
