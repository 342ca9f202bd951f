-- ===== src/DefaultRoles/Placement.antt =====
-- app/repository/company.py: the roles of members under `_ensure_default_roles`.
use userverse.Base.{
  ℕ, String, ◌≡◌, refl, true, ◌&&◌, Option, none, some, List, [], ◌∷◌, filter, any, Dict, lookup,
  is_none, ◌==◌, nat_Eq, string_Eq, option_Eq, if◌then◌else◌, inl, inr, Bool-cases,
}
use userverse.Database.{
  Role, GlobalPermission, Db, key_error, pure, ◌>>=◌, ◌>>◌, commit, write_if, or_raise, lift,
  one_or_none, Keeps, Keeps-bind, Keeps-write_if, Keeps-or_raise,
}
use userverse.SystemPermissions.{
  SystemPermissionDefinition, permission_id, system_permission_definitions,
}
use userverse.Permission.Global.{add_row}
use userverse.Permission.Role.{may_link_global}
use userverse.Permission.System.{ensure_permissions}
use userverse.Permission.System.Keeping.{Keeps-ensure_permissions}
use userverse.Roles.Assignment.Placement.{IsPlaced, IsPlaced-same}
use userverse.Roles.Repository.{add_role, is_new_role}
use userverse.Roles.Repository.Rows.{
  IsPlaced-set_role_row, MembersHaveRoles-add_role, HasUniqueRoleIds-add_role,
}
use userverse.DefaultRoles.{
  DefaultRole, company_default_roles, default_row, describe, ensure_found, ensure_default_role,
  ensure_each, seed_link, seed_names, seed_definitions, seed_new_default_roles,
  ensure_default_roles,
}

module _ (uuid5 new_id : String → ℕ) where
  IsPlaced-add_role :
      (d : DefaultRole) (db : Db)
      → is_new_role (new_id d.name_value) d.name_value db ≡ true
      → IsPlaced db
      → IsPlaced (add_role (default_row (new_id d.name_value) d) db)
  unfolding default_row
  IsPlaced-add_role d db fresh h = record {
    unique_ids =
        HasUniqueRoleIds-add_role (default_row (new_id d.name_value) d) db fresh h.unique_ids;
    members_have_roles =
        MembersHaveRoles-add_role (default_row (new_id d.name_value) d) db h.members_have_roles;
  }

  describe_keeps :
      (d : DefaultRole) (r : Role)
      → ((describe d r).id ≡ r.id) × ((describe d r).closed_at ≡ r.closed_at)
  unfolding describe
  describe_keeps d r = (refl, refl)

  found_kept :
      (d : DefaultRole) (found : Option Role) → Keeps IsPlaced (ensure_found uuid5 new_id d found)
  unfolding ensure_found
  found_kept d none s h =
      Keeps-bind IsPlaced
        (write_if (is_new_role (new_id d.name_value) d.name_value)
          (add_role (default_row (new_id d.name_value) d)))
        (λ _. pure (default_row (new_id d.name_value) d, true))
        (Keeps-write_if IsPlaced (is_new_role (new_id d.name_value) d.name_value)
          (add_role (default_row (new_id d.name_value) d)) (IsPlaced-add_role d))
        (λ _ t k. k) s h
  found_kept d (some r) s h = elim (Bool-cases (r.description == some d.description)) [
    | inl same ↦ rw (same, ensure_found) h
    | inr other ↦
        rw (other, ensure_found)
          (h.0, IsPlaced-set_role_row r.id (describe d) (describe_keeps d) s.live h.1)
  ]

  default_role_kept : (d : DefaultRole) → Keeps IsPlaced (ensure_default_role uuid5 new_id d)
  unfolding ensure_default_role
  default_role_kept d s h =
      Keeps-bind IsPlaced
        (lift (
          one_or_none (λ (r : Role). (r.name == d.name_value) && is_none r.closed_at) s.live.roles))
        (ensure_found uuid5 new_id d) (λ t k. k) (found_kept d) s h

  each_kept : (ds : List DefaultRole) → Keeps IsPlaced (ensure_each uuid5 new_id ds)
  unfolding ensure_each
  each_kept [] s h = h
  each_kept (d ∷ ds) s h =
      Keeps-bind IsPlaced (ensure_default_role uuid5 new_id d)
        (λ made. ensure_each uuid5 new_id ds >>= λ rest.
          pure
            ((d.name_value, made.0) ∷ rest.0, (if made.1 then d.name_value ∷ rest.1 else rest.1)))
        (default_role_kept d)
        (λ made.
          Keeps-bind IsPlaced (ensure_each uuid5 new_id ds)
            (λ rest.
              pure (
                (d.name_value, made.0) ∷ rest.0,
                (if made.1 then d.name_value ∷ rest.1 else rest.1),
              ))
            (each_kept ds) (λ rest t k. k))
        s h

  IsPlaced-seed_link :
      (role_id permission_id : ℕ) (name : String) (db : Db)
      → IsPlaced db
      → IsPlaced (seed_link uuid5 new_id role_id permission_id name db)
  unfolding seed_link
  IsPlaced-seed_link role_id permission_id name db =
      IsPlaced-same db (seed_link uuid5 new_id role_id permission_id name db) refl refl refl

  module _ (roles : Dict String Role) (permissions : Dict ℕ GlobalPermission) where
    names_kept :
        (d : SystemPermissionDefinition) (names : List String)
        → Keeps IsPlaced (seed_names uuid5 new_id roles permissions d names)
    unfolding seed_names
    names_kept d [] s h = h
    names_kept d (name ∷ names) s h =
        let later = seed_names uuid5 new_id roles permissions d names in
        let link = λ (role : Role) (permission : GlobalPermission).
          write_if (may_link_global role.id permission.id)
            (seed_link uuid5 new_id role.id permission.id name) in
        Keeps-bind IsPlaced (or_raise key_error (lookup name roles))
          (λ role.
            or_raise key_error (lookup (permission_id uuid5 d.permission) permissions)
            >>= λ permission. (link role permission >> later))
          (Keeps-or_raise IsPlaced key_error (lookup name roles))
          (λ role.
            Keeps-bind IsPlaced
              (or_raise key_error (lookup (permission_id uuid5 d.permission) permissions))
              (λ permission. link role permission >> later)
              (Keeps-or_raise IsPlaced key_error
                (lookup (permission_id uuid5 d.permission) permissions))
              (λ permission.
                Keeps-bind IsPlaced (link role permission) (λ _. later)
                  (Keeps-write_if IsPlaced (may_link_global role.id permission.id)
                    (seed_link uuid5 new_id role.id permission.id name)
                    (λ db may k. IsPlaced-seed_link role.id permission.id name db k))
                  (λ _. names_kept d names)))
          s h

    definitions_kept :
        (created : List String) (ds : List SystemPermissionDefinition)
        → Keeps IsPlaced (seed_definitions uuid5 new_id roles permissions created ds)
    unfolding seed_definitions
    definitions_kept created [] s h = h
    definitions_kept created (d ∷ ds) s h =
        let names = filter (λ name. any (λ c. c == name) created) d.default_roles in
        Keeps-bind IsPlaced (seed_names uuid5 new_id roles permissions d names)
          (λ _. seed_definitions uuid5 new_id roles permissions created ds) (names_kept d names)
          (λ _. definitions_kept created ds) s h

  IsPlaced-add_row : (g : GlobalPermission) (db : Db) → IsPlaced db → IsPlaced (add_row g db)
  unfolding add_row
  IsPlaced-add_row g db = IsPlaced-same db (add_row g db) refl refl refl

  seeding_kept :
      (roles : Dict String Role) (created : List String)
      → Keeps IsPlaced (seed_new_default_roles uuid5 new_id roles created)
  unfolding seed_new_default_roles
  seeding_kept roles [] s h = h
  seeding_kept roles (name ∷ names) s h =
      Keeps-bind IsPlaced (ensure_permissions uuid5)
        (λ permissions.
          seed_definitions uuid5 new_id roles permissions (name ∷ names)
            system_permission_definitions)
        (Keeps-ensure_permissions IsPlaced IsPlaced-add_row uuid5)
        (λ permissions.
          definitions_kept roles permissions (name ∷ names) system_permission_definitions)
        s h

  -- The roles of members stay enabled, whether the call returns or raises.
  pub Keeps-ensure_default_roles : Keeps IsPlaced (ensure_default_roles uuid5 new_id)
  unfolding ensure_default_roles
  Keeps-ensure_default_roles s h =
      Keeps-bind IsPlaced (ensure_each uuid5 new_id company_default_roles)
        (λ made. seed_new_default_roles uuid5 new_id made.0 made.1 >> (commit >> pure made.0))
        (each_kept company_default_roles)
        (λ made.
          Keeps-bind IsPlaced (seed_new_default_roles uuid5 new_id made.0 made.1)
            (λ _. commit >> pure made.0) (seeding_kept made.0 made.1) (λ _ t k. (k.1, k.1)))
        s h
