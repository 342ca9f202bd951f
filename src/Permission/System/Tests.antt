-- ===== src/Permission/System/Tests.antt =====
-- app/repository/permission.py: `SystemPermissionRepository` on the small database.
use userverse.Base.{
  ℕ, String, ◌≡◌, refl, List, [], ◌∷◌, Dict, Memᴰ, length, map, if◌then◌else◌, ◌==◌, string_Eq,
}
use userverse.Messages.{system_permission_conflict}
use userverse.Database.{GlobalPermission, Db, begin, ok, err}
use userverse.Database.Samples.{small}
use userverse.SystemPermissions.{
  SystemPermissionDefinition, value, permission_id, system_permission_definitions,
}
use userverse.Permission.{failure}
use userverse.Permission.Global.{is_new, add_row}
use userverse.Permission.System.{
  is_candidate, resolve_definition, system_row, ensure_permission, ensure_all, ensure_permissions,
}
use userverse.Permission.System.Seeding.{IsDefined, IsMore, ensure_permissions_complete}

abbrev position : List String → String → ℕ
position [] name = 0
position (n ∷ names) name =
    let later = position names name in if n == name then length names else later

-- Identifiers that differ, as `uuid5` gives them.
abbrev places : String → ℕ
places = position (map (λ d. value d.permission) system_permission_definitions)

seeding : Unit {0}
unfolding is_new add_row is_candidate resolve_definition system_row ensure_permission ensure_all
    ensure_permissions system_permission_definitions value permission_id
seeding = tt

abbrev empty : Db
empty = record small { global_permissions = [] }

abbrev all_rows : Dict ℕ GlobalPermission
all_rows =
    map (λ d. (permission_id places d.permission, system_row places d))
      system_permission_definitions

all_are_added : (ensure_permissions places (begin empty)).0 ≡ ok all_rows
unfolding seeding
all_are_added = refl

other_identifier_is_refused :
    (ensure_permissions places (begin small)).0 ≡ err (failure 409 system_permission_conflict)
unfolding seeding
other_identifier_is_refused = refl

ensure_permissions_complete_example :
    ((d : SystemPermissionDefinition)
      → Memᴰ d system_permission_definitions
      → IsDefined places d (ensure_permissions places (begin empty)).1)
    × IsMore places (begin empty) (ensure_permissions places (begin empty)).1
ensure_permissions_complete_example =
    ensure_permissions_complete places (begin empty) all_rows all_are_added
