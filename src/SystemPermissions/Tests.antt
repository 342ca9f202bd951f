-- ===== src/SystemPermissions/Tests.antt =====
-- app/models/system_permissions.py at one permission.
use Prim.Native.String.{count}
use userverse.Base.{◌≡◌, refl, true}
use userverse.SystemPermissions.{is_system_permission_id, value}

-- A stand-in for `uuid5`: the number of characters.
known_length : is_system_permission_id count 12 ≡ true
unfolding is_system_permission_id value
known_length = refl
