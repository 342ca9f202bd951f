-- ===== src/Permission/Service/Calls.antt =====
-- app/services/permission.py: sequences of requests, each one call of `PermissionService` on a session
-- of its own.
use userverse.Base.{ℕ, String, Bool, List, [], ◌∷◌}
use userverse.Database.{
  UserReadModel, Role, GlobalPermission, CompanyPermission, Db, Session, begin,
}
use userverse.Permission.{
  PermissionQueryParamsModel, PermissionCreateModel, PermissionUpdateModel, Externals,
}
use userverse.Permission.Service.{
  create_global_permission, get_global_permissions, update_global_permission,
  delete_global_permission, create_company_permission, get_company_permissions,
  update_company_permission, delete_company_permission, get_global_role_permissions,
  assign_global_permission, remove_global_permission, get_company_role_permissions,
  assign_company_permission, remove_company_permission, get_platform_roles, assign_platform_role,
  remove_platform_role, get_my_platform_permissions,
}

-- The methods of the service, with their arguments and those of the model.
pub data Call : Type 0 where
  create_global : (id : ℕ) (payload : PermissionCreateModel) → Call
  list_global :
      (ilike : String → String → Bool) (row_le : GlobalPermission → GlobalPermission → Bool)
      (payload : PermissionQueryParamsModel)
      → Call
  update_global : (permission_id : ℕ) (payload : PermissionUpdateModel) → Call
  delete_global : (permission_id : ℕ) → Call
  create_company : (company_id id : ℕ) (payload : PermissionCreateModel) → Call
  list_company :
      (ilike : String → String → Bool) (row_le : CompanyPermission → CompanyPermission → Bool)
      (company_id : ℕ) (payload : PermissionQueryParamsModel)
      → Call
  update_company : (company_id permission_id : ℕ) (payload : PermissionUpdateModel) → Call
  delete_company : (company_id permission_id : ℕ) → Call
  read_global_role : (role_id : ℕ) → Call
  assign_global : (role_id permission_id : ℕ) → Call
  remove_global : (role_id permission_id : ℕ) → Call
  read_company_role : (company_id role_id : ℕ) → Call
  assign_company : (company_id role_id permission_id : ℕ) → Call
  remove_company : (company_id role_id permission_id : ℕ) → Call
  read_platform : (role_le : Role → Role → Bool) (user_id : ℕ) → Call
  assign_platform : (role_le : Role → Role → Bool) (user_id role_id : ℕ) → Call
  remove_platform : (role_le : Role → Role → Bool) (user_id role_id : ℕ) → Call
  read_mine : (role_le : Role → Role → Bool) → Call

-- The session that a call leaves, whether it returns or raises.
unfoldable pub session_after : Externals → UserReadModel → Call → Session → Session
session_after ext u (create_global id payload) s = (create_global_permission ext u id payload s).1
session_after ext u (list_global ilike row_le payload) s =
    (get_global_permissions ext u ilike row_le payload s).1
session_after ext u (update_global id payload) s = (update_global_permission ext u id payload s).1
session_after ext u (delete_global id) s = (delete_global_permission ext u id s).1
session_after ext u (create_company c id payload) s =
    (create_company_permission ext u c id payload s).1
session_after ext u (list_company ilike row_le c payload) s =
    (get_company_permissions ext u ilike row_le c payload s).1
session_after ext u (update_company c id payload) s =
    (update_company_permission ext u c id payload s).1
session_after ext u (delete_company c id) s = (delete_company_permission ext u c id s).1
session_after ext u (read_global_role r) s = (get_global_role_permissions ext u r s).1
session_after ext u (assign_global r p) s = (assign_global_permission ext u r p s).1
session_after ext u (remove_global r p) s = (remove_global_permission ext u r p s).1
session_after ext u (read_company_role c r) s = (get_company_role_permissions ext u c r s).1
session_after ext u (assign_company c r p) s = (assign_company_permission ext u c r p s).1
session_after ext u (remove_company c r p) s = (remove_company_permission ext u c r p s).1
session_after ext u (read_platform role_le id) s = (get_platform_roles ext u role_le id s).1
session_after ext u (assign_platform role_le id r) s = (assign_platform_role ext u role_le id r s).1
session_after ext u (remove_platform role_le id r) s = (remove_platform_role ext u role_le id r s).1
session_after ext u (read_mine role_le) s = (get_my_platform_permissions ext u role_le s).1

-- What is committed after requests of users.
unfoldable pub committed_after : Externals → List (UserReadModel × Call) → Db → Db
unfolding session_after
committed_after ext [] db = db
committed_after ext ((u, c) ∷ calls) db =
    committed_after ext calls (session_after ext u c (begin db)).saved
