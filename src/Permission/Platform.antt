-- ===== src/Permission/Platform.antt =====
-- app/repository/permission.py: `PlatformRoleRepository`, the roles that users have apart from any
-- company. `role_le` is the order of names, then identifiers.
pub mod Grants
pub mod Access
pub mod Removal
mod Tests
use userverse.Base.{
  ℕ, String, Bool, true, false, ◌&&◌, not, none, List, [], ◌∷◌, ◌++◌, any, all, filter, map, join,
  sort_by, ◌==◌, nat_Eq, is_none, is_some, if◌then◌else◌,
}
use userverse.Messages.{Message, platform_role, already_assigned, assignment_not_found, literal}
use userverse.Database.{
  User, Role, UserRole, Db, Error, app_error, Action, pure, gets, select_one, ◌>>=◌, ◌>>◌, modify,
  commit, raise_if, write_if, or_raise,
}
use userverse.Bootstrap.{is_active}
use userverse.Permission.{
  PermissionScope, global, company, PermissionReadModel, RoleReadModel, Externals,
}
use userverse.Permission.Effective.{global_permissions_by_role_ids}
use userverse.Permission.Role.{ensure_role}

abbrev not_active : Error
not_active = app_error 404 (literal "No active user found with the given identifier.")

-- `_ensure_active_user`
pub ensure_active_user : ℕ → Action User
ensure_active_user user_id = do
  found ← select_one (λ db. db.users) (λ u. (u.id == user_id) && is_none u.closed_at)
  user ← or_raise not_active found
  raise_if (not (is_active user.primary_meta_data)) not_active
  pure user

-- `filter_by(user_id=…, role_id=…)`; closed links count.
pub is_user_role : ℕ → ℕ → UserRole → Bool
is_user_role user_id role_id l = (l.user_id == user_id) && (l.role_id == role_id)

-- The primary key and the two foreign keys.
may_link_user : ℕ → ℕ → Db → Bool
unfolding is_user_role
may_link_user user_id role_id db =
    all (λ l. not (is_user_role user_id role_id l)) db.user_roles
    && any (λ u. u.id == user_id) db.users
    && any (λ r. r.id == role_id) db.roles

link_user : ℕ → ℕ → Db → Db
link_user user_id role_id db = record db {
  user_roles =
      db.user_roles ++ record { user_id = user_id; role_id = role_id; closed_at = none } ∷ [];
}

pub unlink_user : ℕ → ℕ → Db → Db
unfolding is_user_role
unlink_user user_id role_id db = record db {
  user_roles = filter (λ l. not (is_user_role user_id role_id l)) db.user_roles;
}

-- The query of `get_roles` joins an open role with an open link of the user.
pub is_role_of : ℕ → Role → UserRole → Bool
is_role_of user_id r l =
    (l.role_id == r.id) && (l.user_id == user_id) && is_none l.closed_at && is_none r.closed_at

same_scope : PermissionScope → PermissionScope → Bool
same_scope global global = true
same_scope company company = true
same_scope global company = false
same_scope company global = false

-- `permissions[(permission.scope, permission.id)] = permission`
pub put_permission : PermissionReadModel → List PermissionReadModel → List PermissionReadModel
unfolding same_scope
put_permission p [] = p ∷ []
put_permission p (q ∷ qs) =
    let rest = put_permission p qs in
    if same_scope q.scope p.scope && (q.id == p.id) then p ∷ qs else q ∷ rest

pub put_all : List PermissionReadModel → List PermissionReadModel → List PermissionReadModel
unfolding put_permission
put_all [] permissions = permissions
put_all (p ∷ ps) permissions = put_all ps (put_permission p permissions)

pub put_roles : List RoleReadModel → List PermissionReadModel → List PermissionReadModel
unfolding put_all
put_roles [] permissions = permissions
put_roles (role ∷ roles) permissions = put_roles roles (put_all role.permissions permissions)

module _ (ext : Externals) (role_le : Role → Role → Bool) where
  pub roles_of : ℕ → Db → List Role
  unfolding is_role_of
  roles_of user_id db =
      sort_by role_le (map (λ row. row.0) (join (is_role_of user_id) db.roles db.user_roles))

  pub platform_role_read : List ℕ → Db → Role → RoleReadModel
  platform_role_read role_ids db role = record {
    id = role.id;
    name = role.name;
    description = role.description;
    permissions = global_permissions_by_role_ids ext role_ids db role.id;
  }

  pub get_roles : ℕ → Action (List RoleReadModel)
  unfolding ensure_active_user roles_of platform_role_read
  get_roles user_id = do
    _ ← ensure_active_user user_id
    roles ← gets (roles_of user_id)
    gets (λ db. map (platform_role_read (map (λ r. r.id) roles) db) roles)

  pub assign_role : ℕ → ℕ → Action (List RoleReadModel)
  unfolding ensure_active_user is_user_role may_link_user get_roles
  assign_role user_id role_id = do
    _ ← ensure_active_user user_id
    _ ← ensure_role role_id
    existing ← select_one (λ db. db.user_roles) (is_user_role user_id role_id)
    raise_if (is_some existing) (app_error 409 (platform_role already_assigned))
    write_if (may_link_user user_id role_id) (link_user user_id role_id)
    commit
    get_roles user_id

  pub remove_role : ℕ → ℕ → Action (List RoleReadModel)
  unfolding ensure_active_user is_user_role get_roles
  remove_role user_id role_id = do
    _ ← ensure_active_user user_id
    link ← select_one (λ db. db.user_roles) (is_user_role user_id role_id)
    _ ← or_raise (app_error 404 (platform_role assignment_not_found)) link
    modify (unlink_user user_id role_id)
    commit
    get_roles user_id

  pub get_effective_permissions : ℕ → Action (List PermissionReadModel)
  unfolding get_roles put_roles
  get_effective_permissions user_id = do
    roles ← get_roles user_id
    pure (sort_by ext.key_le (put_roles roles []))
