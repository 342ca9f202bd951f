-- ===== src/Permission/Platform/Grants.antt =====
-- app/repository/permission.py: rows that give a user a permission by a platform role, and the
-- permissions that a role has.
use userverse.Base.{
  ℕ, ◌≡◌, refl, ◌∙◌, Bool, true, ◌&&◌, ◌||◌, none, List, [], ◌∷◌, join, Memᴰ, arith, any, any_sound,
  any_complete, any-map, any-join, ◌==◌, ==_iff, nat_Eq,
}
use userverse.Database.{Role, UserRole, RoleGlobalPermission, GlobalPermission, Db}
use userverse.Permission.{PermissionReadModel, RoleReadModel, global_permission_model}
use userverse.Permission.Effective.{global_link, global_models}
use userverse.Permission.Platform.{is_role_of, put_permission, put_all, put_roles}

-- Open rows that give a user a permission: a link to a role and a link of the role.
pub record PlatformGrant (user_id permission_id : ℕ) (db : Db) : Type 0 where
  pub role : Role
  pub user_role : UserRole
  pub link : RoleGlobalPermission
  pub granted : GlobalPermission
  pub role_listed : Memᴰ role db.roles
  pub user_role_listed : Memᴰ user_role db.user_roles
  pub link_listed : Memᴰ link db.role_global_permissions
  pub granted_listed : Memᴰ granted db.global_permissions
  pub of_user : user_role.user_id ≡ user_id
  pub of_role : user_role.role_id ≡ role.id
  pub link_of_role : link.role_id ≡ role.id
  pub link_to : granted.id ≡ link.global_permission_id
  pub its_id : granted.id ≡ permission_id
  pub user_role_open : user_role.closed_at ≡ none
  pub role_open : role.closed_at ≡ none
  pub link_open : link.closed_at ≡ none
  pub granted_open : granted.closed_at ≡ none

module _ (permission_id : ℕ) where
  abbrev pub has_id : PermissionReadModel → Bool
  has_id p = p.id == permission_id

  any-put_permission :
      (p : PermissionReadModel) (ps : List PermissionReadModel)
      → any has_id (put_permission p ps) ≡ (has_id p || any has_id ps)
  unfolding put_permission
  any-put_permission p [] = refl
  any-put_permission p (q ∷ qs) = ground (arith, any-put_permission p qs, ==_iff q.id p.id)

  any-put_all :
      (ps permissions : List PermissionReadModel)
      → any has_id (put_all ps permissions) ≡ (any has_id ps || any has_id permissions)
  unfolding put_all
  any-put_all [] permissions = refl
  any-put_all (p ∷ ps) permissions =
      ground
        (arith, any-put_all ps (put_permission p permissions), any-put_permission p permissions)

  pub any-put_roles :
      (roles : List RoleReadModel) (permissions : List PermissionReadModel)
      → any has_id (put_roles roles permissions)
        ≡ (any (λ (r : RoleReadModel). any has_id r.permissions) roles || any has_id permissions)
  unfolding put_roles
  any-put_roles [] permissions = refl
  any-put_roles (r ∷ roles) permissions = ground (
    arith,
    any-put_roles roles (put_all r.permissions permissions),
    any-put_all r.permissions permissions,
  )

  -- The role gives the permission.
  abbrev pub gives : Db → Role → Bool
  gives db r =
      any
        (λ l.
          any (λ p. ((l.role_id == r.id) && global_link l p) && (p.id == permission_id))
            db.global_permissions)
        db.role_global_permissions

  pub any-global_models : (db : Db) (r : Role) → any has_id (global_models db r.id) ≡ gives db r
  unfolding global_models global_permission_model
  any-global_models db r =
      any-map has_id
        (λ (row : RoleGlobalPermission × GlobalPermission). global_permission_model row.1)
        (join (λ l p. (l.role_id == r.id) && global_link l p) db.role_global_permissions
          db.global_permissions)
      ∙ any-join (λ l p. (l.role_id == r.id) && global_link l p) (λ row. row.1.id == permission_id)
          db.role_global_permissions db.global_permissions

  pub gives_inv :
      (db : Db) (r : Role)
      → gives db r ≡ true
      → (l : RoleGlobalPermission) × (p : GlobalPermission) × Memᴰ l db.role_global_permissions
        × Memᴰ p db.global_permissions
        × ((((l.role_id == r.id) && global_link l p) && (p.id == permission_id)) ≡ true)
  gives_inv db r h =
      let (l, l_listed, some_p) =
        any_sound
          (λ l.
            any (λ p. ((l.role_id == r.id) && global_link l p) && (p.id == permission_id))
              db.global_permissions)
          db.role_global_permissions h in
      let (p, p_listed, fits) =
        any_sound (λ p. ((l.role_id == r.id) && global_link l p) && (p.id == permission_id))
          db.global_permissions some_p in
      (l, p, l_listed, p_listed, fits)

  pub gives_complete :
      (db : Db) (r : Role) {l : RoleGlobalPermission} {p : GlobalPermission}
      → Memᴰ l db.role_global_permissions
      → Memᴰ p db.global_permissions
      → (((l.role_id == r.id) && global_link l p) && (p.id == permission_id)) ≡ true
      → gives db r ≡ true
  gives_complete db r {l} {p} l_listed p_listed fits =
      any_complete
        (λ l.
          any (λ p. ((l.role_id == r.id) && global_link l p) && (p.id == permission_id))
            db.global_permissions)
        l_listed
        (any_complete (λ p. ((l.role_id == r.id) && global_link l p) && (p.id == permission_id))
          p_listed fits)

abbrev links_to : ℕ → Role → RoleGlobalPermission → GlobalPermission → Bool
links_to permission_id r l p = ((l.role_id == r.id) && global_link l p) && (p.id == permission_id)

-- Rows that fit together are a grant.
pub PlatformGrant-of :
    (user_id permission_id : ℕ) (db : Db) {r : Role} {k : UserRole} {l : RoleGlobalPermission}
    {p : GlobalPermission}
    → Memᴰ r db.roles
    → Memᴰ k db.user_roles
    → Memᴰ l db.role_global_permissions
    → Memᴰ p db.global_permissions
    → is_role_of user_id r k ≡ true
    → links_to permission_id r l p ≡ true
    → PlatformGrant user_id permission_id db
unfolding is_role_of global_link
PlatformGrant-of user_id permission_id db {r} {k} {l} {p} r_listed k_listed l_listed p_listed fits
      linked =
    record {
      role = r;
      user_role = k;
      link = l;
      granted = p;
      role_listed = r_listed;
      user_role_listed = k_listed;
      link_listed = l_listed;
      granted_listed = p_listed;
      of_user = ground arith;
      of_role = ground arith;
      link_of_role = ground arith;
      link_to = ground arith;
      its_id = ground arith;
      user_role_open = ground arith;
      role_open = ground arith;
      link_open = ground arith;
      granted_open = ground arith;
    }

pub fits_together :
    {user_id permission_id : ℕ} {db : Db} (g : PlatformGrant user_id permission_id db)
    → (is_role_of user_id g.role g.user_role ≡ true)
      × (links_to permission_id g.role g.link g.granted ≡ true)
unfolding is_role_of global_link
fits_together g = (
  ground (arith, g.of_user, g.of_role, g.user_role_open, g.role_open),
  ground (arith, g.link_of_role, g.link_to, g.its_id, g.link_open, g.granted_open),
)
