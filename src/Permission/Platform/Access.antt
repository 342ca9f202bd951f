-- ===== src/Permission/Platform/Access.antt =====
-- app/repository/permission.py: which permissions a user has by platform roles.
use userverse.Base.{
  ℕ, ◌≡◌, refl, sym, ◌∙◌, ◌↔◌, Bool, true, ◌&&◌, List, [], map, join, Memᴰ, arith, any, any_sound,
  any_complete, any-sort_by, any-map, any-join, any-same, sort_by, ◌==◌, ==_refl, nat_Eq,
}
use userverse.Database.{Role, UserRole, Db, Session, ok}
use userverse.Permission.{PermissionReadModel, RoleReadModel, Externals}
use userverse.Permission.Effective.{global_models, global_permissions_by_role_ids}
use userverse.Permission.Platform.{
  ensure_active_user, is_role_of, put_roles, roles_of, platform_role_read, get_roles,
  get_effective_permissions,
}
use userverse.Permission.Platform.Grants.{
  PlatformGrant, has_id, any-put_roles, gives, any-global_models, gives_inv, gives_complete,
  PlatformGrant-of, fits_together,
}

module _ (ext : Externals) (role_le : Role → Role → Bool) (user_id : ℕ) where
  any-roles_of :
      (q : Role → Bool) (db : Db)
      → any q (roles_of ext role_le user_id db)
        ≡ any (λ r. any (λ l. is_role_of user_id r l && q r) db.user_roles) db.roles
  unfolding roles_of
  any-roles_of q db =
      any-sort_by q role_le (map (λ row. row.0) (join (is_role_of user_id) db.roles db.user_roles))
      ∙ any-map q (λ (row : Role × UserRole). row.0)
          (join (is_role_of user_id) db.roles db.user_roles)
      ∙ any-join (is_role_of user_id) (λ row. q row.0) db.roles db.user_roles

  -- The identifiers of the roles whose permissions are read.
  abbrev ids : Db → List ℕ
  ids db = map (λ r. r.id) (roles_of ext role_le user_id db)

  module _ (permission_id : ℕ) where
    -- A role that the user has gives the permission.
    abbrev has_role_that_gives : Db → Bool
    has_role_that_gives db =
        any (λ r. any (λ l. is_role_of user_id r l && gives permission_id db r) db.user_roles)
          db.roles

    any-global_permissions_by_role_ids :
        (role_ids : List ℕ) (db : Db) (r : Role)
        → any (has_id permission_id) (global_permissions_by_role_ids ext role_ids db r.id)
          ≡ (any (λ i. i == r.id) role_ids && gives permission_id db r)
    unfolding global_permissions_by_role_ids
    any-global_permissions_by_role_ids role_ids db r = ground (
      arith,
      any-sort_by (has_id permission_id) ext.key_le (global_models db r.id),
      any-global_models permission_id db r,
    )

    returned_permissions :
        (s : Session) (ps : List PermissionReadModel)
        → (get_effective_permissions ext role_le user_id s).0 ≡ ok ps
        → ps
          ≡ sort_by ext.key_le (
              put_roles
                (map
                  (platform_role_read ext role_le (ids s.live) s.live)
                  (roles_of ext role_le user_id s.live))
                [])
    unfolding get_effective_permissions get_roles ensure_active_user
    returned_permissions s ps returned = ground (arith, returned)

    -- The effective permissions, as a search of the roles.
    any-effective :
        (s : Session) (ps : List PermissionReadModel)
        → (get_effective_permissions ext role_le user_id s).0 ≡ ok ps
        → any (has_id permission_id) ps
          ≡ any
              (λ r. any (λ i. i == r.id) (ids s.live) && gives permission_id s.live r)
              (roles_of ext role_le user_id s.live)
    unfolding platform_role_read
    any-effective s ps returned =
        let roles = roles_of ext role_le user_id s.live in
        let models = map (platform_role_read ext role_le (ids s.live) s.live) roles in
        let listed = any-put_roles permission_id models [] in
        let same : any (has_id permission_id) (put_roles models [])
            ≡ any (λ (m : RoleReadModel). any (has_id permission_id) m.permissions) models =
          ground (arith, listed) in
        rw (returned_permissions s ps returned) (
          any-sort_by (has_id permission_id) ext.key_le (put_roles models [])
          ∙ same
          ∙ any-map (λ (m : RoleReadModel). any (has_id permission_id) m.permissions)
              (platform_role_read ext role_le (ids s.live) s.live) roles
          ∙ any-same roles (any-global_permissions_by_role_ids (ids s.live) s.live))

    is_read :
        (db : Db) {r : Role} {l : UserRole}
        → Memᴰ r db.roles
        → Memᴰ l db.user_roles
        → is_role_of user_id r l ≡ true
        → any (λ i. i == r.id) (ids db) ≡ true
    is_read db {r} {l} r_listed l_listed fits =
        any-map (λ i. i == r.id) (λ (x : Role). x.id) (roles_of ext role_le user_id db)
        ∙ any-roles_of (λ x. x.id == r.id) db
        ∙ any_complete
            (λ (x : Role). any (λ k. is_role_of user_id x k && (x.id == r.id)) db.user_roles)
            r_listed
            (any_complete (λ k. is_role_of user_id r k && (r.id == r.id)) l_listed
              (rw fits (==_refl r.id)))

    -- If the effective permissions of a platform user are read, they have one with an identifier
    -- exactly if open rows grant it: a link of the user to a role and a link of this role to the
    -- permission.
    pub get_effective_permissions_iff :
        (s : Session) (ps : List PermissionReadModel)
        → (get_effective_permissions ext role_le user_id s).0 ≡ ok ps
        → (any (has_id permission_id) ps ≡ true) ↔ PlatformGrant user_id permission_id s.live
    get_effective_permissions_iff s ps returned =
        let db = s.live in
        let q = λ (r : Role). any (λ i. i == r.id) (ids db) && gives permission_id db r in
        let searched = any-effective s ps returned ∙ any-roles_of q db in
        (
          λ has.
              let (r, r_listed, some_l) =
                any_sound (λ (r : Role). any (λ l. is_role_of user_id r l && q r) db.user_roles)
                  db.roles (sym searched ∙ has) in
              let (k, k_listed, fits) =
                any_sound (λ l. is_role_of user_id r l && q r) db.user_roles some_l in
              let (l, p, l_listed, p_listed, linked) =
                gives_inv permission_id db r (ground (arith, fits)) in
              PlatformGrant-of user_id permission_id db r_listed k_listed l_listed p_listed
                (ground (arith, fits)) linked,
          λ g.
              let (fits, linked) = fits_together g in
              let read = is_read db g.role_listed g.user_role_listed fits in
              let given =
                gives_complete permission_id db g.role g.link_listed g.granted_listed linked in
              searched
              ∙ any_complete (λ (r : Role). any (λ l. is_role_of user_id r l && q r) db.user_roles)
                  g.role_listed
                  (any_complete (λ l. is_role_of user_id g.role l && q g.role) g.user_role_listed
                    (rw (fits, read, given) refl)),
        )

-- Reading leaves the session as it was.
pub get_effective_permissions-same :
    (ext : Externals) (role_le : Role → Role → Bool) (user_id : ℕ) (s : Session)
    → (get_effective_permissions ext role_le user_id s).1 ≡ s
unfolding get_effective_permissions get_roles ensure_active_user
get_effective_permissions-same ext role_le user_id s = ground arith
