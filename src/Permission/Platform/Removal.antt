-- ===== src/Permission/Platform/Removal.antt =====
-- app/repository/permission.py: what a user loses with a platform role.
use userverse.Base.{
  refl, false, ℕ, ◌≡◌, ◌≢◌, sym, ◌↔◌, ◌∙◌, List, inl, inr, Bool, not, Memᴰ, mem-filter,
  mem-filter_inv, arith, filter, ==_iff, nat_Eq, Bool-cases,
}
use userverse.Database.{Role, UserRole, Db, begin, ok}
use userverse.Permission.{RoleReadModel, Externals}
use userverse.Permission.Platform.{
  ensure_active_user, is_user_role, unlink_user, get_roles, remove_role,
}
use userverse.Permission.Platform.Grants.{PlatformGrant}

-- The same rows, with the links of users in another list.
regrant :
    (user_id permission_id : ℕ) (db : Db) (user_roles : List UserRole)
    (g : PlatformGrant user_id permission_id db)
    → Memᴰ g.user_role user_roles
    → PlatformGrant user_id permission_id (record db { user_roles = user_roles })
regrant user_id permission_id db user_roles g listed = record {
  role = g.role;
  user_role = g.user_role;
  link = g.link;
  granted = g.granted;
  role_listed = g.role_listed;
  user_role_listed = listed;
  link_listed = g.link_listed;
  granted_listed = g.granted_listed;
  of_user = g.of_user;
  of_role = g.of_role;
  link_of_role = g.link_of_role;
  link_to = g.link_to;
  its_id = g.its_id;
  user_role_open = g.user_role_open;
  role_open = g.role_open;
  link_open = g.link_open;
  granted_open = g.granted_open;
}

module _ (ext : Externals) (role_le : Role → Role → Bool) (user_id role_id : ℕ) (db : Db) where
  -- The keys of the link that a removal deletes are those of its arguments.
  returned_removal :
      (roles : List RoleReadModel)
      → (remove_role ext role_le user_id role_id (begin db)).0 ≡ ok roles
      → (remove_role ext role_le user_id role_id (begin db)).1
        ≡ begin (unlink_user user_id role_id db)
  unfolding remove_role get_roles ensure_active_user
  returned_removal roles returned = ground (arith, returned)

  PlatformGrant-kept :
      {u permission_id : ℕ} (g : PlatformGrant u permission_id db)
      → (u ≡ user_id → g.role.id ≢ role_id)
      → PlatformGrant u permission_id (unlink_user user_id role_id db)
  unfolding unlink_user is_user_role
  PlatformGrant-kept {u} {permission_id} g other =
      let test = λ (l : UserRole). not (is_user_role user_id role_id l) in
      let stays : is_user_role user_id role_id g.user_role ≡ false =
        elim (Bool-cases (is_user_role user_id role_id g.user_role)) [
          | inr apart ↦ apart
          | inl its ↦ absurd (
              other (sym g.of_user ∙ (==_iff g.user_role.user_id user_id).0 (ground arith))
                (sym g.of_role ∙ (==_iff g.user_role.role_id role_id).0 (ground arith)))
        ] in
      regrant u permission_id db (filter test db.user_roles) g
        (mem-filter test g.user_role_listed (rw stays refl))

  PlatformGrant-kept_inv :
      {u permission_id : ℕ}
      → PlatformGrant u permission_id (unlink_user user_id role_id db)
      → (g : PlatformGrant u permission_id db) × (u ≡ user_id → g.role.id ≢ role_id)
  unfolding unlink_user is_user_role regrant
  PlatformGrant-kept_inv {u} {permission_id} g =
      let (listed, stays) =
        mem-filter_inv (λ l. not (is_user_role user_id role_id l)) db.user_roles
          g.user_role_listed in
      (
        regrant u permission_id (unlink_user user_id role_id db) db.user_roles g listed,
        λ same_user same_role.
            let its_user = (==_iff g.user_role.user_id user_id).1 (g.of_user ∙ same_user) in
            let its_role = (==_iff g.user_role.role_id role_id).1 (g.of_role ∙ same_role) in
            ground (arith, stays, its_user, its_role),
      )

  -- After the removal of a platform role returned, open rows grant a user exactly the permissions
  -- that they granted before, for the user of the removal only by another role, as committed and as
  -- the session sees them.
  pub PlatformGrant-remove_role :
      (u permission_id : ℕ) (roles : List RoleReadModel)
      → (remove_role ext role_le user_id role_id (begin db)).0 ≡ ok roles
      → let s = (remove_role ext role_le user_id role_id (begin db)).1 in
        let still = (g : PlatformGrant u permission_id db) × (u ≡ user_id → g.role.id ≢ role_id) in
        (PlatformGrant u permission_id s.live ↔ still)
        × (PlatformGrant u permission_id s.saved ↔ still)
  PlatformGrant-remove_role u permission_id roles returned =
      let same = returned_removal roles returned in
      let kept : PlatformGrant u permission_id (unlink_user user_id role_id db)
          ↔ ((g : PlatformGrant u permission_id db) × (u ≡ user_id → g.role.id ≢ role_id)) =
        (λ g. PlatformGrant-kept_inv g, λ g. PlatformGrant-kept g.0 g.1) in
      rw same (kept, kept)
