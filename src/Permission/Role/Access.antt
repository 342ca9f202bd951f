-- ===== src/Permission/Role/Access.antt =====
-- app/repository/permission.py: whom `assign_global_permission` and `remove_global_permission` let
-- do what.
use userverse.Base.{
  ℕ, String, ◌≡◌, refl, ◌↔◌, ◌⊎◌, inl, inr, true, false, not, none, some, [], ◌∷◌, Memᴰ, arith,
  mem-append_left, mem-append_right, mem-append_cases, mem-one, mem-filter, mem-filter_inv,
  filter-append_one, filter-append_one_inv, ==_refl, nat_Eq, subst,
}
use userverse.Database.{RoleGlobalPermission, Db, begin, ok, one_or_none}
use userverse.SystemPermissions.{SystemPermission}
use userverse.Authorization.{is_authorized}
use userverse.Authorization.Laws.{Grant, is_authorized_iff}
use userverse.Authorization.Grants.{GrantBy, GrantBy-of_Grant, Grant-by, GrantBy-same}
use userverse.Permission.{RoleReadModel, Externals}
use userverse.Permission.Effective.{global_role_read}
use userverse.Permission.Global.{ensure_record}
use userverse.Permission.Global.Steps.{ensure_record-same_rows}
use userverse.Permission.Role.Steps.{
  Unlinked, assign_global_permission-cases, remove_global_permission-cases,
}
use userverse.Permission.Role.{
  ensure_role, links_global, link_global, unlink_global, assign_global_permission,
  remove_global_permission,
}

-- The link that an assignment adds.
abbrev pub new_link : ℕ → ℕ → RoleGlobalPermission
new_link role_id permission_id = record {
  role_id = role_id;
  global_permission_id = permission_id;
  closed_at = none;
  primary_meta_data = [];
}

module _ (role_id permission_id : ℕ) (db : Db) where
  linked_one :
      Unlinked role_id permission_id db
      → one_or_none
          (links_global role_id permission_id)
          (link_global role_id permission_id db).role_global_permissions
        ≡ ok (some (new_link role_id permission_id))
  unfolding link_global one_or_none links_global
  linked_one unlinked =
      rw
        (filter-append_one (links_global role_id permission_id) db.role_global_permissions
          (new_link role_id permission_id) unlinked
          (ground (arith, ==_refl role_id, ==_refl permission_id)))
        refl

  unlink-link :
      Unlinked role_id permission_id db
      → unlink_global role_id permission_id (link_global role_id permission_id db) ≡ db
  unfolding unlink_global link_global links_global
  unlink-link unlinked =
      rw
        (filter-append_one_inv (links_global role_id permission_id) db.role_global_permissions
          (new_link role_id permission_id) unlinked
          (ground (arith, ==_refl role_id, ==_refl permission_id)))
        refl

  ensure_role-link_global :
      ensure_role role_id (begin (link_global role_id permission_id db))
      ≡ ((ensure_role role_id (begin db)).0, begin (link_global role_id permission_id db))
  unfolding ensure_role link_global
  ensure_role-link_global = ground arith

  ensure_record-link_global :
      ensure_record permission_id (begin (link_global role_id permission_id db))
      ≡ ((ensure_record permission_id (begin db)).0, begin (link_global role_id permission_id db))
  unfolding link_global
  ensure_record-link_global =
      ensure_record-same_rows permission_id db (link_global role_id permission_id db) refl

module _ (uuid5 : String → ℕ) (role_id permission_id : ℕ) (db : Db) (user_id company_id : ℕ)
    (permission : SystemPermission) where
  abbrev linked : Db
  linked = link_global role_id permission_id db

  abbrev unlinked_db : Db
  unlinked_db = unlink_global role_id permission_id db

  abbrev GrantNow : Db → Type 0
  GrantNow = Grant uuid5 user_id company_id permission

  abbrev By : RoleGlobalPermission → Db → Type 0
  By = GrantBy uuid5 user_id company_id permission

  Grant-link_global : GrantNow linked → GrantNow db ⊎ By (new_link role_id permission_id) db
  unfolding link_global
  Grant-link_global w =
      let by =
        GrantBy-same uuid5 user_id company_id permission linked db w.link
          (refl, refl, refl, refl, refl)
          (GrantBy-of_Grant uuid5 user_id company_id permission linked w) in
      elim (mem-append_cases db.role_global_permissions w.link_listed) [
        | inl old ↦ inl (Grant-by uuid5 user_id company_id permission db w.link old by)
        | inr new ↦ inr (subst (λ l. By l db) (mem-one new) by)
      ]

  Grant-link_global_inv : GrantNow db ⊎ By (new_link role_id permission_id) db → GrantNow linked
  unfolding link_global
  Grant-link_global_inv (inl w) =
      Grant-by uuid5 user_id company_id permission linked w.link
        (mem-append_left (new_link role_id permission_id ∷ []) w.link_listed)
        (GrantBy-same uuid5 user_id company_id permission db linked w.link
          (refl, refl, refl, refl, refl)
          (GrantBy-of_Grant uuid5 user_id company_id permission db w))
  Grant-link_global_inv (inr by) =
      Grant-by uuid5 user_id company_id permission linked (new_link role_id permission_id)
        (mem-append_right db.role_global_permissions (Memᴰ.head refl))
        (GrantBy-same uuid5 user_id company_id permission db linked (new_link role_id permission_id)
          (refl, refl, refl, refl, refl) by)

  -- A grant by a link that is not between the role and the permission.
  abbrev pub GrantByOther : Type 0
  GrantByOther =
      (l : RoleGlobalPermission) × Memᴰ l db.role_global_permissions
      × (links_global role_id permission_id l ≡ false)
      × By l db

  Grant-unlink_global : GrantNow unlinked_db → GrantByOther
  unfolding unlink_global
  Grant-unlink_global w =
      let (listed, other) =
        mem-filter_inv (λ l. not (links_global role_id permission_id l)) db.role_global_permissions
          w.link_listed in
      (
        w.link,
        listed,
        ground arith,
        GrantBy-same uuid5 user_id company_id permission unlinked_db db w.link
            (refl, refl, refl, refl, refl)
            (GrantBy-of_Grant uuid5 user_id company_id permission unlinked_db w),
      )

  Grant-unlink_global_inv : GrantByOther → GrantNow unlinked_db
  unfolding unlink_global
  Grant-unlink_global_inv (l, listed, other, by) =
      Grant-by uuid5 user_id company_id permission unlinked_db l
        (mem-filter (λ x. not (links_global role_id permission_id x)) listed (ground arith))
        (GrantBy-same uuid5 user_id company_id permission db unlinked_db l
          (refl, refl, refl, refl, refl) by)

module _ (ext : Externals) (role_id permission_id : ℕ) (db : Db) where
  -- An assignment that returned can be taken back: the removal returns, and what is committed and
  -- what the session sees is the database before the assignment.
  pub remove_global_permission-assign_global_permission :
      (r : RoleReadModel)
      → (assign_global_permission ext role_id permission_id (begin db)).0 ≡ ok r
      → (r' : RoleReadModel) × (remove_global_permission ext role_id permission_id
            (assign_global_permission ext role_id permission_id (begin db)).1
          ≡ (ok r', begin db))
  unfolding remove_global_permission
  remove_global_permission-assign_global_permission r e =
      elim (assign_global_permission-cases ext role_id permission_id db) [
        | inl (e', raised) ↦ absurd (ground (arith, raised))
        | inr (role, p, ready, unlinked, assigned) ↦
            let linked = linked_one role_id permission_id db unlinked in
            let same_role = ensure_role-link_global role_id permission_id db in
            let same_permission = ensure_record-link_global role_id permission_id db in
            let back = unlink-link role_id permission_id db unlinked in
            (
              global_role_read ext role db,
              ground (
                arith, assigned, linked, same_role, same_permission, ready.role_returned,
                ready.permission_returned, back,
              ),
            )
      ]

  module _ (user_id company_id : ℕ) (permission : SystemPermission) where
    -- After an assignment that returned, a user has a permission in a company exactly if they had it
    -- before or rows of the database grant it by the new link.
    pub is_authorized-assign_global_permission :
        (r : RoleReadModel)
        → (assign_global_permission ext role_id permission_id (begin db)).0 ≡ ok r
        → (is_authorized ext.uuid5 user_id company_id permission
              (assign_global_permission ext role_id permission_id (begin db)).1.saved
            ≡ true)
          ↔ ((is_authorized ext.uuid5 user_id company_id permission db ≡ true)
              ⊎ GrantBy ext.uuid5 user_id company_id permission (new_link role_id permission_id) db)
    is_authorized-assign_global_permission r e =
        elim (assign_global_permission-cases ext role_id permission_id db) [
          | inl (e', raised) ↦ absurd (ground (arith, raised))
          | inr (role, p, ready, unlinked, assigned) ↦
              let after =
                is_authorized_iff ext.uuid5 user_id company_id permission
                  (link_global role_id permission_id db) in
              let before = is_authorized_iff ext.uuid5 user_id company_id permission db in
              rw assigned (
                λ h.
                    elim (Grant-link_global ext.uuid5 role_id permission_id db user_id company_id
                      permission (after.0 h)) [ inl w ↦ inl (before.1 w) | inr by ↦ inr by ],
                λ h. after.1 (
                    Grant-link_global_inv ext.uuid5 role_id permission_id db user_id company_id
                      permission (elim h [ inl k ↦ inl (before.0 k) | inr by ↦ inr by ])),
              )
        ]

    -- After a removal that returned, a user has a permission in a company exactly if rows of the
    -- database granted it by a link other than the ones between this role and this permission.
    pub is_authorized-remove_global_permission :
        (r : RoleReadModel)
        → (remove_global_permission ext role_id permission_id (begin db)).0 ≡ ok r
        → (is_authorized ext.uuid5 user_id company_id permission
              (remove_global_permission ext role_id permission_id (begin db)).1.saved
            ≡ true)
          ↔ GrantByOther ext.uuid5 role_id permission_id db user_id company_id permission
    is_authorized-remove_global_permission r e =
        elim (remove_global_permission-cases ext role_id permission_id db) [
          | inl (e', raised) ↦ absurd (ground (arith, raised))
          | inr (role, p, ready, removed) ↦
              let after =
                is_authorized_iff ext.uuid5 user_id company_id permission
                  (unlink_global role_id permission_id db) in
              rw removed (
                λ h.
                    Grant-unlink_global ext.uuid5 role_id permission_id db user_id company_id
                      permission (after.0 h),
                λ h. after.1 (
                    Grant-unlink_global_inv ext.uuid5 role_id permission_id db user_id company_id
                      permission h),
              )
        ]
