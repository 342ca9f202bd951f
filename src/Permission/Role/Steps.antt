-- ===== src/Permission/Role/Steps.antt =====
-- app/repository/permission.py: how `assign_global_permission` and `remove_global_permission` end.
use userverse.Base.{
  ℕ, ◌≡◌, ◌⊎◌, inl, inr, true, not, ◌&&◌, none, Memᴰ, arith, all, any_complete, ◌==◌, nat_Eq,
  is_none,
}
use userverse.Database.{
  Role, GlobalPermission, Db, Session, begin, Error, ok, err, or_raise-cases, one_or_none-cases,
  app_error,
}
use userverse.Messages.{literal, already_assigned, assignment_not_found}
use userverse.Permission.{Externals, failure}
use userverse.Permission.Effective.{global_role_read}
use userverse.Permission.Global.{ensure_record}
use userverse.Permission.Global.Steps.{IsFound, ensure_record-cases}
use userverse.Permission.Role.{
  ensure_role, ensure_company_role, get_company_role_permissions, links_global, may_link_global,
  link_global, unlink_global, assign_global_permission, remove_global_permission,
}

-- A row that `_ensure_role` may return.
pub record IsOpenRole (id : ℕ) (db : Db) (r : Role) : Type 0 where
  pub listed : Memᴰ r db.roles
  pub same_id : r.id ≡ id
  pub is_open : r.closed_at ≡ none

ensure_role-cases :
    (id : ℕ) (s : Session)
    → ((e : Error) × (ensure_role id s ≡ (err e, s)))
      ⊎ ((r : Role) × (ensure_role id s ≡ (ok r, s)) × IsOpenRole id s.live r)
unfolding ensure_role
ensure_role-cases id s =
    elim (or_raise-cases (λ db. db.roles) (λ r. (r.id == id) && is_none r.closed_at)
      (app_error 404 (literal "No role found with the given identifier.")) s) [
        | inl (e, raised) ↦ inl (e, raised)
        | inr (r, returned, listed, passes) ↦ inr (
          r,
          returned,
          record { listed = listed; same_id = ground arith; is_open = ground arith },
        )
      ]

-- Reading the permissions of a company's role leaves the session as it was.
pub get_company_role_permissions-same :
    (ext : Externals) (company_id role_id : ℕ) (s : Session)
    → (get_company_role_permissions ext company_id role_id s).1 ≡ s
unfolding get_company_role_permissions ensure_company_role
get_company_role_permissions-same ext company_id role_id s = ground arith

module _ (role_id permission_id : ℕ) (db : Db) where
  -- The rows that an assignment or a removal needs.
  pub record IsReady (r : Role) (p : GlobalPermission) : Type 0 where
    pub role_returned : ensure_role role_id (begin db) ≡ (ok r, begin db)
    pub role_found : IsOpenRole role_id db r
    pub permission_returned : ensure_record permission_id (begin db) ≡ (ok p, begin db)
    pub permission_found : IsFound permission_id db p

  abbrev pub Unlinked : Type 0
  Unlinked = all (λ l. not (links_global role_id permission_id l)) db.role_global_permissions ≡ true

  may_link :
      (r : Role) (p : GlobalPermission)
      → IsReady r p
      → Unlinked
      → may_link_global role_id permission_id db ≡ true
  unfolding may_link_global
  may_link r p ready unlinked =
      let role_listed =
        any_complete (λ (x : Role). x.id == role_id) ready.role_found.listed
          (rw ready.role_found.same_id (ground arith)) in
      let permission_listed =
        any_complete (λ (x : GlobalPermission). x.id == permission_id) ready.permission_found.listed
          (rw ready.permission_found.same_id (ground arith)) in
      ground arith

module _ (ext : Externals) (role_id permission_id : ℕ) (db : Db) where
  -- An assignment raises and leaves the database as it was, or there was no link, open or closed,
  -- and it adds one and commits that. The foreign keys never stand in its way.
  pub assign_global_permission-cases :
      ((e : Error) × (assign_global_permission ext role_id permission_id (begin db)
          ≡ (err e, begin db)))
      ⊎ ((r : Role) × (p : GlobalPermission) × IsReady role_id permission_id db r p
          × Unlinked role_id permission_id db
          × (assign_global_permission ext role_id permission_id (begin db) ≡ (
            ok (global_role_read ext r (link_global role_id permission_id db)),
            begin (link_global role_id permission_id db),
          )))
  unfolding assign_global_permission
  assign_global_permission-cases = elim (ensure_role-cases role_id (begin db)) [
    | inl (e, raised) ↦ inl (e, ground (arith, raised))
    | inr (r, returned, open_role) ↦ elim (ensure_record-cases permission_id (begin db)) [
      | inl (e, raised) ↦ inl (e, ground (arith, raised, returned))
      | inr (p, found, open_permission) ↦
          let ready : IsReady role_id permission_id db r p = record {
            role_returned = returned;
            role_found = open_role;
            permission_returned = found;
            permission_found = open_permission;
          } in
          elim (one_or_none-cases (links_global role_id permission_id) db.role_global_permissions) [
            | inl (e, failed) ↦
                inl (e, ground (arith, returned, found, open_permission.same_id, failed))
            | inr (inl (absent, unlinked)) ↦
                let may = may_link role_id permission_id db r p ready unlinked in
                inr (
                  r,
                  p,
                  ready,
                  unlinked,
                  ground (arith, returned, found, open_permission.same_id, absent, may),
                )
            | inr (inr (l, present, listed, linked)) ↦ inl (
              failure 409 already_assigned,
              ground (arith, returned, found, open_permission.same_id, present),
            )
          ]
    ]
  ]

  -- A removal raises and leaves the database as it was, or it removes every link between the two,
  -- of which there was one, and commits that.
  pub remove_global_permission-cases :
      ((e : Error) × (remove_global_permission ext role_id permission_id (begin db)
          ≡ (err e, begin db)))
      ⊎ ((r : Role) × (p : GlobalPermission) × IsReady role_id permission_id db r p
          × (remove_global_permission ext role_id permission_id (begin db) ≡ (
            ok (global_role_read ext r (unlink_global role_id permission_id db)),
            begin (unlink_global role_id permission_id db),
          )))
  unfolding remove_global_permission
  remove_global_permission-cases = elim (ensure_role-cases role_id (begin db)) [
    | inl (e, raised) ↦ inl (e, ground (arith, raised))
    | inr (r, returned, open_role) ↦ elim (ensure_record-cases permission_id (begin db)) [
      | inl (e, raised) ↦ inl (e, ground (arith, raised, returned))
      | inr (p, found, open_permission) ↦
          let ready : IsReady role_id permission_id db r p = record {
            role_returned = returned;
            role_found = open_role;
            permission_returned = found;
            permission_found = open_permission;
          } in
          elim (one_or_none-cases (links_global role_id permission_id) db.role_global_permissions) [
            | inl (e, failed) ↦ inl (e, ground (arith, returned, found, failed))
            | inr (inl (absent, unlinked)) ↦
                inl (failure 404 assignment_not_found, ground (arith, returned, found, absent))
            | inr (inr (l, present, listed, linked)) ↦
                inr (r, p, ready, ground (arith, returned, found, present))
          ]
    ]
  ]
