-- ===== src/Roles/Repository/Deletion.antt =====
-- app/repository/company_role.py: `RoleRepository.delete_role` and the roles of members.
use userverse.Base.{
  ℕ, ◌≡◌, refl, ap, ◌∙◌, ◌⊎◌, inl, inr, false, ◌&&◌, arith, any_complete, mem-update_where, is_none,
  if◌then◌else◌, Bool-cases, ◌==◌, nat_Eq,
}
use userverse.Database.{UserReadModel, Role, AssociationUserCompany, Db, begin, one_or_none-cases}
use userverse.Roles.Assignment.{set_role_row}
use userverse.Roles.Assignment.Steps.{IsEnabled}
use userverse.Roles.Assignment.Placement.{MembersHaveRoles, HasUniqueRoleIds}
use userverse.Roles.Repository.Rows.{HasUniqueRoleIds-set_role_row}
use userverse.Roles.Repository.{
  note_role, close_role, has_members, has_platform_users, remove_links_of_role, get_role_record,
  delete_role,
}

module _ (now role_id : ℕ) (by : UserReadModel) (db : Db) where
  -- What a deletion commits.
  abbrev deleted : Db
  deleted =
      set_role_row role_id (note_role "deleted_by" by)
        (set_role_row role_id (close_role now) (remove_links_of_role role_id db))

  -- A deletion raises and leaves the database as it was, or the role has no open membership, and it
  -- closes the role, removes its links and commits that.
  delete_role-cases :
      ((delete_role now role_id by (begin db)).1 ≡ begin db)
      ⊎ ((has_members role_id db ≡ false)
          × ((delete_role now role_id by (begin db)).1 ≡ begin deleted))
  unfolding delete_role get_role_record
  delete_role-cases =
      elim (one_or_none-cases (λ (r : Role). (r.id == role_id) && is_none r.closed_at) db.roles) [
        | inl (e, failed) ↦ inl (ground (arith, failed))
        | inr (inl (absent, none_passes)) ↦ inl (ground (arith, absent))
        | inr (inr (r, present, listed, passes)) ↦
            let same_id : r.id ≡ role_id = ground arith in
            elim (Bool-cases (has_members role_id db)) [
              | inl members ↦ inl (ground (arith, present, members))
              | inr no_members ↦ elim (Bool-cases (has_platform_users role_id db)) [
                | inl users ↦ inl (ground (arith, present, no_members, users))
                | inr no_users ↦
                    inr (no_members, ground (arith, present, no_members, no_users, same_id))
              ]
            ]
      ]

  abbrev changed : Role → Role
  changed r =
      let closed = if r.id == role_id then close_role now r else r in
      if closed.id == role_id then note_role "deleted_by" by closed else closed

  -- Another role stays enabled.
  IsEnabled-deleted : (c r : ℕ) → (r == role_id) ≡ false → IsEnabled c r db → IsEnabled c r deleted
  unfolding set_role_row remove_links_of_role
  IsEnabled-deleted c r apart e =
      let once = mem-update_where (λ (x : Role). x.id == role_id) (close_role now) e.role_listed in
      let twice =
        mem-update_where (λ (x : Role). x.id == role_id) (note_role "deleted_by" by) once in
      let other : (e.role.id == role_id) ≡ false = rw (e.same_role) apart in
      let same : changed e.role ≡ e.role = ground (arith, other) in
      record {
        enabled = e.enabled;
        role = changed e.role;
        enabled_listed = e.enabled_listed;
        role_listed = twice;
        enabled_company = e.enabled_company;
        enabled_role = e.enabled_role;
        enabled_open = e.enabled_open;
        same_role = ap (λ (x : Role). x.id) same ∙ e.same_role;
        role_open = ap (λ (x : Role). x.closed_at) same ∙ e.role_open;
      }

-- If every open membership has a role that is open and enabled for its company, then every one has
-- after a role is deleted, whether the call returns or raises, as committed and as the session sees
-- it.
pub delete_role-MembersHaveRoles :
    (now role_id : ℕ) (by : UserReadModel) (db : Db)
    → MembersHaveRoles db
    → let s = (delete_role now role_id by (begin db)).1 in
      MembersHaveRoles s.saved × MembersHaveRoles s.live
unfolding has_members set_role_row remove_links_of_role
delete_role-MembersHaveRoles now role_id by db h = elim (delete_role-cases now role_id by db) [
  | inl same ↦ rw same (h, h)
  | inr (no_members, same) ↦
      let kept : MembersHaveRoles (deleted now role_id by db) = λ a m o.
        let other : (a.role_id == role_id) ≡ false = elim (Bool-cases (a.role_id == role_id)) [
          | inr not_its ↦ not_its
          | inl its ↦ absurd (
              let found =
                any_complete
                  (λ (x : AssociationUserCompany). (x.role_id == role_id) && is_none x.closed_at) m
                  (ground arith) in
              ground arith)
        ] in
        IsEnabled-deleted now role_id by db a.company_id a.role_id other (h a m o) in
      rw same (kept, kept)
]

pub delete_role-HasUniqueRoleIds :
    (now role_id : ℕ) (by : UserReadModel) (db : Db)
    → HasUniqueRoleIds db
    → HasUniqueRoleIds (delete_role now role_id by (begin db)).1.saved
unfolding note_role close_role remove_links_of_role
delete_role-HasUniqueRoleIds now role_id by db h = elim (delete_role-cases now role_id by db) [
  | inl same ↦ rw same h
  | inr (no_members, same) ↦ rw same (
      HasUniqueRoleIds-set_role_row role_id (note_role "deleted_by" by) (λ r. refl)
        (set_role_row role_id (close_role now) (remove_links_of_role role_id db))
        (HasUniqueRoleIds-set_role_row role_id (close_role now) (λ r. refl)
          (remove_links_of_role role_id db) h))
]
