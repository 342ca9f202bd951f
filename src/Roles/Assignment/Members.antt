-- ===== src/Roles/Assignment/Members.antt =====
-- app/repository/company_role.py: the roles of members under `CompanyRoleAssignmentRepository`.
use userverse.Base.{
  ℕ, ◌≡◌, refl, sym, ap, ◌∙◌, subst, inl, inr, false, ◌&&◌, none, Memᴰ, arith, any_complete,
  mem-update_where_inv, mem-append_left, eq_of_conflict, Bool-cases, ◌==◌, ==_iff, nat_Eq,
  string_Eq,
}
use userverse.Database.{UserReadModel, Role, AssociationUserCompany, Db, begin}
use userverse.Permission.{Externals}
use userverse.Roles.{RoleDeleteModel}
use userverse.Roles.Assignment.{
  add_assignment, set_assignment, close_assignment, note_assignment, remove_permissions_of_role,
  is_member_in, reassign, assign_role, unassign_role, reassign_and_delete_role,
}
use userverse.Roles.Assignment.Updates.{assigned}
use userverse.Roles.Assignment.Placement.{
  MembersHaveRoles, HasUniqueRoleIds, IsEnabled-set_assignment, IsEnabled-kept, note_keeps,
  note_stays_open, close_keeps,
}
use userverse.Roles.Assignment.Steps.{
  IsEnabled, IsReplacing, replaced, assign_role-cases, unassign_role-cases,
  reassign_and_delete_role-cases,
}

pub MembersHaveRoles-assigned :
    (role_id : ℕ) (by : UserReadModel) (company_id : ℕ) (db : Db)
    → MembersHaveRoles db
    → MembersHaveRoles (assigned role_id by company_id db)
unfolding add_assignment set_assignment
MembersHaveRoles-assigned role_id by company_id db h a m o =
    IsEnabled-set_assignment company_id role_id (note_assignment "assigned_by" by)
      (note_keeps "assigned_by" by) a.company_id a.role_id (add_assignment company_id role_id db)
      (inr (note_stays_open "assigned_by" by))
      (IsEnabled-kept a.company_id a.role_id db (add_assignment company_id role_id db)
        (λ cr n. mem-append_left _ n) refl (h a m o))

-- If every open membership has a role that is open and enabled for its company, then every one has
-- after an assignment of a role to a company, whether it returns or raises, as committed and as the
-- session sees it.
pub assign_role-MembersHaveRoles :
    (company_id : ℕ) (ext : Externals) (role : Role) (by : UserReadModel) (db : Db)
    → MembersHaveRoles db
    → let s = (assign_role company_id ext role by (begin db)).1 in
      MembersHaveRoles s.saved × MembersHaveRoles s.live
assign_role-MembersHaveRoles company_id ext role by db h =
    elim (assign_role-cases company_id ext role by db) [
      | inl same ↦ rw same (h, h)
      | inr (may, same) ↦
          let kept = MembersHaveRoles-assigned role.id by company_id db h in rw same (kept, kept)
    ]

-- If every open membership has a role that is open and enabled for its company, then every one has
-- after a role is unassigned from a company, whether the call returns or raises, as committed and as
-- the session sees it.
pub unassign_role-MembersHaveRoles :
    (company_id now role_id : ℕ) (db : Db)
    → MembersHaveRoles db
    → let s = (unassign_role company_id now role_id (begin db)).1 in
      MembersHaveRoles s.saved × MembersHaveRoles s.live
unfolding set_assignment remove_permissions_of_role is_member_in
unassign_role-MembersHaveRoles company_id now role_id db h =
    elim (unassign_role-cases company_id now role_id db) [
      | inl (e, same) ↦ rw same (h, h)
      | inr (cr, listed, is_its, no_members, same) ↦
          let without = remove_permissions_of_role company_id role_id db in
          let kept : MembersHaveRoles
              (set_assignment company_id role_id (close_assignment now) without) =
            λ a m o.
              let other : (a.company_id == company_id) && (a.role_id == role_id) ≡ false =
                elim (Bool-cases ((a.company_id == company_id) && (a.role_id == role_id))) [
                  | inl its ↦ absurd (
                      let found = any_complete (is_member_in company_id role_id) m (ground arith) in
                      ground arith)
                  | inr not_its ↦ not_its
                ] in
              IsEnabled-set_assignment company_id role_id (close_assignment now) (close_keeps now)
                a.company_id a.role_id without (inl other)
                (IsEnabled-kept a.company_id a.role_id db without (λ x n. n) refl (h a m o)) in
          rw same (kept, kept)
    ]

module _ (company_id now : ℕ) (payload : RoleDeleteModel) (by : UserReadModel) (db : Db)
    (r q : Role) (unique : HasUniqueRoleIds db)
    (replacing : IsReplacing company_id payload db r q) where
  pub ids_differ : (q.id == r.id) ≡ false
  ids_differ = elim (Bool-cases (q.id == r.id)) [
    | inl same ↦
        let one =
          eq_of_conflict (λ (x y : Role). x.id == y.id) db.roles unique replacing.replacement_listed
            replacing.listed same (ground arith) in
        absurd (
          ground
            (arith, ==_iff r.name q.name, ap (λ (x : Role). x.name) one, replacing.names_differ))
    | inr apart ↦ apart
  ]

  -- After the members are reassigned, an open membership has an enabled role, not the old one.
  is_placed :
      MembersHaveRoles db
      → (a : AssociationUserCompany) → Memᴰ a (reassign company_id r.id q.id db).associations
      → a.closed_at ≡ none
      → IsEnabled a.company_id a.role_id db
        × ((a.company_id == company_id) && (a.role_id == r.id) ≡ false)
  unfolding reassign is_member_in
  is_placed h a m o =
      let (b, listed, e) =
        mem-update_where_inv (is_member_in company_id r.id)
          (λ (x : AssociationUserCompany). record x { role_id = q.id }) db.associations m in
      elim (Bool-cases (is_member_in company_id r.id b)) [
        | inl member ↦
            let moved : a ≡ record b { role_id = q.id } = e ∙ (rw member refl) in
            let in_company : a.company_id ≡ company_id =
              ap (λ (x : AssociationUserCompany). x.company_id) moved ∙ (ground arith) in
            let in_role : a.role_id ≡ q.id = ap (λ (x : AssociationUserCompany). x.role_id) moved in
            (
              rw (in_company, in_role) replacing.replacement_enabled,
              rw (in_company, in_role) (ground (arith, ids_differ)),
            )
        | inr not_member ↦
            let same : a ≡ b = e ∙ (rw not_member refl) in
            let b_open : b.closed_at ≡ none =
              sym (ap (λ (x : AssociationUserCompany). x.closed_at) same) ∙ o in
            (
              subst (λ (x : AssociationUserCompany). IsEnabled x.company_id x.role_id db) (sym same)
                  (h b listed b_open),
              subst
                  (λ (x : AssociationUserCompany).
                    (x.company_id == company_id) && (x.role_id == r.id) ≡ false)
                  (sym same) (ground arith),
            )
      ]

  MembersHaveRoles-reassign :
      MembersHaveRoles db → MembersHaveRoles (reassign company_id r.id q.id db)
  unfolding reassign
  MembersHaveRoles-reassign h a m o =
      IsEnabled-kept a.company_id a.role_id db (reassign company_id r.id q.id db) (λ cr n. n) refl
        (is_placed h a m o).0

  MembersHaveRoles-replaced :
      MembersHaveRoles db → MembersHaveRoles (replaced company_id now payload by db r q)
  unfolding reassign set_assignment remove_permissions_of_role
  MembersHaveRoles-replaced h a m o =
      let (enabled, other) = is_placed h a m o in
      let without = remove_permissions_of_role company_id r.id (reassign company_id r.id q.id db) in
      IsEnabled-set_assignment company_id r.id (note_assignment "deleted_by" by)
        (note_keeps "deleted_by" by) a.company_id a.role_id
        (set_assignment company_id r.id (close_assignment now) without) (inl other)
        (IsEnabled-set_assignment company_id r.id (close_assignment now) (close_keeps now)
          a.company_id a.role_id without (inl other)
          (IsEnabled-kept a.company_id a.role_id db without (λ x n. n) refl enabled))

-- If identifiers of roles are unique and every open membership has a role that is open and enabled
-- for its company, then every one has after a role is deleted from a company and its members are
-- reassigned to another, whether the call returns or raises, as committed and as the session sees
-- it.
pub reassign_and_delete_role-MembersHaveRoles :
    (company_id now : ℕ) (payload : RoleDeleteModel) (by : UserReadModel) (db : Db)
    → HasUniqueRoleIds db
    → MembersHaveRoles db
    → let s = (reassign_and_delete_role company_id now payload by (begin db)).1 in
      MembersHaveRoles s.saved × MembersHaveRoles s.live
reassign_and_delete_role-MembersHaveRoles company_id now payload by db unique h =
    elim (reassign_and_delete_role-cases company_id now payload by db) [
      | inl same ↦ rw same (h, h)
      | inr (r, q, replacing, ends) ↦ elim ends [
        | inl same ↦
            rw same
              (h, MembersHaveRoles-reassign company_id now payload by db r q unique replacing h)
        | inr same ↦
            let kept =
              MembersHaveRoles-replaced company_id now payload by db r q unique replacing h in
            rw same (kept, kept)
      ]
    ]

module _ (company_id : ℕ) (db : Db) (unique : HasUniqueRoleIds db) where
  pub HasUniqueRoleIds-assigned :
      (role_id : ℕ) (by : UserReadModel) → HasUniqueRoleIds (assigned role_id by company_id db)
  unfolding add_assignment set_assignment
  HasUniqueRoleIds-assigned role_id by = unique

  pub assign_role-HasUniqueRoleIds :
      (ext : Externals) (role : Role) (by : UserReadModel)
      → HasUniqueRoleIds (assign_role company_id ext role by (begin db)).1.saved
  assign_role-HasUniqueRoleIds ext role by = elim (assign_role-cases company_id ext role by db) [
    | inl same ↦ rw same unique
    | inr (may, same) ↦ rw same (HasUniqueRoleIds-assigned role.id by)
  ]

  pub unassign_role-HasUniqueRoleIds :
      (now role_id : ℕ) → HasUniqueRoleIds (unassign_role company_id now role_id (begin db)).1.saved
  unfolding set_assignment remove_permissions_of_role
  unassign_role-HasUniqueRoleIds now role_id =
      elim (unassign_role-cases company_id now role_id db) [
        | inl (e, same) ↦ rw same unique
        | inr (cr, listed, is_its, no_members, same) ↦ rw same unique
      ]

  pub reassign_and_delete_role-HasUniqueRoleIds :
      (now : ℕ) (payload : RoleDeleteModel) (by : UserReadModel)
      → HasUniqueRoleIds (reassign_and_delete_role company_id now payload by (begin db)).1.saved
  unfolding reassign set_assignment remove_permissions_of_role
  reassign_and_delete_role-HasUniqueRoleIds now payload by =
      elim (reassign_and_delete_role-cases company_id now payload by db) [
        | inl same ↦ rw same unique
        | inr (r, q, replacing, ends) ↦ elim ends [
          | inl same ↦ rw same unique
          | inr same ↦ rw same unique
        ]
      ]
