-- ===== src/Roles/Assignment/Reassign.antt =====
-- app/repository/company_role.py: assigning a role after it was unassigned.
use userverse.Base.{
  ℕ, ◌≡◌, refl, inl, inr, true, false, not, ◌&&◌, none, List, [], ◌∷◌, Memᴰ, arith, all, filter,
  update_where, mem-update_where, all_mem, is_none, if◌then◌else◌, Bool-cases, nat_Eq,
}
use userverse.Database.{
  UserReadModel, Role, CompanyRole, Db, begin, integrity_error, ok, err, one_or_none,
}
use userverse.Permission.{Externals}
use userverse.Roles.Assignment.{
  is_assignment, may_assign, set_assignment, close_assignment, remove_permissions_of_role,
  get_assignment, assign, assign_role, unassign_role,
}
use userverse.Roles.Assignment.Steps.{unassign_role-cases}

module _ (company_id now role_id : ℕ) where
  none_open :
      (rows : List CompanyRole)
      → filter
          (λ cr. is_assignment company_id role_id cr && is_none cr.closed_at)
          (update_where (is_assignment company_id role_id) (close_assignment now) rows)
        ≡ []
  unfolding is_assignment close_assignment
  none_open [] = refl
  none_open (cr ∷ rows) = ground (arith, none_open rows)

  abbrev closed : Db → Db
  closed db =
      set_assignment company_id role_id (close_assignment now)
        (remove_permissions_of_role company_id role_id db)

  still_assigned :
      (x : CompanyRole)
      → is_assignment company_id role_id x ≡ true
      → is_assignment company_id role_id
          (if is_assignment company_id role_id x then close_assignment now x else x)
        ≡ true
  unfolding is_assignment close_assignment
  still_assigned x same = ground arith

  not_assignable :
      (db : Db) (cr : CompanyRole)
      → Memᴰ cr db.company_roles
      → is_assignment company_id role_id cr ≡ true
      → may_assign company_id role_id (closed db) ≡ false
  unfolding may_assign set_assignment remove_permissions_of_role
  not_assignable db cr listed same =
      let kept =
        mem-update_where (is_assignment company_id role_id) (close_assignment now) listed in
      elim (Bool-cases (
        all (λ x. not (is_assignment company_id role_id x))
          (update_where (is_assignment company_id role_id) (close_assignment now)
            db.company_roles))) [
              | inl fresh ↦
                  let apart = all_mem (λ x. not (is_assignment company_id role_id x)) fresh kept in
                  absurd (let still = still_assigned cr same in ground arith)
              | inr taken ↦ ground (arith, taken)
            ]

  none_found :
      (db : Db)
      → one_or_none
          (λ cr. is_assignment company_id role_id cr && is_none cr.closed_at)
          (closed db).company_roles
        ≡ ok none
  unfolding set_assignment remove_permissions_of_role one_or_none
  none_found db = rw (none_open db.company_roles) refl

-- Without an open row but with a closed one, an assignment is refused by the database.
assign_role-refused :
    (ext : Externals) (company_id : ℕ) (role : Role) (by : UserReadModel) (db : Db)
    → one_or_none
        (λ cr. is_assignment company_id role.id cr && is_none cr.closed_at)
        db.company_roles
      ≡ ok none
    → may_assign company_id role.id db ≡ false
    → assign_role company_id ext role by (begin db) ≡ (err integrity_error, begin db)
unfolding assign_role assign get_assignment
assign_role-refused ext company_id role by db absent taken = ground (arith, absent, taken)

-- After an unassignment that returned, assigning the role to the company again always raises
-- `IntegrityError`, which nothing catches, and changes nothing.
pub assign_role-unassign_role :
    (ext : Externals) (company_id now : ℕ) (role : Role) (by : UserReadModel) (db : Db)
    → (unassign_role company_id now role.id (begin db)).0 ≡ ok tt
    → let s = (unassign_role company_id now role.id (begin db)).1 in
      assign_role company_id ext role by s ≡ (err integrity_error, s)
assign_role-unassign_role ext company_id now role by db e =
    elim (unassign_role-cases company_id now role.id db) [
      | inl (e', raised) ↦ absurd (ground (arith, raised))
      | inr (cr, listed, same, no_members, unassigned) ↦ rw unassigned (
          assign_role-refused ext company_id role by (closed company_id now role.id db)
            (none_found company_id now role.id db)
            (not_assignable company_id now role.id db cr listed same))
    ]
