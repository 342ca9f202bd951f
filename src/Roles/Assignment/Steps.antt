-- ===== src/Roles/Assignment/Steps.antt =====
-- app/repository/company_role.py: how the calls of `CompanyRoleAssignmentRepository` end.
use userverse.Base.{
  ℕ, String, ◌≡◌, refl, subst, sym, ◌⊎◌, inl, inr, true, false, ◌&&◌, Option, none, some, List, map,
  Memᴰ, arith, any, join, mem-join_inv, mem-map_inv, ◌==◌, ==_iff, nat_Eq, string_Eq, is_none,
  Bool-cases,
}
use userverse.Messages.{
  company_user, add_user_failed, company_role, role_update_failed, role_deletion_failed,
  role_not_found,
}
use userverse.Database.{
  UserReadModel, Role, CompanyRole, Db, Session, begin, Error, app_error, Result, ok, err,
  one_or_none-cases, at_most_one, at_most_one-some, or_raise, ◌>>=◌,
}
use userverse.Permission.{Externals}
use userverse.Roles.{RoleDeleteModel}
use userverse.Roles.Assignment.{
  is_assignment, may_assign, add_assignment, set_assignment, close_assignment, note_assignment,
  remove_permissions_of_role, is_member_in, reassign, is_assigned_name, get_assignment,
  get_role_name_assigned, ensure_role_name_assigned, assign, assign_role, unassign_role,
  reassign_and_delete_role,
}

-- A role that is open and enabled for a company.
pub record IsEnabled (company_id role_id : ℕ) (db : Db) : Type 0 where
  pub enabled : CompanyRole
  pub role : Role
  pub enabled_listed : Memᴰ enabled db.company_roles
  pub role_listed : Memᴰ role db.roles
  pub enabled_company : enabled.company_id ≡ company_id
  pub enabled_role : enabled.role_id ≡ role_id
  pub enabled_open : enabled.closed_at ≡ none
  pub same_role : role.id ≡ role_id
  pub role_open : role.closed_at ≡ none

module _ (company_id : ℕ) where
  abbrev rows_of_name : String → Db → List Role
  rows_of_name name db =
      map (λ row. row.0) (join (is_assigned_name company_id name) db.roles db.company_roles)

  IsEnabled-found :
      (name : String) (db : Db) (r : Role)
      → at_most_one (rows_of_name name db) ≡ ok (some r)
      → IsEnabled company_id r.id db × (r.name ≡ name) × Memᴰ r db.roles
  unfolding is_assigned_name
  IsEnabled-found name db r h =
      let ((r', cr), m, same) =
        mem-map_inv (λ row. row.0)
          (join (is_assigned_name company_id name) db.roles db.company_roles)
          (at_most_one-some (rows_of_name name db) h) in
      let (role_listed, enabled_listed, passes) =
        mem-join_inv (is_assigned_name company_id name) db.roles db.company_roles m in
      let as_found : IsEnabled company_id r'.id db = record {
        enabled = cr;
        role = r';
        enabled_listed = enabled_listed;
        role_listed = role_listed;
        enabled_company = ground arith;
        enabled_role = ground arith;
        enabled_open = ground arith;
        same_role = refl;
        role_open = ground arith;
      } in
      let same_name : r'.name ≡ name = ground (arith, ==_iff r'.name name) in
      (
        subst (λ (x : Role). IsEnabled company_id x.id db) (sym same) as_found,
        subst (λ (x : Role). x.name ≡ name) (sym same) same_name,
        subst (λ x. Memᴰ x db.roles) (sym same) role_listed,
      )

  -- What a lookup by name finds is open, is enabled for the company and has the name.
  pub get_role_name_assigned-cases :
      (name : String) (e : Error) (s : Session)
      → ((e' : Error) × ((get_role_name_assigned company_id name >>= or_raise e) s ≡ (err e', s)))
        ⊎ ((r : Role) × ((get_role_name_assigned company_id name >>= or_raise e) s ≡ (ok r, s))
            × IsEnabled company_id r.id s.live
            × (r.name ≡ name)
            × Memᴰ r s.live.roles)
  unfolding get_role_name_assigned
  get_role_name_assigned-cases name e s = cases (at_most_one (rows_of_name name s.live)) refl
    where
      cases :
          (found : Result (Option Role))
          → at_most_one (rows_of_name name s.live) ≡ found
          → ((e' : Error) × ((get_role_name_assigned company_id name >>= or_raise e) s
                ≡ (err e', s)))
            ⊎ ((r : Role) × ((get_role_name_assigned company_id name >>= or_raise e) s ≡ (ok r, s))
                × IsEnabled company_id r.id s.live
                × (r.name ≡ name)
                × Memᴰ r s.live.roles)
      cases (err e') h = inl (e', ground (arith, h))
      cases (ok none) h = inl (e, ground (arith, h))
      cases (ok (some r)) h =
          let (enabled, same_name, listed) = IsEnabled-found name s.live r h in
          inr (r, ground (arith, h), enabled, same_name, listed)

  pub ensure_role_name_assigned-cases :
      (name : String) (s : Session)
      → ((e' : Error) × (ensure_role_name_assigned company_id name s ≡ (err e', s)))
        ⊎ ((r : Role) × (ensure_role_name_assigned company_id name s ≡ (ok r, s))
            × IsEnabled company_id r.id s.live)
  unfolding ensure_role_name_assigned
  ensure_role_name_assigned-cases name s =
      elim (get_role_name_assigned-cases name (app_error 400 (company_user add_user_failed)) s) [
        | inl raised ↦ inl raised
        | inr (r, returned, enabled, same_name, listed) ↦ inr (r, returned, enabled)
      ]

  -- An unassignment raises and leaves the database as it was, or it closes the assignment of a role
  -- that no open membership has and commits that.
  pub unassign_role-cases :
      (now role_id : ℕ) (db : Db)
      → ((e : Error) × (unassign_role company_id now role_id (begin db) ≡ (err e, begin db)))
        ⊎ ((cr : CompanyRole) × Memᴰ cr db.company_roles
            × (is_assignment company_id role_id cr ≡ true)
            × (any (is_member_in company_id role_id) db.associations ≡ false)
            × (unassign_role company_id now role_id (begin db) ≡ (
              ok tt,
              begin (
                  set_assignment company_id role_id
                    (close_assignment now)
                    (remove_permissions_of_role company_id role_id db)),
            )))
  unfolding unassign_role get_assignment
  unassign_role-cases now role_id db =
      let failed = app_error 400 (company_role role_deletion_failed) in
      elim (one_or_none-cases (λ cr. is_assignment company_id role_id cr && is_none cr.closed_at)
        db.company_roles) [
          | inl (e, failed) ↦ inl (e, ground (arith, failed))
          | inr (inl (absent, none_passes)) ↦
              inl (app_error 404 (company_role role_not_found), ground (arith, absent))
          | inr (inr (cr, present, listed, passes)) ↦
              elim (Bool-cases (any (is_member_in company_id role_id) db.associations)) [
                | inl members ↦ inl (failed, ground (arith, present, members))
                | inr no_members ↦
                    inr (cr, listed, ground arith, no_members, ground (arith, present, no_members))
              ]
        ]

  -- An assignment leaves the database as it was, or there was no row, open or closed, and it adds
  -- one and commits that.
  pub assign_role-cases :
      (ext : Externals) (role : Role) (by : UserReadModel) (db : Db)
      → ((assign_role company_id ext role by (begin db)).1 ≡ begin db)
        ⊎ ((may_assign company_id role.id db ≡ true)
            × ((assign_role company_id ext role by (begin db)).1
                ≡ begin (
                    set_assignment company_id role.id
                      (note_assignment "assigned_by" by)
                      (add_assignment company_id role.id db))))
  unfolding assign_role assign get_assignment
  assign_role-cases ext role by db =
      elim (one_or_none-cases (λ cr. is_assignment company_id role.id cr && is_none cr.closed_at)
        db.company_roles) [
          | inl (e, failed) ↦ inl (ground (arith, failed))
          | inr (inl (absent, none_passes)) ↦ ground (arith, absent)
          | inr (inr (cr, present, listed, passes)) ↦ inl (ground (arith, present))
        ]

-- The two roles of a replacement.
pub record IsReplacing (company_id : ℕ) (payload : RoleDeleteModel) (db : Db) (r q : Role)
    : Type 0 where
  pub enabled : IsEnabled company_id r.id db
  pub replacement_enabled : IsEnabled company_id q.id db
  pub listed : Memᴰ r db.roles
  pub replacement_listed : Memᴰ q db.roles
  pub names_differ : (r.name == q.name) ≡ false

module _ (company_id now : ℕ) (payload : RoleDeleteModel) (deleted_by : UserReadModel)
    (db : Db) where
  abbrev pub replaced : Role → Role → Db
  replaced r q = set_assignment company_id r.id (note_assignment "deleted_by" deleted_by) (
      set_assignment company_id r.id (close_assignment now)
        (remove_permissions_of_role company_id r.id (reassign company_id r.id q.id db)))

  -- A replacement leaves the database as it was, or it reassigns the members and raises before the
  -- commit, or it also closes the assignment and commits that.
  pub reassign_and_delete_role-cases :
      ((reassign_and_delete_role company_id now payload deleted_by (begin db)).1 ≡ begin db)
      ⊎ ((r : Role) × (q : Role) × IsReplacing company_id payload db r q
          × (((reassign_and_delete_role company_id now payload deleted_by (begin db)).1
                ≡ record { saved = db; live = reassign company_id r.id q.id db })
              ⊎ ((reassign_and_delete_role company_id now payload deleted_by (begin db)).1
                  ≡ begin (replaced r q))))
  unfolding reassign_and_delete_role get_assignment reassign
  reassign_and_delete_role-cases =
      let failed = app_error 400 (company_role role_update_failed) in
      elim (Bool-cases (payload.role_name_to_delete == payload.replacement_role_name)) [
        | inl same_names ↦ inl (ground (arith, same_names))
        | inr differ ↦
            elim (get_role_name_assigned-cases company_id payload.role_name_to_delete failed
              (begin db)) [
                | inl (e, raised) ↦ inl (ground (arith, differ, raised))
                | inr (r, returned, enabled, r_name, r_listed) ↦
                    elim (get_role_name_assigned-cases company_id payload.replacement_role_name
                      failed (begin db)) [
                        | inl (e, raised) ↦ inl (ground (arith, differ, returned, raised))
                        | inr (q, found, q_enabled, q_name, q_listed) ↦ inr (
                          r,
                          q,
                          record {
                            enabled = enabled;
                            replacement_enabled = q_enabled;
                            listed = r_listed;
                            replacement_listed = q_listed;
                            names_differ = rw (r_name, q_name) differ;
                          },
                          elim (one_or_none-cases
                              (λ cr. is_assignment company_id r.id cr && is_none cr.closed_at)
                              db.company_roles) [
                                | inl (e, failed') ↦
                                    inl (ground (arith, differ, returned, found, failed'))
                                | inr (inl (absent, none_passes)) ↦
                                    inl (ground (arith, differ, returned, found, absent))
                                | inr (inr (cr, present, listed, passes)) ↦
                                    inr (ground (arith, differ, returned, found, present))
                              ],
                        )
                      ]
              ]
      ]
