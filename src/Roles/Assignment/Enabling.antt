-- ===== src/Roles/Assignment/Enabling.antt =====
-- app/repository/company_role.py: a role that was assigned is enabled for the company.
use userverse.Base.{
  ℕ, ◌≡◌, refl, inl, inr, ◌&&◌, none, Memᴰ, mem-append_right, arith, is_none, Bool-cases, nat_Eq,
  [],
}
use userverse.Database.{UserReadModel, Role, Db, begin, ok, one_or_none-cases}
use userverse.Permission.{RoleReadModel, Externals}
use userverse.Roles.Assignment.{
  is_assignment, may_assign, add_assignment, set_assignment, note_assignment, get_assignment,
  assign, assign_role,
}
use userverse.Roles.Assignment.Steps.{IsEnabled}
use userverse.Roles.Assignment.Placement.{IsEnabled-set_assignment, note_keeps, note_stays_open}

module _ (company_id : ℕ) (ext : Externals) (role : Role) (by : UserReadModel) (db : Db) where
  abbrev assigned : Db
  assigned =
      set_assignment company_id role.id (note_assignment "assigned_by" by)
        (add_assignment company_id role.id db)

  IsEnabled-assigned :
      Memᴰ role db.roles → role.closed_at ≡ none → IsEnabled company_id role.id assigned
  unfolding add_assignment
  IsEnabled-assigned listed is_open =
      IsEnabled-set_assignment company_id role.id (note_assignment "assigned_by" by)
        (note_keeps "assigned_by" by) company_id role.id (add_assignment company_id role.id db)
        (inr (note_stays_open "assigned_by" by))
        (record {
          enabled = record {
            company_id = company_id;
            role_id = role.id;
            closed_at = none;
            primary_meta_data = [];
          };
          role = role;
          enabled_listed = mem-append_right db.company_roles (Memᴰ.head refl);
          role_listed = listed;
          enabled_company = refl;
          enabled_role = refl;
          enabled_open = refl;
          same_role = refl;
          role_open = is_open;
        })

  -- An assignment that returned enabled the role and committed that.
  pub assign_role-IsEnabled :
      (m : RoleReadModel)
      → Memᴰ role db.roles
      → role.closed_at ≡ none
      → (assign_role company_id ext role by (begin db)).0 ≡ ok m
      → (after : Db) × ((assign_role company_id ext role by (begin db)).1 ≡ begin after)
        × IsEnabled company_id role.id after
        × (after.roles ≡ db.roles)
  unfolding assign_role assign get_assignment set_assignment add_assignment
  assign_role-IsEnabled m listed is_open returned =
      elim (one_or_none-cases (λ cr. is_assignment company_id role.id cr && is_none cr.closed_at)
        db.company_roles) [
          | inl (e, failed) ↦ absurd (ground (arith, failed, returned))
          | inr (inl (absent, none_passes)) ↦ elim (Bool-cases (may_assign company_id role.id db)) [
            | inl may ↦
                (assigned, ground (arith, absent, may), IsEnabled-assigned listed is_open, refl)
            | inr taken ↦ absurd (ground (arith, absent, taken, returned))
          ]
          | inr (inr (cr, present, found, passes)) ↦ absurd (ground (arith, present, returned))
        ]
