-- ===== src/Roles/Assignment/Updates.antt =====
-- app/repository/company_role.py: how `update_company_role` and `assign_role_to_companies` end.
use userverse.Base.{
  ℕ, String, ◌≡◌, refl, subst, ◌++◌, ◌⊎◌, inl, inr, ◌&&◌, Option, none, some, List, [], ◌∷◌, arith,
  is_none, Bool-cases,
}
use userverse.Database.{
  UserReadModel, Role, Db, begin, Session, Result, ok, err, pure, ◌>>=◌, value_error,
  one_or_none-cases, bind_rule,
}
use userverse.Permission.{Externals}
use userverse.Roles.{RoleUpdateModel}
use userverse.Roles.Assignment.{
  is_assignment, may_assign, add_assignment, set_assignment, note_assignment, set_role_row,
  is_free_name, apply_role_update, get_assignment, assign, update_company_role, assign_one,
  assign_role_to_companies,
}
use userverse.Roles.Assignment.Steps.{get_role_name_assigned-cases}

pub apply_role_update_keeps :
    (payload : RoleUpdateModel) (r : Role)
    → ((apply_role_update payload r).id ≡ r.id)
      × ((apply_role_update payload r).closed_at ≡ r.closed_at)
unfolding apply_role_update
apply_role_update_keeps payload r = (refl, refl)

-- An update leaves the database as it was, or it updates the row of a role.
pub update_company_role-cases :
    (ext : Externals) (db : Db) (company_id : ℕ) (name : String) (payload : RoleUpdateModel)
    → ((update_company_role company_id ext name payload (begin db)).1 ≡ begin db)
      ⊎ ((id : ℕ) × ((update_company_role company_id ext name payload (begin db)).1
            ≡ begin (set_role_row id (apply_role_update payload) db)))
unfolding update_company_role
update_company_role-cases ext db company_id name payload =
    elim (get_role_name_assigned-cases company_id name value_error (begin db)) [
      | inl (e, raised) ↦ inl (ground (arith, raised))
      | inr (r, returned, enabled, same_name, listed) ↦
          elim (Bool-cases (is_free_name r.id (apply_role_update payload r).name db)) [
            | inl free ↦ inr (r.id, ground (arith, returned, free))
            | inr taken ↦ inl (ground (arith, returned, taken))
          ]
    ]

module _ (role_id : ℕ) (by : UserReadModel) where
  -- What an assignment commits.
  abbrev pub assigned : ℕ → Db → Db
  assigned company_id db =
      set_assignment company_id role_id (note_assignment "assigned_by" by)
        (add_assignment company_id role_id db)

  module _ (uuid : String → Option ℕ) where
    -- One company's assignment leaves the database as it was, or it is added.
    assign_one-cases :
        (text : String) (db : Db)
        → ((assign_one uuid role_id by text (begin db)).1 ≡ begin db)
          ⊎ ((company_id : ℕ) × ((assign_one uuid role_id by text (begin db)).1
                ≡ begin (assigned company_id db)))
    unfolding assign_one get_assignment assign
    assign_one-cases text db = cases (uuid text) refl
      where
        cases :
            (found : Option ℕ)
            → uuid text ≡ found
            → ((assign_one uuid role_id by text (begin db)).1 ≡ begin db)
              ⊎ ((company_id : ℕ) × ((assign_one uuid role_id by text (begin db)).1
                    ≡ begin (assigned company_id db)))
        cases none h = inl (ground (arith, h))
        cases (some company_id) h =
            elim (one_or_none-cases
              (λ cr. is_assignment company_id role_id cr && is_none cr.closed_at)
              db.company_roles) [
                | inl (e, failed) ↦ inl (ground (arith, h, failed))
                | inr (inl (absent, none_passes)) ↦
                    elim (Bool-cases (may_assign company_id role_id db)) [
                      | inl may ↦ inr (company_id, ground (arith, h, absent, may))
                      | inr may_not ↦ inl (ground (arith, h, absent, may_not))
                    ]
                | inr (inr (cr, present, listed, passes)) ↦ inl (ground (arith, h, present))
              ]

    -- What each assignment keeps, the whole loop keeps, also if it raises at a later company.
    module _ (P : Db → Type 0)
        (keeps : (company_id : ℕ) (db : Db) → P db → P (assigned company_id db)) where
      after_one :
          (text : String) (db : Db)
          → P db
          → (db' : Db) × ((assign_one uuid role_id by text (begin db)).1 ≡ begin db') × P db'
      after_one text db h = elim (assign_one-cases text db) [
        | inl same ↦ (db, same, h)
        | inr (company_id, same) ↦ (assigned company_id db, same, keeps company_id db h)
      ]

      pub assign_role_to_companies-kept :
          (texts : List String) (db : Db)
          → P db
          → P (assign_role_to_companies uuid role_id by texts (begin db)).1.saved
      unfolding assign_role_to_companies
      assign_role_to_companies-kept [] db h = h
      assign_role_to_companies-kept (text ∷ texts) db h =
          let (db', same, h') = after_one text db h in
          let later = assign_role_to_companies-kept texts db' h' in
          bind_rule (λ (ended : Result (List String) × Session). P ended.1.saved)
            (assign_one uuid role_id by text)
            (λ here. assign_role_to_companies uuid role_id by texts >>= λ rest. pure (here ++ rest))
            (begin db)
            (λ e t ends.
              let after : begin db' ≡ t = cc (ends, same) in
              subst (λ (s : Session). P s.saved) after h')
            (λ here t ends.
              bind_rule (λ (ended : Result (List String) × Session). P ended.1.saved)
                (assign_role_to_companies uuid role_id by texts) (λ rest. pure (here ++ rest)) t
                (λ e u ends'. kept db' t u (err e) (cc (ends, same)) ends' later)
                (λ rest u ends'. kept db' t u (ok rest) (cc (ends, same)) ends' later))
        where
          kept :
              (db' : Db) (t u : Session) (r : Result (List String))
              → begin db' ≡ t
              → assign_role_to_companies uuid role_id by texts t ≡ (r, u)
              → P (assign_role_to_companies uuid role_id by texts (begin db')).1.saved
              → P u.saved
          kept db' t u r starts ends' later =
              let after : (assign_role_to_companies uuid role_id by texts (begin db')).1 ≡ u =
                cc (starts, ends') in
              subst (λ (s : Session). P s.saved) after later
