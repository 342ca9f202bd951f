-- ===== src/Roles/Assignment/Placement.antt =====
-- app/repository/company_role.py: members, the roles they have, and changes of assignments.
use userverse.Base.{
  ℕ, String, ◌≡◌, refl, sym, ◌∙◌, subst, ◌⊎◌, inl, inr, false, ◌&&◌, none, Memᴰ, arith,
  mem-update_where, HasNoConflicts, if◌then◌else◌, ◌==◌, nat_Eq, string_Eq,
}
use userverse.Database.{UserReadModel, Role, CompanyRole, AssociationUserCompany, Db}
use userverse.Roles.Assignment.{is_assignment, set_assignment, close_assignment, note_assignment}
use userverse.Roles.Assignment.Steps.{IsEnabled}

-- Every open membership has a role that is open and enabled for its company.
abbrev pub MembersHaveRoles : Db → Type 0
MembersHaveRoles db =
    (a : AssociationUserCompany)
    → Memᴰ a db.associations
    → a.closed_at ≡ none
    → IsEnabled a.company_id a.role_id db

-- The primary key of the roles.
abbrev pub HasUniqueRoleIds : Db → Type 0
HasUniqueRoleIds db = HasNoConflicts (λ (r q : Role). r.id == q.id) db.roles

-- Roles have different identifiers, and every open membership has a role that is open and enabled
-- for its company.
pub record IsPlaced (db : Db) : Type 0 where
  pub unique_ids : HasUniqueRoleIds db
  pub members_have_roles : MembersHaveRoles db

module _ (company_id role_id : ℕ) (f : CompanyRole → CompanyRole)
    (keeps : (cr : CompanyRole)
      → ((f cr).company_id ≡ cr.company_id) × ((f cr).role_id ≡ cr.role_id)) where
  abbrev changed : CompanyRole → CompanyRole
  changed cr = if is_assignment company_id role_id cr then f cr else cr

  changed_key :
      (cr : CompanyRole)
      → ((changed cr).company_id ≡ cr.company_id) × ((changed cr).role_id ≡ cr.role_id)
  changed_key cr = ground (arith, keeps cr)

  changed_open :
      (c r : ℕ) (cr : CompanyRole)
      → ((c == company_id) && (r == role_id) ≡ false) ⊎ ((f cr).closed_at ≡ cr.closed_at)
      → cr.company_id ≡ c
      → cr.role_id ≡ r
      → (changed cr).closed_at ≡ cr.closed_at
  unfolding is_assignment
  changed_open c r cr (inl apart) same_company same_role = ground arith
  changed_open c r cr (inr same) same_company same_role = ground arith

  -- A change of one assignment's row leaves the other roles enabled, and its own if it stays open.
  pub IsEnabled-set_assignment :
      (c r : ℕ) (db : Db)
      → ((c == company_id) && (r == role_id) ≡ false)
        ⊎ ((cr : CompanyRole) → (f cr).closed_at ≡ cr.closed_at)
      → IsEnabled c r db
      → IsEnabled c r (set_assignment company_id role_id f db)
  unfolding set_assignment
  IsEnabled-set_assignment c r db apart e =
      let key = changed_key e.enabled in
      let still_open =
        changed_open c r e.enabled (elim apart [ inl h ↦ inl h | inr h ↦ inr (h e.enabled) ])
          e.enabled_company e.enabled_role in
      record {
        enabled = changed e.enabled;
        role = e.role;
        enabled_listed = mem-update_where (is_assignment company_id role_id) f e.enabled_listed;
        role_listed = e.role_listed;
        enabled_company = key.0 ∙ e.enabled_company;
        enabled_role = key.1 ∙ e.enabled_role;
        enabled_open = still_open ∙ e.enabled_open;
        same_role = e.same_role;
        role_open = e.role_open;
      }

-- Rows may be added, and other tables changed.
pub IsEnabled-kept :
    (c r : ℕ) (db db' : Db)
    → ((cr : CompanyRole) → Memᴰ cr db.company_roles → Memᴰ cr db'.company_roles)
    → db.roles ≡ db'.roles
    → IsEnabled c r db
    → IsEnabled c r db'
IsEnabled-kept c r db db' more same e = record {
  enabled = e.enabled;
  role = e.role;
  enabled_listed = more e.enabled e.enabled_listed;
  role_listed = subst (λ xs. Memᴰ e.role xs) same e.role_listed;
  enabled_company = e.enabled_company;
  enabled_role = e.enabled_role;
  enabled_open = e.enabled_open;
  same_role = e.same_role;
  role_open = e.role_open;
}

pub note_keeps :
    (key : String) (by : UserReadModel) (cr : CompanyRole)
    → ((note_assignment key by cr).company_id ≡ cr.company_id)
      × ((note_assignment key by cr).role_id ≡ cr.role_id)
unfolding note_assignment
note_keeps key by cr = (refl, refl)

pub note_stays_open :
    (key : String) (by : UserReadModel) (cr : CompanyRole)
    → (note_assignment key by cr).closed_at ≡ cr.closed_at
unfolding note_assignment
note_stays_open key by cr = refl

pub close_keeps :
    (now : ℕ) (cr : CompanyRole)
    → ((close_assignment now cr).company_id ≡ cr.company_id)
      × ((close_assignment now cr).role_id ≡ cr.role_id)
unfolding close_assignment
close_keeps now cr = (refl, refl)

-- It depends on three tables.
pub IsPlaced-same :
    (db db' : Db)
    → db.roles ≡ db'.roles
    → db.company_roles ≡ db'.company_roles
    → db.associations ≡ db'.associations
    → IsPlaced db
    → IsPlaced db'
IsPlaced-same db db' same_roles same_enabled same_members h = record {
  unique_ids =
      subst (λ rows. HasNoConflicts (λ (r q : Role). r.id == q.id) rows) same_roles h.unique_ids;
  members_have_roles = λ a m o.
      IsEnabled-kept a.company_id a.role_id db db'
        (λ cr n. subst (λ rows. Memᴰ cr rows) same_enabled n) same_roles
        (h.members_have_roles a (subst (λ rows. Memᴰ a rows) (sym same_members) m) o);
}
