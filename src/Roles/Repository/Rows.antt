-- ===== src/Roles/Repository/Rows.antt =====
-- app/repository/company_role.py: the rows of roles that are added or updated.
use userverse.Base.{
  ℕ, String, ◌≡◌, refl, sym, ap, ◌∙◌, subst, ◌⊎◌, inl, inr, true, ◌&&◌, not, List, [], ◌∷◌, Memᴰ,
  arith, all, update_where, mem-update_where, mem-append_left, HasNoConflicts,
  HasNoConflicts-append_one, is_none, if◌then◌else◌, Bool-cases, ◌==◌, nat_Eq, string_Eq,
}
use userverse.Database.{UserReadModel, Role, Db, begin, one_or_none-cases}
use userverse.Permission.{Externals}
use userverse.Roles.{RoleCreateModel, RoleUpdateModel}
use userverse.Roles.Assignment.{set_role_row, is_free_name, apply_role_update}
use userverse.Roles.Assignment.Steps.{IsEnabled}
use userverse.Roles.Assignment.Placement.{MembersHaveRoles, HasUniqueRoleIds, IsPlaced}
use userverse.Roles.Repository.{
  new_role, add_role, is_new_role, note_role, get_role_record, create_role, update_role,
}

-- A change of roles in which each keeps its identifier and whether it is open.
pub IsEnabled-roles :
    (c r : ℕ) (db db' : Db)
    → ((x : Role)
        → Memᴰ x db.roles
        → (y : Role) × Memᴰ y db'.roles × (y.id ≡ x.id) × (y.closed_at ≡ x.closed_at))
    → db.company_roles ≡ db'.company_roles
    → IsEnabled c r db
    → IsEnabled c r db'
IsEnabled-roles c r db db' kept same e =
    let (y, listed, same_id, same_closed) = kept e.role e.role_listed in
    record {
      enabled = e.enabled;
      role = y;
      enabled_listed = subst (λ xs. Memᴰ e.enabled xs) same e.enabled_listed;
      role_listed = listed;
      enabled_company = e.enabled_company;
      enabled_role = e.enabled_role;
      enabled_open = e.enabled_open;
      same_role = same_id ∙ e.same_role;
      role_open = same_closed ∙ e.role_open;
    }

module _ (id : ℕ) (f : Role → Role) (keeps_id : (r : Role) → (f r).id ≡ r.id) where
  abbrev changed : Role → Role
  changed r = if r.id == id then f r else r

  changed_id : (r : Role) → (changed r).id ≡ r.id
  changed_id r = ground (arith, keeps_id r)

  all-changed :
      (r : Role) (rows : List Role)
      → all (λ q. not (r.id == q.id)) rows ≡ true
      → all (λ q. not ((changed r).id == q.id)) (update_where (λ q. q.id == id) f rows) ≡ true
  all-changed r [] h = refl
  all-changed r (q ∷ rows) h = ground (arith, changed_id r, changed_id q, all-changed r rows)

  HasUniqueRoleIds-rows :
      (rows : List Role)
      → HasNoConflicts (λ (r q : Role). r.id == q.id) rows
      → HasNoConflicts (λ (r q : Role). r.id == q.id) (update_where (λ q. q.id == id) f rows)
  HasUniqueRoleIds-rows [] h = tt
  HasUniqueRoleIds-rows (r ∷ rows) h = (all-changed r rows h.0, HasUniqueRoleIds-rows rows h.1)

  pub HasUniqueRoleIds-set_role_row :
      (db : Db) → HasUniqueRoleIds db → HasUniqueRoleIds (set_role_row id f db)
  unfolding set_role_row
  HasUniqueRoleIds-set_role_row db h = HasUniqueRoleIds-rows db.roles h

  pub MembersHaveRoles-set_role_row :
      ((r : Role) → (f r).closed_at ≡ r.closed_at)
      → (db : Db) → MembersHaveRoles db
      → MembersHaveRoles (set_role_row id f db)
  unfolding set_role_row
  MembersHaveRoles-set_role_row keeps_open db h a m o =
      IsEnabled-roles a.company_id a.role_id db (set_role_row id f db)
        (λ x n. (
          changed x,
          mem-update_where (λ (q : Role). q.id == id) f n,
          changed_id x,
          ground (arith, keeps_open x),
        ))
        refl (h a m o)

pub IsPlaced-set_role_row :
    (id : ℕ) (f : Role → Role)
    → ((r : Role) → ((f r).id ≡ r.id) × ((f r).closed_at ≡ r.closed_at))
    → (db : Db) → IsPlaced db
    → IsPlaced (set_role_row id f db)
IsPlaced-set_role_row id f keeps db h = record {
  unique_ids = HasUniqueRoleIds-set_role_row id f (λ r. (keeps r).0) db h.unique_ids;
  members_have_roles =
      MembersHaveRoles-set_role_row id f (λ r. (keeps r).0) (λ r. (keeps r).1) db
        h.members_have_roles;
}

module _ (role : Role) (db : Db) where
  pub MembersHaveRoles-add_role : MembersHaveRoles db → MembersHaveRoles (add_role role db)
  unfolding add_role
  MembersHaveRoles-add_role h a m o =
      IsEnabled-roles a.company_id a.role_id db (add_role role db)
        (λ x n. (x, mem-append_left _ n, refl, refl)) refl (h a m o)

  pub HasUniqueRoleIds-add_role :
      is_new_role role.id role.name db ≡ true
      → HasUniqueRoleIds db
      → HasUniqueRoleIds (add_role role db)
  unfolding add_role is_new_role
  HasUniqueRoleIds-add_role fresh h =
      HasNoConflicts-append_one (λ (r q : Role). r.id == q.id) db.roles role h
        (ids_fresh db.roles fresh)
    where
      ids_fresh :
          (rows : List Role)
          → all (λ r. not (r.id == role.id) && not (r.name == role.name)) rows ≡ true
          → all (λ r. not (r.id == role.id)) rows ≡ true
      ids_fresh [] fresh = refl
      ids_fresh (r ∷ rows) fresh =
          (let later = ids_fresh rows in ground (arith, later (ground arith)))

pub HasUniqueRoleIds-new_role :
    (id : ℕ) (payload : RoleCreateModel) (db : Db)
    → is_new_role id payload.name db ≡ true
    → HasUniqueRoleIds db
    → HasUniqueRoleIds (add_role (new_role id payload) db)
unfolding new_role
HasUniqueRoleIds-new_role id payload db fresh h =
    HasUniqueRoleIds-add_role (new_role id payload) db fresh h

pub note_role_keeps :
    (key : String) (by : UserReadModel) (r : Role)
    → ((note_role key by r).id ≡ r.id) × ((note_role key by r).closed_at ≡ r.closed_at)
unfolding note_role
note_role_keeps key by r = (refl, refl)

module _ (ext : Externals) (db : Db) where
  -- A creation leaves the database as it was, or the identifier and the name are new, and it adds
  -- the role with its note.
  pub create_role-cases :
      (id : ℕ) (payload : RoleCreateModel) (by : UserReadModel)
      → ((create_role ext id payload by (begin db)).1 ≡ begin db)
        ⊎ ((is_new_role id payload.name db ≡ true)
            × ((create_role ext id payload by (begin db)).1
                ≡ begin (
                    set_role_row id
                      (note_role "created_by" by)
                      (add_role (new_role id payload) db))))
  unfolding create_role
  create_role-cases id payload by = elim (Bool-cases (is_new_role id payload.name db)) [
    | inl fresh ↦ inr (fresh, ground (arith, fresh))
    | inr taken ↦ inl (ground (arith, taken))
  ]

  -- An update leaves the database as it was, or it updates the row of a role.
  pub update_role-cases :
      (role_id : ℕ) (payload : RoleUpdateModel)
      → ((update_role ext role_id payload (begin db)).1 ≡ begin db)
        ⊎ ((id : ℕ) × ((update_role ext role_id payload (begin db)).1
              ≡ begin (set_role_row id (apply_role_update payload) db)))
  unfolding update_role get_role_record
  update_role-cases role_id payload =
      elim (one_or_none-cases (λ (r : Role). (r.id == role_id) && is_none r.closed_at) db.roles) [
        | inl (e, failed) ↦ inl (ground (arith, failed))
        | inr (inl (absent, none_passes)) ↦ inl (ground (arith, absent))
        | inr (inr (r, present, listed, passes)) ↦
            elim (Bool-cases (is_free_name r.id (apply_role_update payload r).name db)) [
              | inl free ↦ inr (r.id, ground (arith, present, free))
              | inr taken ↦ inl (ground (arith, present, taken))
            ]
      ]

-- Whether a role is new depends on the roles alone.
pub is_new_role-same :
    (id : ℕ) (name : String) (db db' : Db)
    → db.roles ≡ db'.roles
    → is_new_role id name db' ≡ is_new_role id name db
unfolding is_new_role
is_new_role-same id name db db' same =
    ap (all (λ (r : Role). not (r.id == id) && not (r.name == name))) (sym same)
