-- ===== src/Roles/Repository/Lookup.antt =====
-- app/repository/company_role.py: looking up the role that was just created.
use userverse.Base.{
  ℕ, String, ◌≡◌, sym, ◌∙◌, subst, ap, inl, inr, ◌⊎◌, true, not, ◌&&◌, none, some, Memᴰ, [], ◌∷◌,
  ◌++◌, arith, all_mem, mem-append_cases, mem-one, mem-update_where_inv, is_none, ◌==◌, ==_iff,
  nat_Eq, string_Eq, Bool-cases,
}
use userverse.Messages.{company_role, role_not_found}
use userverse.Database.{
  UserReadModel, Role, Db, Session, begin, Error, app_error, Result, ok, err, one_or_none-cases,
  or_raise-cases, ◌>>=◌, bind_rule,
}
use userverse.Permission.{RoleReadModel, Externals}
use userverse.Permission.Effective.{global_role_read}
use userverse.Roles.{RoleCreateModel}
use userverse.Roles.Assignment.{set_role_row}
use userverse.Roles.Repository.{
  new_role, add_role, is_new_role, note_role, get_role_record, get_role_by_name, ensure_role_exists,
  create_role,
}

-- A role that is found by its name is open; a lookup changes nothing.
pub get_role_by_name-cases :
    (name : String) (s : Session)
    → ((e : Error) × (get_role_by_name name s ≡ (err e, s)))
      ⊎ ((get_role_by_name name s ≡ (ok none, s))
          ⊎ ((r : Role) × (get_role_by_name name s ≡ (ok (some r), s))
              × Memᴰ r s.live.roles
              × (r.name ≡ name)
              × (r.closed_at ≡ none)))
unfolding get_role_by_name
get_role_by_name-cases name s =
    elim (one_or_none-cases (λ (r : Role). (r.name == name) && is_none r.closed_at) s.live.roles) [
      | inl (e, failed) ↦ inl (e, ground (arith, failed))
      | inr (inl (absent, none_passes)) ↦ inr (inl (ground (arith, absent)))
      | inr (inr (r, present, listed, passes)) ↦ inr (
          inr (
            r,
            ground (arith, present),
            listed,
            (==_iff r.name name).0 (ground (arith, passes)),
            ground (arith, passes),
          ))
    ]

module _ (ext : Externals) (id : ℕ) (payload : RoleCreateModel) (by : UserReadModel) (db : Db) where
  abbrev created : Db
  created = set_role_row id (note_role "created_by" by) (add_role (new_role id payload) db)

  create_role-returned :
      (m : RoleReadModel)
      → (create_role ext id payload by (begin db)).0 ≡ ok m
      → (is_new_role id payload.name db ≡ true)
        × (m.id ≡ id)
        × ((create_role ext id payload by (begin db)).1 ≡ begin created)
  unfolding create_role new_role global_role_read
  create_role-returned m returned = elim (Bool-cases (is_new_role id payload.name db)) [
    | inl fresh ↦ (fresh, ground (arith, fresh, returned), ground (arith, fresh))
    | inr taken ↦ absurd (ground (arith, taken, returned))
  ]

  -- A listed role with the new identifier is the new one.
  created_row :
      is_new_role id payload.name db ≡ true
      → (r : Role) → Memᴰ r created.roles
      → r.id ≡ id
      → r.name ≡ payload.name
  unfolding is_new_role add_role set_role_row new_role note_role
  created_row fresh r listed same_id =
      let (x, x_listed, r_is) =
        mem-update_where_inv (λ (q : Role). q.id == id) (note_role "created_by" by)
          (db.roles ++ new_role id payload ∷ []) listed in
      let same_name : r.name ≡ x.name = ap (λ (q : Role). q.name) r_is ∙ ground arith in
      let id_of_x : r.id ≡ x.id = ap (λ (q : Role). q.id) r_is ∙ ground arith in
      elim (mem-append_cases db.roles x_listed) [
        | inl old ↦ absurd (
            let apart =
              all_mem (λ (q : Role). not (q.id == id) && not (q.name == payload.name)) fresh old in
            ground (arith, apart, sym id_of_x ∙ same_id))
        | inr new ↦ same_name ∙ ap (λ (q : Role). q.name) (mem-one new)
      ]

  ensure_role_exists-created :
      (r : Role) (s : Session)
      → is_new_role id payload.name db ≡ true
      → (ensure_role_exists id (begin created)) ≡ (ok r, s)
      → (s ≡ begin created) × Memᴰ r created.roles × (r.name ≡ payload.name) × (r.closed_at ≡ none)
  unfolding ensure_role_exists get_role_record
  ensure_role_exists-created r s fresh returned =
      elim (or_raise-cases (λ db. db.roles) (λ (x : Role). (x.id == id) && is_none x.closed_at)
        (app_error 404 (company_role role_not_found)) (begin created)) [
          | inl (e, raised) ↦ absurd (cc (raised, returned))
          | inr (x, found, listed, passes) ↦
              let one : x ≡ r = ground (arith, found, returned) in
              let same : begin created ≡ s = cc (found, returned) in
              (
                sym same,
                subst (λ (y : Role). Memᴰ y created.roles) one listed,
                ap (λ (y : Role). y.name) (sym one)
                    ∙ created_row fresh x listed ((==_iff x.id id).0 (ground (arith, passes))),
                ap (λ (y : Role). y.closed_at) (sym one) ∙ ground (arith, passes),
              )
        ]

  -- The role that was created is found by its identifier: it is open and has the name, and all is
  -- committed.
  pub create_role-ensure_role_exists :
      (r : Role) (s : Session)
      → (create_role ext id payload by >>= λ m. ensure_role_exists m.id) (begin db) ≡ (ok r, s)
      → (after : Db) × (s ≡ begin after)
        × Memᴰ r after.roles
        × (r.name ≡ payload.name)
        × (r.closed_at ≡ none)
  create_role-ensure_role_exists r s =
      bind_rule
        (λ (ended : Result Role × Session).
          ended ≡ (ok r, s)
          → (after : Db) × (s ≡ begin after)
            × Memᴰ r after.roles
            × (r.name ≡ payload.name)
            × (r.closed_at ≡ none))
        (create_role ext id payload by) (λ m. ensure_role_exists m.id) (begin db)
        (λ e t ends returned. absurd (cc returned))
        (λ m t ends returned.
          let (fresh, same_id, live) =
            create_role-returned m (ap (λ (x : Result RoleReadModel × Session). x.0) ends) in
          let t_is : t ≡ begin created = cc (live, ends) in
          let looked = rw (same_id, t_is) at returned in
          let (same, listed, name, is_open) = ensure_role_exists-created r s fresh looked in
          (created, same, listed, name, is_open))
