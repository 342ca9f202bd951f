-- ===== src/Permission/System/Seeding.antt =====
-- app/repository/permission.py: what `ensure_permissions` leaves in the database.
use userverse.Base.{
  ℕ, String, ◌≡◌, refl, sym, ◌∙◌, ◌⊎◌, inl, inr, ◌&&◌, none, some, List, [], ◌∷◌, Memᴰ, arith,
  filter, mem-filter_inv, mem-append_left, mem-append_right, mem-cons_cases, Dict, ◌==◌, ==_iff,
  nat_Eq, string_Eq, Bool-cases, subst,
}
use userverse.Messages.{system_permission_conflict}
use userverse.Database.{GlobalPermission, Session, Error, integrity_error, Result, ok, err}
use userverse.SystemPermissions.{
  SystemPermissionDefinition, value, permission_id, system_permission_definitions,
}
use userverse.Permission.{failure}
use userverse.Permission.Global.{is_new, add_row}
use userverse.Permission.System.{
  is_candidate, resolve_definition, system_row, ensure_permission, ensure_all, ensure_permissions,
}

module _ (uuid5 : String → ℕ) where
  -- A row that is what the definition asks for.
  pub record IsDefined (d : SystemPermissionDefinition) (s : Session) : Type 0 where
    pub row : GlobalPermission
    pub listed : Memᴰ row s.live.global_permissions
    pub same_id : row.id ≡ permission_id uuid5 d.permission
    pub same_name : row.name ≡ value d.permission

  -- The session has all the rows that it had, and nothing more is committed.
  pub record IsMore (s s' : Session) : Type 0 where
    pub kept :
        (g : GlobalPermission)
        → Memᴰ g s.live.global_permissions
        → Memᴰ g s'.live.global_permissions
    pub same_saved : s'.saved ≡ s.saved

  resolve_definition-cases :
      (d : SystemPermissionDefinition) (records : List GlobalPermission)
      → (resolve_definition uuid5 d records ≡ err (failure 409 system_permission_conflict))
        ⊎ ((resolve_definition uuid5 d records ≡ ok none)
            ⊎ ((g : GlobalPermission) × (resolve_definition uuid5 d records ≡ ok (some g))
                × Memᴰ g records
                × (g.id ≡ permission_id uuid5 d.permission)
                × (g.name ≡ value d.permission)))
  unfolding resolve_definition
  resolve_definition-cases d [] = inr (inl refl)
  resolve_definition-cases d (g ∷ []) =
      elim (Bool-cases
        ((g.id == permission_id uuid5 d.permission) && (g.name == value d.permission))) [
          | inl fits ↦ inr (
              inr (
                g,
                rw fits refl,
                Memᴰ.head refl,
                ground arith,
                ground (arith, ==_iff g.name (value d.permission)),
              ))
          | inr differs ↦ inl (rw differs refl)
        ]
  resolve_definition-cases d (g ∷ h ∷ rest) = inl refl

  IsDefined-add_row :
      (d : SystemPermissionDefinition) (s : Session)
      → IsDefined d (record s { live = add_row (system_row uuid5 d) s.live })
  unfolding add_row system_row
  IsDefined-add_row d s = record {
    row = system_row uuid5 d;
    listed = mem-append_right s.live.global_permissions (Memᴰ.head refl);
    same_id = refl;
    same_name = refl;
  }

  IsMore-add_row :
      (g : GlobalPermission) (s : Session) → IsMore s (record s { live = add_row g s.live })
  unfolding add_row
  IsMore-add_row g s = record { kept = λ h m. mem-append_left (g ∷ []) m; same_saved = refl }

  ensure_permission-cases :
      (d : SystemPermissionDefinition) (s : Session)
      → ((e : Error) × (ensure_permission uuid5 d s ≡ (err e, s)))
        ⊎ ((g : GlobalPermission) × (s' : Session) × (ensure_permission uuid5 d s ≡ (ok g, s'))
            × IsDefined d s'
            × IsMore s s')
  unfolding ensure_permission
  ensure_permission-cases d s =
      let records = filter (is_candidate uuid5 d) s.live.global_permissions in
      elim (resolve_definition-cases d records) [
        | inl conflict ↦ inl (failure 409 system_permission_conflict, ground (arith, conflict))
        | inr (inr (g, present, found, same_id, same_name)) ↦ inr (
          g,
          s,
          ground (arith, present),
          record {
            row = g;
            listed = (mem-filter_inv (is_candidate uuid5 d) s.live.global_permissions found).0;
            same_id = same_id;
            same_name = same_name;
          },
          record { kept = λ h m. m; same_saved = refl },
        )
        | inr (inl absent) ↦
            elim (Bool-cases
              (is_new (permission_id uuid5 d.permission) (value d.permission) s.live)) [
                | inr taken ↦ inl (integrity_error, ground (arith, absent, taken))
                | inl fresh ↦ inr (
                  system_row uuid5 d,
                  record s { live = add_row (system_row uuid5 d) s.live },
                  ground (arith, absent, fresh),
                  IsDefined-add_row d s,
                  IsMore-add_row (system_row uuid5 d) s,
                )
              ]
      ]

  IsDefined-more :
      (d : SystemPermissionDefinition) (s s' : Session)
      → IsMore s s'
      → IsDefined d s
      → IsDefined d s'
  IsDefined-more d s s' more w = record {
    row = w.row;
    listed = more.kept w.row w.listed;
    same_id = w.same_id;
    same_name = w.same_name;
  }

  -- The loop, whether it returns or raises, only adds rows; and if it returns, each of its
  -- definitions has its row.
  ensure_all-adds :
      (ds : List SystemPermissionDefinition) (s : Session) → IsMore s (ensure_all uuid5 ds s).1
  unfolding ensure_all
  ensure_all-adds [] s = record { kept = λ h m. m; same_saved = refl }
  ensure_all-adds (d ∷ ds) s = elim (ensure_permission-cases d s) [
    | inl (e, raised) ↦
        let ends : (ensure_all uuid5 (d ∷ ds) s).1 ≡ s = ground (arith, raised) in
        rw ends (record { kept = λ h m. m; same_saved = refl })
    | inr (g, s', returned, defined, more) ↦
        let later = ensure_all-adds ds s' in
        let ends : (ensure_all uuid5 (d ∷ ds) s).1 ≡ (ensure_all uuid5 ds s').1 =
          ground (arith, returned) in
        rw ends (record {
          kept = λ h m. later.kept h (more.kept h m);
          same_saved = later.same_saved ∙ more.same_saved;
        })
  ]

  rest_returned :
      (d : SystemPermissionDefinition) (ds : List SystemPermissionDefinition) (s s' : Session)
      (g : GlobalPermission) (r : Dict ℕ GlobalPermission)
      → ensure_permission uuid5 d s ≡ (ok g, s')
      → (ensure_all uuid5 (d ∷ ds) s).0 ≡ ok r
      → (rest : Dict ℕ GlobalPermission) × ((ensure_all uuid5 ds s').0 ≡ ok rest)
  unfolding ensure_all
  rest_returned d ds s s' g r returned e = cases (ensure_all uuid5 ds s').0 refl
    where
      cases :
          (o : Result (Dict ℕ GlobalPermission))
          → (ensure_all uuid5 ds s').0 ≡ o
          → (rest : Dict ℕ GlobalPermission) × ((ensure_all uuid5 ds s').0 ≡ ok rest)
      cases (ok rest) same = (rest, same)
      cases (err e') same = absurd (ground (arith, returned, same, e))

  ensure_all_complete :
      (ds : List SystemPermissionDefinition) (s : Session) (r : Dict ℕ GlobalPermission)
      → (ensure_all uuid5 ds s).0 ≡ ok r
      → (d : SystemPermissionDefinition) → Memᴰ d ds
      → IsDefined d (ensure_all uuid5 ds s).1
  unfolding ensure_all
  ensure_all_complete [] s r e d m = elim m [ ]
  ensure_all_complete (d' ∷ ds) s r e d m = elim (ensure_permission-cases d' s) [
    | inl (e', raised) ↦ absurd (ground (arith, raised))
    | inr (g, s', returned, defined, more) ↦
        let ends : (ensure_all uuid5 (d' ∷ ds) s).1 ≡ (ensure_all uuid5 ds s').1 =
          ground (arith, returned) in
        let (rest, e') = rest_returned d' ds s s' g r returned e in
        elim (mem-cons_cases m) [
          | inl here ↦
              let its : IsDefined d s' = subst (λ x. IsDefined x s') (sym here) defined in
              rw ends (IsDefined-more d s' (ensure_all uuid5 ds s').1 (ensure_all-adds ds s') its)
          | inr later ↦ rw ends (ensure_all_complete ds s' rest e' d later)
        ]
  ]

  -- If `ensure_permissions` returns, each system permission has a row with its identifier and its
  -- name, in what the session sees. No row is lost, and nothing is committed.
  pub ensure_permissions_complete :
      (s : Session) (r : Dict ℕ GlobalPermission)
      → (ensure_permissions uuid5 s).0 ≡ ok r
      → ((d : SystemPermissionDefinition)
          → Memᴰ d system_permission_definitions
          → IsDefined d (ensure_permissions uuid5 s).1)
        × IsMore s (ensure_permissions uuid5 s).1
  unfolding ensure_permissions
  ensure_permissions_complete s r e = (
    ensure_all_complete system_permission_definitions s r e,
    ensure_all-adds system_permission_definitions s,
  )
