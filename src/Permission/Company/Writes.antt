-- ===== src/Permission/Company/Writes.antt =====
-- app/repository/permission.py: a call of `CompanyPermissionRepository`, or on the links of a
-- company's role, writes no table but those of the company permissions and their links.
use userverse.Base.{
  ℕ, String, Bool, ◌≡◌, sym, ap, subst, arith, List, [], ◌∷◌, ◌++◌, filter, not, ◌&&◌, update_where,
  ◌==◌, nat_Eq,
}
use userverse.Database.{
  UserReadModel, CompanyPermission, CompanyRolePermission, Db, Session, Action, Keeps, Holds,
  Keeps-bind, Keeps-write_if, on_integrity_error, Keeps-on_integrity_error, ◌>>◌, modify, commit,
  write_if, pure,
}
use userverse.Messages.{already_exists}
use userverse.Permission.{
  PermissionQueryParamsModel, company_permission_model, failure, PermissionCreateModel,
  PermissionUpdateModel,
}
use userverse.Permission.Company.{
  is_unused, is_unused_by_others, apply_company_update, get_record, new_company_row,
  add_company_row, set_company_row, remove_company_row, remove_company_links, ensure_company,
  ensure_record, create_permission, update_permission, delete_permission, get_permissions,
}

-- The database differs from another at most in those two tables.
abbrev pub DiffersInCompanies : Db → Db → Type 0
DiffersInCompanies db db' = db' ≡ record db {
  company_permissions = db'.company_permissions;
  company_role_permissions = db'.company_role_permissions;
}

module _ (db : Db) where
  pub Keeps-same {ℓ} :
      {A : Type ℓ} (m : Action A) → ((s : Session) → (m s).1 ≡ s) → Keeps (DiffersInCompanies db) m
  Keeps-same m same s h = subst (Holds (DiffersInCompanies db)) (sym (same s)) h

  pub Differs-set :
      (rows : List CompanyPermission) (links : List CompanyRolePermission) (db' : Db)
      → DiffersInCompanies db db'
      → DiffersInCompanies db
          (record db' { company_permissions = rows; company_role_permissions = links })
  Differs-set rows links db' h =
      ap (λ (x : Db). record x { company_permissions = rows; company_role_permissions = links }) h

  abbrev pub KeepsOthers {ℓ} : {A : Type ℓ} → Action A → Type 0
  KeepsOthers m = Keeps (DiffersInCompanies db) m

  module _ (company_id : ℕ) where
    ensure_company-same : (s : Session) → (ensure_company company_id s).1 ≡ s
    unfolding ensure_company
    ensure_company-same s = ground arith

    pub ensure_record-same : (id : ℕ) (s : Session) → (ensure_record company_id id s).1 ≡ s
    unfolding ensure_record get_record
    ensure_record-same id s = ground arith

    pub create_permission-KeepsOthers :
        (id : ℕ) (payload : PermissionCreateModel) (by : UserReadModel)
        → KeepsOthers (create_permission company_id id payload by)
    unfolding create_permission add_company_row
    create_permission-KeepsOthers id payload by =
        let p = new_company_row company_id id payload by in
        let write = write_if (is_unused company_id id payload.name) (add_company_row p) in
        let rest = commit >> pure (company_permission_model p) in
        Keeps-bind (DiffersInCompanies db) (ensure_company company_id)
          (λ _. on_integrity_error (write >> rest) (failure 409 already_exists))
          (Keeps-same (ensure_company company_id) ensure_company-same)
          (λ _.
            Keeps-on_integrity_error (DiffersInCompanies db) (write >> rest)
              (failure 409 already_exists)
              (Keeps-bind (DiffersInCompanies db) write (λ _. rest)
                (Keeps-write_if (DiffersInCompanies db) (is_unused company_id id payload.name)
                  (add_company_row p)
                  (λ db' free h.
                    Differs-set (db'.company_permissions ++ p ∷ []) db'.company_role_permissions db'
                      h))
                (λ _ t h. (h.1, h.1))))

    pub update_permission-KeepsOthers :
        (id : ℕ) (payload : PermissionUpdateModel)
        → KeepsOthers (update_permission company_id id payload)
    unfolding update_permission set_company_row
    update_permission-KeepsOthers id payload =
        let changed = apply_company_update payload in
        Keeps-bind (DiffersInCompanies db) (ensure_record company_id id)
          (λ p.
            on_integrity_error
              (write_if (is_unused_by_others company_id p.id (changed p).name)
                  (set_company_row p.id changed)
                >> (commit >> pure (company_permission_model (changed p))))
              (failure 409 already_exists))
          (Keeps-same (ensure_record company_id id) (ensure_record-same id))
          (λ p.
            let write =
              write_if (is_unused_by_others company_id p.id (changed p).name)
                (set_company_row p.id changed) in
            let rest = commit >> pure (company_permission_model (changed p)) in
            Keeps-on_integrity_error (DiffersInCompanies db) (write >> rest)
              (failure 409 already_exists)
              (Keeps-bind (DiffersInCompanies db) write (λ _. rest)
                (Keeps-write_if (DiffersInCompanies db)
                  (is_unused_by_others company_id p.id (changed p).name)
                  (set_company_row p.id changed)
                  (λ db' free h.
                    Differs-set (update_where (λ q. q.id == p.id) changed db'.company_permissions)
                      db'.company_role_permissions db' h))
                (λ _ t h. (h.1, h.1))))

    pub delete_permission-KeepsOthers : (id : ℕ) → KeepsOthers (delete_permission company_id id)
    unfolding delete_permission remove_company_links remove_company_row
    delete_permission-KeepsOthers id =
        Keeps-bind (DiffersInCompanies db) (ensure_record company_id id)
          (λ p.
            modify (remove_company_links company_id id)
            >> (modify (remove_company_row p.id) >> (commit >> pure p.name)))
          (Keeps-same (ensure_record company_id id) (ensure_record-same id))
          (λ p t h.
            let removed =
              Differs-set (filter (λ q. not (q.id == p.id)) t.live.company_permissions)
                (filter (λ l. not ((l.company_id == company_id) && (l.company_permission_id == id)))
                  t.live.company_role_permissions)
                t.live h.1 in
            (removed, removed))

    pub get_permissions-same :
        (ilike : String → String → Bool) (row_le : CompanyPermission → CompanyPermission → Bool)
        (payload : PermissionQueryParamsModel) (s : Session)
        → (get_permissions company_id ilike row_le payload s).1 ≡ s
    unfolding get_permissions ensure_company
    get_permissions-same ilike row_le payload s = ground arith
