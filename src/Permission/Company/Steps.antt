-- ===== src/Permission/Company/Steps.antt =====
-- app/repository/permission.py: how the calls of `CompanyPermissionRepository` end.
use userverse.Base.{
  ℕ, ◌≡◌, ◌⊎◌, inl, inr, ◌&&◌, true, Memᴰ, arith, ◌==◌, nat_Eq, is_none, Bool-cases,
}
use userverse.Messages.{not_found, literal}
use userverse.Database.{
  UserReadModel, Company, CompanyPermission, Db, Session, begin, Error, app_error, ok, err,
  or_raise-cases,
}
use userverse.Permission.{PermissionCreateModel, PermissionUpdateModel, failure}
use userverse.Permission.Company.{
  ensure_company, ensure_record, is_unused, new_company_row, add_company_row, is_unused_by_others,
  apply_company_update, set_company_row, remove_company_row, remove_company_links,
  create_permission, update_permission, delete_permission,
}

module _ (company_id : ℕ) where
  pub ensure_company-cases :
      (s : Session)
      → ((e : Error) × (ensure_company company_id s ≡ (err e, s)))
        ⊎ ((c : Company) × (ensure_company company_id s ≡ (ok c, s)))
  unfolding ensure_company
  ensure_company-cases s =
      elim (or_raise-cases (λ db. db.companies) (λ c. (c.id == company_id) && is_none c.closed_at)
        (app_error 404 (literal "Company not found.")) s) [
          | inl (e, raised) ↦ inl (e, raised)
          | inr (c, returned, listed, passes) ↦ inr (c, returned)
        ]

  -- A row that `ensure_record` may return.
  pub record IsOwn (id : ℕ) (db : Db) (p : CompanyPermission) : Type 0 where
    pub listed : Memᴰ p db.company_permissions
    pub same_company : p.company_id ≡ company_id
    pub same_id : p.id ≡ id

  pub ensure_record-cases :
      (id : ℕ) (s : Session)
      → ((e : Error) × (ensure_record company_id id s ≡ (err e, s)))
        ⊎ ((p : CompanyPermission) × (ensure_record company_id id s ≡ (ok p, s))
            × IsOwn id s.live p)
  unfolding ensure_record
  ensure_record-cases id s =
      elim (or_raise-cases (λ db. db.company_permissions)
        (λ p. (p.company_id == company_id) && (p.id == id) && is_none p.closed_at)
        (failure 404 not_found) s) [
          | inl (e, raised) ↦ inl (e, raised)
          | inr (p, returned, listed, passes) ↦ inr (
            p,
            returned,
            record { listed = listed; same_company = ground arith; same_id = ground arith },
          )
        ]

  -- A creation leaves the database as it was, or it adds a row of this company with a new
  -- identifier and commits that.
  pub create_permission-cases :
      (id : ℕ) (payload : PermissionCreateModel) (created_by : UserReadModel) (db : Db)
      → ((create_permission company_id id payload created_by (begin db)).1 ≡ begin db)
        ⊎ ((is_unused company_id id payload.name db ≡ true)
            × ((create_permission company_id id payload created_by (begin db)).1
                ≡ begin (add_company_row (new_company_row company_id id payload created_by) db)))
  unfolding create_permission
  create_permission-cases id payload created_by db = elim (ensure_company-cases (begin db)) [
    | inl (e, raised) ↦ inl (ground (arith, raised))
    | inr (c, returned) ↦ ground (arith, returned)
  ]

  -- An update leaves the database as it was, or it changes a row of this company and commits that.
  pub update_permission-cases :
      (id : ℕ) (payload : PermissionUpdateModel) (db : Db)
      → ((update_permission company_id id payload (begin db)).1 ≡ begin db)
        ⊎ ((p : CompanyPermission) × IsOwn id db p
            × (is_unused_by_others company_id id (apply_company_update payload p).name db ≡ true)
            × ((update_permission company_id id payload (begin db)).1
                ≡ begin (set_company_row id (apply_company_update payload) db)))
  unfolding update_permission
  update_permission-cases id payload db = elim (ensure_record-cases id (begin db)) [
    | inl (e, raised) ↦ inl (ground (arith, raised))
    | inr (p, returned, own) ↦
        elim (Bool-cases
          (is_unused_by_others company_id id (apply_company_update payload p).name db)) [
            | inl free ↦ inr (p, own, free, ground (arith, returned, own.same_id))
            | inr taken ↦ inl (ground (arith, returned, own.same_id))
          ]
  ]

  -- A deletion leaves the database as it was, or it removes a row of this company with its links
  -- and commits that.
  pub delete_permission-cases :
      (id : ℕ) (db : Db)
      → ((delete_permission company_id id (begin db)).1 ≡ begin db)
        ⊎ ((p : CompanyPermission) × IsOwn id db p
            × ((delete_permission company_id id (begin db)).1
                ≡ begin (remove_company_row id (remove_company_links company_id id db))))
  unfolding delete_permission
  delete_permission-cases id db = elim (ensure_record-cases id (begin db)) [
    | inl (e, raised) ↦ inl (ground (arith, raised))
    | inr (p, returned, own) ↦ inr (p, own, ground (arith, returned, own.same_id))
  ]
