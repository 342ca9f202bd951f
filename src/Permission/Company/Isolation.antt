-- ===== src/Permission/Company/Isolation.antt =====
-- app/repository/permission.py: `CompanyPermissionRepository` and the roles of other companies.
use userverse.Base.{
  ℕ, ◌≡◌, refl, sym, ap, ◌∙◌, ◌≢◌, inl, inr, Bool, not, ◌&&◌, map, Memᴰ, arith, filter, join,
  filter-append_dropped, filter-filter, filter-update_where, join-filter_left, join-filter_right,
  HasNoConflicts, eq_of_conflict, ◌==◌, nat_Eq,
}
use userverse.Database.{UserReadModel, CompanyPermission, CompanyRolePermission, Db, Session, begin}
use userverse.Permission.{
  PermissionCreateModel, PermissionUpdateModel, Externals, company_permission_model,
}
use userverse.Permission.Effective.{
  company_link, company_models, global_models, effective_permissions,
}
use userverse.Permission.Company.{
  new_company_row, add_company_row, apply_company_update, set_company_row, remove_company_row,
  remove_company_links, create_permission, update_permission, delete_permission,
}
use userverse.Permission.Company.Steps.{
  IsOwn, create_permission-cases, update_permission-cases, delete_permission-cases,
}

abbrev of_company : ℕ → CompanyPermission → Bool
of_company company_id p = p.company_id == company_id

abbrev link_of_company : ℕ → CompanyRolePermission → Bool
link_of_company company_id l = l.company_id == company_id

-- The primary key.
abbrev pub HasUniqueIds : Db → Type 0
HasUniqueIds db = HasNoConflicts (λ (p q : CompanyPermission). p.id == q.id) db.company_permissions

company_models-own :
    (db : Db) (company_id role_id : ℕ)
    → company_models db company_id role_id
      ≡ map
          (λ row. company_permission_model row.1)
          (join
            (λ l p. (l.company_id == company_id) && (l.role_id == role_id) && company_link l p)
            (filter (link_of_company company_id) db.company_role_permissions)
            (filter (of_company company_id) db.company_permissions))
unfolding company_models company_link
company_models-own db company_id role_id =
    let on = λ (l : CompanyRolePermission) (p : CompanyPermission).
      (l.company_id == company_id) && (l.role_id == role_id) && company_link l p in
    ap (map (λ row. company_permission_model row.1)) (
      sym (
        join-filter_left on (link_of_company company_id) db.company_role_permissions
          (filter (of_company company_id) db.company_permissions) (λ l p h. ground arith)
        ∙ join-filter_right on (of_company company_id) db.company_role_permissions
            db.company_permissions (λ l p h. ground arith)))

-- The roles of the company have the same permissions.
abbrev pub SamePermissions : Externals → ℕ → Db → Db → Type 0
SamePermissions ext company_id db db' =
    (role_id : ℕ)
    → effective_permissions ext company_id role_id db'
      ≡ effective_permissions ext company_id role_id db

module _ (ext : Externals) (company_id other : ℕ) (apart : company_id ≢ other) (db : Db) where
  SamePermissions-of_rows :
      (db' : Db)
      → filter (of_company other) db'.company_permissions
        ≡ filter (of_company other) db.company_permissions
      → filter (link_of_company other) db'.company_role_permissions
        ≡ filter (link_of_company other) db.company_role_permissions
      → ((role_id : ℕ) → global_models db' role_id ≡ global_models db role_id)
      → SamePermissions ext other db db'
  unfolding effective_permissions
  SamePermissions-of_rows db' e k g role_id =
      let after = company_models-own db' other role_id in
      let before = company_models-own db other role_id in
      let same : company_models db' other role_id ≡ company_models db other role_id =
        rw (after, before, e, k) refl in
      rw (same, g role_id) refl

  -- Creating a permission of one company leaves those of another's roles as they were.
  create_permission-SamePermissions :
      (id : ℕ) (payload : PermissionCreateModel) (created_by : UserReadModel)
      → let s = (create_permission company_id id payload created_by (begin db)).1 in
        SamePermissions ext other db s.saved × SamePermissions ext other db s.live
  unfolding add_company_row new_company_row global_models
  create_permission-SamePermissions id payload created_by =
      elim (create_permission-cases company_id id payload created_by db) [
        | inl same ↦ rw same (λ r. refl, λ r. refl)
        | inr (unused, same) ↦
            let p = new_company_row company_id id payload created_by in
            let kept =
              SamePermissions-of_rows (add_company_row p db)
                (filter-append_dropped (of_company other) db.company_permissions p (ground arith))
                refl (λ r. refl) in
            rw same (kept, kept)
      ]

  others_row :
      HasUniqueIds db
      → (id : ℕ) (p : CompanyPermission) → IsOwn company_id id db p
      → (q : CompanyPermission) → Memᴰ q db.company_permissions
      → q.id ≡ id
      → q.company_id ≡ company_id
  others_row unique id p own q listed e =
      let same =
        eq_of_conflict (λ (x y : CompanyPermission). x.id == y.id) db.company_permissions unique
          listed own.listed (ground (arith, own.same_id)) (ground (arith, own.same_id)) in
      ap (λ (x : CompanyPermission). x.company_id) same ∙ own.same_company

  -- So does updating one, if identifiers are unique.
  update_permission-SamePermissions :
      HasUniqueIds db
      → (id : ℕ) (payload : PermissionUpdateModel)
      → let s = (update_permission company_id id payload (begin db)).1 in
        SamePermissions ext other db s.saved × SamePermissions ext other db s.live
  unfolding set_company_row apply_company_update global_models
  update_permission-SamePermissions unique id payload =
      elim (update_permission-cases company_id id payload db) [
        | inl same ↦ rw same (λ r. refl, λ r. refl)
        | inr (p, own, unused, same) ↦
            let kept =
              SamePermissions-of_rows (set_company_row id (apply_company_update payload) db)
                (filter-update_where (of_company other) (λ q. q.id == id)
                  (apply_company_update payload) db.company_permissions
                  (λ q m e.
                    let mine = others_row unique id p own q m (ground arith) in
                    (ground arith, ground arith)))
                refl (λ r. refl) in
            rw same (kept, kept)
      ]

  -- So does deleting one.
  delete_permission-SamePermissions :
      HasUniqueIds db
      → (id : ℕ)
      → let s = (delete_permission company_id id (begin db)).1 in
        SamePermissions ext other db s.saved × SamePermissions ext other db s.live
  unfolding remove_company_row remove_company_links global_models
  delete_permission-SamePermissions unique id = elim (delete_permission-cases company_id id db) [
    | inl same ↦ rw same (λ r. refl, λ r. refl)
    | inr (p, own, same) ↦
        let kept =
          SamePermissions-of_rows (remove_company_row id (remove_company_links company_id id db))
            (filter-filter (of_company other) (λ q. not (q.id == id)) db.company_permissions
              (λ q m e. ground (arith, others_row unique id p own q m)))
            (filter-filter (link_of_company other)
              (λ l. not ((l.company_id == company_id) && (l.company_permission_id == id)))
              db.company_role_permissions (λ l m e. ground arith))
            (λ r. refl) in
        rw same (kept, kept)
  ]

  -- If identifiers of company permissions are unique, creating, updating and deleting a permission of
  -- one company, whether the call returns or raises, leave the permissions that the roles of another
  -- company have as they were, as committed and as the session sees them.
  pub management-SamePermissions :
      HasUniqueIds db
      → (id permission_id : ℕ) (new : PermissionCreateModel) (update : PermissionUpdateModel)
      → (by : UserReadModel)
      → let same = λ (s : Session).
        SamePermissions ext other db s.saved × SamePermissions ext other db s.live in
        same (create_permission company_id id new by (begin db)).1
        × same (update_permission company_id permission_id update (begin db)).1
        × same (delete_permission company_id permission_id (begin db)).1
  management-SamePermissions unique id permission_id new update by = (
    create_permission-SamePermissions id new by,
    update_permission-SamePermissions unique permission_id update,
    delete_permission-SamePermissions unique permission_id,
  )
