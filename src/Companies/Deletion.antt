-- ===== src/Companies/Deletion.antt =====
-- app/repository/company.py with app/services/company/authorization.py: what the deletion of a
-- company takes away.
use userverse.Base.{
  ℕ, String, ◌≡◌, refl, sym, ap, ◌∙◌, ◌⊎◌, inl, inr, false, ◌&&◌, some, Memᴰ, arith,
  mem-update_where_inv, is_none, Bool-cases, ◌==◌, nat_Eq,
}
use userverse.Messages.{company, company_not_found}
use userverse.Database.{Company, Db, begin, Error, app_error, ok, err, one_or_none-cases}
use userverse.SystemPermissions.{SystemPermission}
use userverse.Authorization.{is_authorized}
use userverse.Authorization.Laws.{is_authorized_iff}
use userverse.Companies.{set_company, close_company, get_company_record_by_id, delete_company}

module _ (now company_id : ℕ) (db : Db) where
  -- A deletion raises and leaves the database as it was, or it closes the company and commits that.
  delete_company-cases :
      ((e : Error) × (delete_company now company_id (begin db) ≡ (err e, begin db)))
      ⊎ (delete_company now company_id (begin db)
          ≡ (ok tt, begin (set_company company_id (close_company now) db)))
  unfolding delete_company get_company_record_by_id
  delete_company-cases =
      elim (one_or_none-cases (λ (c : Company). (c.id == company_id) && is_none c.closed_at)
        db.companies) [
          | inl (e, failed) ↦ inl (e, ground (arith, failed))
          | inr (inl (absent, none_passes)) ↦
              inl (app_error 404 (company company_not_found), ground (arith, absent))
          | inr (inr (c, present, listed, passes)) ↦
              let same_id : c.id ≡ company_id = ground arith in
              inr (ground (arith, present, same_id))
        ]

  -- The company's rows are closed.
  closed_after :
      (c : Company)
      → Memᴰ c (set_company company_id (close_company now) db).companies
      → c.id ≡ company_id
      → c.closed_at ≡ some now
  unfolding set_company close_company
  closed_after c m same_id =
      let (b, listed, e) =
        mem-update_where_inv (λ (x : Company). x.id == company_id) (close_company now) db.companies
          m in
      elim (Bool-cases (b.id == company_id)) [
        | inl its ↦
            let same : c ≡ close_company now b = e ∙ (rw its refl) in
            ap (λ (x : Company). x.closed_at) same
        | inr other ↦
            let same : c ≡ b = e ∙ (rw other refl) in
            absurd
              (let b_id = sym (ap (λ (x : Company). x.id) same) ∙ same_id in ground (arith, b_id))
      ]

  -- After a company was deleted, no user has any permission in it.
  pub is_authorized-delete_company :
      (uuid5 : String → ℕ) (user_id : ℕ) (permission : SystemPermission)
      → (delete_company now company_id (begin db)).0 ≡ ok tt
      → let s = (delete_company now company_id (begin db)).1 in
        is_authorized uuid5 user_id company_id permission s.live ≡ false
  is_authorized-delete_company uuid5 user_id permission returned = elim (delete_company-cases) [
    | inl (e, raised) ↦ absurd (cc (raised, returned))
    | inr same ↦
        let after = set_company company_id (close_company now) db in
        rw same (elim (Bool-cases (is_authorized uuid5 user_id company_id permission after)) [
          | inr refused ↦ refused
          | inl authorized ↦
              let grant =
                (is_authorized_iff uuid5 user_id company_id permission after).0 authorized in
              let closed = closed_after grant.company_row grant.company_listed grant.same_company in
              absurd (cc (closed, grant.company_open))
        ])
  ]
