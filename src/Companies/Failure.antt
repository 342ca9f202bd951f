-- ===== src/Companies/Failure.antt =====
-- app/repository/company.py: the creation of a company where a default role was closed.
use userverse.Base.{
  ℕ, String, ◌≡◌, refl, ◌∙◌, true, false, ◌&&◌, none, arith, is_none, ◌==◌, string_Eq,
}
use userverse.Database.{
  UserReadModel, Company, Role, Db, Session, begin, ok, err, integrity_error, one_or_none,
}
use userverse.SystemPermissions.{owner}
use userverse.Permission.{Externals}
use userverse.Roles.Repository.{is_new_role}
use userverse.Roles.Repository.Rows.{is_new_role-same}
use userverse.DefaultRoles.Failure.{ensure_default_roles-closed_owner}
use userverse.Companies.{
  CompanyCreateModel, new_company, is_new_company, add_company, get_company_record_by_email,
  write_address, set_up, create_company,
}

module _ (ext : Externals) (new_id : String → ℕ) (id : ℕ) (by : UserReadModel)
    (payload : CompanyCreateModel) (db : Db) where
  set_up-closed_owner :
      (s : Session)
      → one_or_none (λ (r : Role). (r.name == owner) && is_none r.closed_at) s.live.roles ≡ ok none
      → is_new_role (new_id owner) owner s.live ≡ false
      → set_up ext new_id id by s ≡ (err integrity_error, s)
  unfolding set_up
  set_up-closed_owner s absent taken =
      let raised = ensure_default_roles-closed_owner ext.uuid5 new_id s absent taken in
      ground (arith, raised)

  new_after :
      is_new_role (new_id owner) owner db ≡ false
      → is_new_role (new_id owner) owner (add_company (new_company id payload) db) ≡ false
  unfolding add_company
  new_after h =
      is_new_role-same (new_id owner) owner db (add_company (new_company id payload) db) refl ∙ h

  -- If there is no open role Owner but its name or identifier is taken, and the company's identifier
  -- and email are new, then the creation of a company without an address raises `IntegrityError`, and
  -- the row of the company is committed all the same, with nothing else.
  pub create_company-closed_owner :
      one_or_none (λ (c : Company). (c.email == payload.email) && is_none c.closed_at) db.companies
        ≡ ok none
      → is_new_company id payload.email db ≡ true
      → payload.address ≡ none
      → one_or_none (λ (r : Role). (r.name == owner) && is_none r.closed_at) db.roles ≡ ok none
      → is_new_role (new_id owner) owner db ≡ false
      → create_company ext new_id id payload by (begin db)
        ≡ (err integrity_error, begin (add_company (new_company id payload) db))
  unfolding create_company get_company_record_by_email write_address add_company
  create_company-closed_owner absent fresh no_address no_role taken =
      let after = begin (add_company (new_company id payload) db) in
      let raised = set_up-closed_owner after no_role (new_after taken) in
      ground (arith, absent, fresh, no_address, raised)
