-- ===== src/Companies/Owner.antt =====
-- app/repository/company.py with app/repository/company_user.py: who owns a company that was created.
use userverse.Base.{
  ℕ, String, ◌≡◌, refl, sym, ap, subst, inl, inr, ◌&&◌, none, Memᴰ, arith, is_none, is_some, ◌==◌,
  nat_Eq, string_Eq, Option,
}
use userverse.Messages.{company, company_already_exists}
use userverse.Database.{
  UserReadModel, Company, Db, Session, begin, Error, app_error, no_result, Result, ok, err, Action,
  pure, ◌>>=◌, ◌>>◌, commit, raise_if, write_if, on_integrity_error, or_raise, or_raise-cases,
  bind_rule,
}
use userverse.SystemPermissions.{owner}
use userverse.Permission.{Externals}
use userverse.CompanyUser.{CompanyUserReadModel, add_user_to_company}
use userverse.CompanyUser.Joined.{IsMember, add_user_to_company-IsMember}
use userverse.DefaultRoles.{ensure_default_roles}
use userverse.Companies.{
  CompanyCreateModel, CompanyReadModel, to_read_model, new_company, is_new_company, add_company,
  get_company_record_by_id, get_company_record_by_email, write_address, enable_roles, set_up,
  create_company,
}

-- An open company whose owner is the user of an email, all of which is committed.
pub record IsFounded (company_id : ℕ) (email : String) (s : Session) : Type 0 where
  pub member : IsMember company_id email owner s.live
  pub company_row : Company
  pub company_listed : Memᴰ company_row s.live.companies
  pub same_id : company_row.id ≡ company_id
  pub company_open : company_row.closed_at ≡ none
  pub committed : s.saved ≡ s.live

module _ (ext : Externals) (new_id : String → ℕ) (id : ℕ) (by : UserReadModel) where
  -- What a call promises if it returns.
  abbrev Founds : Result CompanyReadModel × Session → Type 0
  Founds r = (m : CompanyReadModel) → r.0 ≡ ok m → IsFounded id by.email r.1

  Founds-err : (e : Error) (t : Session) → Founds (err e, t)
  Founds-err e t m h = absurd (cc h)

  abbrev rereading : Action CompanyReadModel
  rereading = get_company_record_by_id id >>= λ found.
      (or_raise no_result found >>= λ c. pure (to_read_model c))

  abbrev joining : Action CompanyReadModel
  joining =
      add_user_to_company ext id (record { email = by.email; role = owner }) by >>= λ _. rereading

  abbrev inserting : CompanyCreateModel → Action (Unit {0})
  inserting payload =
      on_integrity_error
        (write_if (is_new_company id payload.email) (add_company (new_company id payload))
          >> commit)
        (app_error 409 (company company_already_exists))

  -- The last steps: the row is read again.
  reread : (after : Db) → IsMember id by.email owner after → Founds (rereading (begin after))
  unfolding get_company_record_by_id
  reread after member m returned =
      elim (or_raise-cases (λ db. db.companies)
        (λ (c : Company). (c.id == id) && is_none c.closed_at) no_result (begin after)) [
          | inl (e, raised) ↦ absurd (ground (arith, raised, returned))
          | inr (c, found, listed, passes) ↦
              let founded : IsFounded id by.email (begin after) = record {
                member = member;
                company_row = c;
                company_listed = listed;
                same_id = ground arith;
                company_open = ground arith;
                committed = refl;
              } in
              let ends : (rereading (begin after)).1 ≡ begin after = ground (arith, found) in
              subst (λ (t : Session). IsFounded id by.email t) (sym ends) founded
        ]

  -- The first member joins, in a session where everything is committed.
  joins : (db : Db) → Founds (joining (begin db))
  joins db =
      bind_rule Founds (add_user_to_company ext id (record { email = by.email; role = owner }) by)
        (λ _. rereading) (begin db) (λ e t ends. Founds-err e t)
        (λ m t ends.
          let returned = ap (λ (r : Result CompanyUserReadModel × Session). r.0) ends in
          let (after, same, member, same_companies) =
            add_user_to_company-IsMember ext id (record { email = by.email; role = owner }) by db m
              returned in
          let t_is : begin after ≡ t = cc (same, ends) in
          subst (λ (u : Session). Founds (rereading u)) t_is (reread after member))

  founds_set_up : (s : Session) → Founds (set_up ext new_id id by s)
  unfolding set_up
  founds_set_up s =
      bind_rule Founds (ensure_default_roles ext.uuid5 new_id)
        (λ roles. enable_roles id roles >> (commit >> joining)) s (λ e t ends. Founds-err e t)
        (λ roles t ends.
          bind_rule Founds (enable_roles id roles) (λ _. commit >> joining) t
            (λ e u ended. Founds-err e u) (λ _ u ended. joins u.live))

  -- What follows the test for an open company with the email.
  founds_new :
      (payload : CompanyCreateModel) (s : Session)
      → Founds
          ((inserting payload >> (write_address id payload.address >> set_up ext new_id id by)) s)
  founds_new payload s =
      bind_rule Founds (inserting payload)
        (λ _. write_address id payload.address >> set_up ext new_id id by) s
        (λ e t ends. Founds-err e t)
        (λ _ t ends.
          bind_rule Founds (write_address id payload.address) (λ _. set_up ext new_id id by) t
            (λ e u ended. Founds-err e u) (λ _ u ended. founds_set_up u))

  -- If the creation of a company returns, the company is open and the user whom the creator's email
  -- finds is an open member in the role Owner, which is open and enabled for it; and nothing is left
  -- uncommitted.
  pub create_company-IsFounded :
      (payload : CompanyCreateModel) (s : Session) (m : CompanyReadModel)
      → (create_company ext new_id id payload by s).0 ≡ ok m
      → IsFounded id by.email (create_company ext new_id id payload by s).1
  unfolding create_company
  create_company-IsFounded payload s =
      let exists = λ (existing : Option Company).
        raise_if (is_some existing) (app_error 409 (company company_already_exists)) in
      let new =
        inserting payload >> (write_address id payload.address >> set_up ext new_id id by) in
      bind_rule Founds (get_company_record_by_email payload.email)
        (λ existing. exists existing >> new) s (λ e t ends. Founds-err e t)
        (λ existing t ends.
          bind_rule Founds (exists existing) (λ _. new) t (λ e u ended. Founds-err e u)
            (λ _ u ended. founds_new payload u))
