-- ===== src/Companies/Placement.antt =====
-- app/repository/company.py: the roles of members under `CompanyRepository`.
use userverse.Base.{
  ℕ, String, refl, ap, subst, ◌&&◌, Option, none, some, [], ◌∷◌, Dict, is_none, is_some, ◌==◌,
  nat_Eq, string_Eq, mem-append_left,
}
use userverse.Messages.{company, company_already_exists, company_not_found, company_update_failed}
use userverse.Database.{
  UserReadModel, CompanyAddressModel, Company, Role, Db, Session, begin, app_error, no_result,
  Action, pure, ◌>>=◌, ◌>>◌, commit, modify, write_if, raise_if, on_integrity_error, or_raise, lift,
  Result, one_or_none, Holds, bind_rule, Keeps, Keeps-bind, Keeps-write_if, Keeps-commit,
  Keeps-or_raise, Keeps-on_integrity_error,
}
use userverse.SystemPermissions.{owner}
use userverse.Permission.{Externals}
use userverse.Roles.Assignment.{may_assign, add_assignment}
use userverse.Roles.Assignment.Placement.{IsPlaced, IsPlaced-same, IsEnabled-kept}
use userverse.CompanyUser.{CompanyUserAddModel, CompanyUserReadModel, add_user_to_company}
use userverse.CompanyUser.Placement.{add_user_to_company-IsPlaced}
use userverse.DefaultRoles.{ensure_default_roles}
use userverse.DefaultRoles.Placement.{Keeps-ensure_default_roles}
use userverse.Companies.{
  CompanyCreateModel, CompanyUpdateModel, CompanyReadModel, to_read_model, new_company,
  is_new_company, add_company, set_company, set_address, close_company, apply_company_update,
  with_address, get_company_record_by_id, get_company_record_by_email, write_address, enable_roles,
  set_up, create_company, update_company, delete_company,
}

IsPlaced-set_company :
    (id : ℕ) (f : Company → Company) (db : Db) → IsPlaced db → IsPlaced (set_company id f db)
unfolding set_company
IsPlaced-set_company id f db = IsPlaced-same db (set_company id f db) refl refl refl

IsPlaced-add_company : (c : Company) (db : Db) → IsPlaced db → IsPlaced (add_company c db)
unfolding add_company
IsPlaced-add_company c db = IsPlaced-same db (add_company c db) refl refl refl

IsPlaced-add_assignment :
    (company_id role_id : ℕ) (db : Db)
    → IsPlaced db
    → IsPlaced (add_assignment company_id role_id db)
unfolding add_assignment
IsPlaced-add_assignment company_id role_id db h = record {
  unique_ids = h.unique_ids;
  members_have_roles = λ a m o.
      IsEnabled-kept a.company_id a.role_id db (add_assignment company_id role_id db)
        (λ cr n. mem-append_left _ n) refl (h.members_have_roles a m o);
}

module _ (company_id : ℕ) where
  roles_enabled : (roles : Dict String Role) → Keeps IsPlaced (enable_roles company_id roles)
  unfolding enable_roles
  roles_enabled [] s h = h
  roles_enabled ((name, role) ∷ roles) s h =
      Keeps-bind IsPlaced
        (write_if (may_assign company_id role.id) (add_assignment company_id role.id))
        (λ _. enable_roles company_id roles)
        (Keeps-write_if IsPlaced (may_assign company_id role.id) (add_assignment company_id role.id)
          (λ db may k. IsPlaced-add_assignment company_id role.id db k))
        (λ _. roles_enabled roles) s h

  address_kept :
      (address : Option CompanyAddressModel) → Keeps IsPlaced (write_address company_id address)
  unfolding write_address
  address_kept none s h = h
  address_kept (some a) s h =
      let k = IsPlaced-set_company company_id (set_address a) s.live h.1 in (k, k)

  -- What follows a lookup of the company.
  reread_kept : Keeps IsPlaced (
      get_company_record_by_id company_id >>= λ found.
      (or_raise no_result found >>= λ c. pure (to_read_model c)))
  unfolding get_company_record_by_id
  reread_kept s h =
      Keeps-bind IsPlaced
        (lift (
          one_or_none (λ (c : Company). (c.id == company_id) && is_none c.closed_at)
            s.live.companies))
        (λ found. or_raise no_result found >>= λ c. pure (to_read_model c)) (λ t k. k)
        (λ found.
          Keeps-bind IsPlaced (or_raise no_result found) (λ c. pure (to_read_model c))
            (Keeps-or_raise IsPlaced no_result found) (λ c t k. k))
        s h

module _ (ext : Externals) (new_id : String → ℕ) (id : ℕ) (by : UserReadModel) where
  abbrev rereading : Action CompanyReadModel
  rereading = get_company_record_by_id id >>= λ found.
      (or_raise no_result found >>= λ c. pure (to_read_model c))

  abbrev first_member : CompanyUserAddModel
  first_member = record { email = by.email; role = owner }

  joining_kept :
      (db : Db)
      → IsPlaced db
      → Holds IsPlaced
          ((add_user_to_company ext id first_member by >>= λ _. rereading) (begin db)).1
  joining_kept db h =
      let joined = add_user_to_company-IsPlaced ext id first_member by db h in
      bind_rule (λ (r : Result CompanyReadModel × Session). Holds IsPlaced r.1)
        (add_user_to_company ext id first_member by) (λ _. rereading) (begin db)
        (λ e t ends.
          subst (Holds IsPlaced) (ap (λ (r : Result CompanyUserReadModel × Session). r.1) ends)
            joined)
        (λ m t ends. reread_kept id t (
          subst (Holds IsPlaced) (ap (λ (r : Result CompanyUserReadModel × Session). r.1) ends)
            joined))

  set_up_kept : Keeps IsPlaced (set_up ext new_id id by)
  unfolding set_up
  set_up_kept s h =
      let joining = add_user_to_company ext id first_member by >>= λ _. rereading in
      Keeps-bind IsPlaced (ensure_default_roles ext.uuid5 new_id)
        (λ roles. enable_roles id roles >> (commit >> joining))
        (Keeps-ensure_default_roles ext.uuid5 new_id)
        (λ roles.
          Keeps-bind IsPlaced (enable_roles id roles) (λ _. commit >> joining)
            (roles_enabled id roles) (λ _ t k. joining_kept t.live k.1))
        s h

  abbrev inserting : CompanyCreateModel → Action (Unit {0})
  inserting payload =
      on_integrity_error
        (write_if (is_new_company id payload.email) (add_company (new_company id payload))
          >> commit)
        (app_error 409 (company company_already_exists))

  inserting_kept : (payload : CompanyCreateModel) → Keeps IsPlaced (inserting payload)
  inserting_kept payload =
      Keeps-on_integrity_error IsPlaced
        (write_if (is_new_company id payload.email) (add_company (new_company id payload))
          >> commit)
        (app_error 409 (company company_already_exists))
        (Keeps-bind IsPlaced
          (write_if (is_new_company id payload.email) (add_company (new_company id payload)))
          (λ _. commit)
          (Keeps-write_if IsPlaced (is_new_company id payload.email)
            (add_company (new_company id payload))
            (λ db fresh k. IsPlaced-add_company (new_company id payload) db k))
          (λ _. Keeps-commit IsPlaced))

  -- The roles of members stay enabled, whether the creation returns or raises.
  pub create_company-IsPlaced :
      (payload : CompanyCreateModel) → Keeps IsPlaced (create_company ext new_id id payload by)
  unfolding create_company get_company_record_by_email
  create_company-IsPlaced payload s h =
      let exists = λ (existing : Option Company).
        raise_if (is_some existing) (app_error 409 (company company_already_exists)) in
      let last = write_address id payload.address >> set_up ext new_id id by in
      Keeps-bind IsPlaced
        (lift (
          one_or_none (λ (c : Company). (c.email == payload.email) && is_none c.closed_at)
            s.live.companies))
        (λ existing. exists existing >> (inserting payload >> last)) (λ t k. k)
        (λ existing.
          Keeps-bind IsPlaced (exists existing) (λ _. inserting payload >> last) (λ t k. k)
            (λ _.
              Keeps-bind IsPlaced (inserting payload) (λ _. last) (inserting_kept payload)
                (λ _.
                  Keeps-bind IsPlaced (write_address id payload.address)
                    (λ _. set_up ext new_id id by) (address_kept id payload.address)
                    (λ _. set_up_kept))))
        s h

module _ (company_id : ℕ) where
  pub update_company-IsPlaced :
      (payload : CompanyUpdateModel) → Keeps IsPlaced (update_company payload company_id)
  unfolding update_company get_company_record_by_id
  update_company-IsPlaced payload s h =
      let failed = app_error 400 (company company_update_failed) in
      let last = λ (c : Company).
        write_address c.id payload.address
        >> pure (to_read_model (with_address payload.address (apply_company_update payload c))) in
      Keeps-bind IsPlaced
        (lift (
          one_or_none (λ (c : Company). (c.id == company_id) && is_none c.closed_at)
            s.live.companies))
        (λ found. or_raise failed found >>= λ c.
          (modify (set_company c.id (apply_company_update payload)) >> (commit >> last c)))
        (λ t k. k)
        (λ found.
          Keeps-bind IsPlaced (or_raise failed found)
            (λ c. modify (set_company c.id (apply_company_update payload)) >> (commit >> last c))
            (Keeps-or_raise IsPlaced failed found)
            (λ c t k.
              let updated = IsPlaced-set_company c.id (apply_company_update payload) t.live k.1 in
              Keeps-bind IsPlaced (write_address c.id payload.address)
                (λ _.
                  pure
                    (to_read_model (with_address payload.address (apply_company_update payload c))))
                (address_kept c.id payload.address) (λ _ u kept. kept)
                (begin (set_company c.id (apply_company_update payload) t.live))
                (updated, updated)))
        s h

  pub delete_company-IsPlaced : (now : ℕ) → Keeps IsPlaced (delete_company now company_id)
  unfolding delete_company get_company_record_by_id
  delete_company-IsPlaced now s h =
      let failed = app_error 404 (company company_not_found) in
      Keeps-bind IsPlaced
        (lift (
          one_or_none (λ (c : Company). (c.id == company_id) && is_none c.closed_at)
            s.live.companies))
        (λ found.
          or_raise failed found >>= λ c. (modify (set_company c.id (close_company now)) >> commit))
        (λ t k. k)
        (λ found.
          Keeps-bind IsPlaced (or_raise failed found)
            (λ c. modify (set_company c.id (close_company now)) >> commit)
            (Keeps-or_raise IsPlaced failed found)
            (λ c t k.
              let closed = IsPlaced-set_company c.id (close_company now) t.live k.1 in
              (closed, closed)))
        s h
