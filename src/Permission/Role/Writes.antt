-- ===== src/Permission/Role/Writes.antt =====
-- app/repository/permission.py: a call on the links of a company's role writes no table but that of
-- those links.
use userverse.Base.{ℕ, ◌≡◌, arith, is_some}
use userverse.Messages.{not_found, already_assigned, assignment_not_found}
use userverse.Database.{
  Role, CompanyPermission, Db, Session, Action, Keeps-bind, Keeps-write_if, Keeps-or_raise,
  Keeps-on_integrity_error, ◌>>=◌, ◌>>◌, gets, modify, commit, write_if, raise_if, or_raise,
  select_one, on_integrity_error,
}
use userverse.Permission.{RoleReadModel, Externals, failure}
use userverse.Permission.Effective.{company_role_read}
use userverse.Permission.Company
use userverse.Permission.Company.Writes.{
  DiffersInCompanies, KeepsOthers, Keeps-same, Differs-set, ensure_record-same,
}
use userverse.Permission.Role.{
  ensure_role, ensure_company_role, links_company, may_link_company, link_company, unlink_company,
  assign_company_permission, remove_company_permission,
}

module _ (ext : Externals) (db : Db) (company_id role_id permission_id : ℕ) where
  ensure_company_role-same : (s : Session) → (ensure_company_role company_id role_id s).1 ≡ s
  unfolding ensure_company_role
  ensure_company_role-same s = ground arith

  ensure_role-same : (s : Session) → (ensure_role role_id s).1 ≡ s
  unfolding ensure_role
  ensure_role-same s = ground arith

  -- What follows the checks of the role, its assignment and the permission.
  checked_first :
      (rest : Role → CompanyPermission → Action RoleReadModel)
      → ((r : Role) (p : CompanyPermission) → KeepsOthers db (rest r p))
      → KeepsOthers db (
          ensure_company_role company_id role_id >>= λ _.
          (ensure_role role_id >>= λ r.
          (Company.ensure_record company_id permission_id >>= rest r)))
  checked_first rest keeps =
      Keeps-bind (DiffersInCompanies db) (ensure_company_role company_id role_id)
        (λ _.
          ensure_role role_id >>= λ r. (Company.ensure_record company_id permission_id >>= rest r))
        (Keeps-same db (ensure_company_role company_id role_id) ensure_company_role-same)
        (λ _.
          Keeps-bind (DiffersInCompanies db) (ensure_role role_id)
            (λ r. Company.ensure_record company_id permission_id >>= rest r)
            (Keeps-same db (ensure_role role_id) ensure_role-same)
            (λ r.
              Keeps-bind (DiffersInCompanies db) (Company.ensure_record company_id permission_id)
                (rest r)
                (Keeps-same db (Company.ensure_record company_id permission_id)
                  (ensure_record-same db company_id permission_id))
                (keeps r)))

  abbrev linking : CompanyPermission → Action (Unit {0})
  linking p =
      on_integrity_error
        (write_if (may_link_company company_id role_id p.id) (link_company company_id role_id p.id)
          >> commit)
        (failure 404 not_found)

  linking-KeepsOthers : (p : CompanyPermission) → KeepsOthers db (linking p)
  unfolding link_company
  linking-KeepsOthers p =
      let write =
        write_if (may_link_company company_id role_id p.id)
          (link_company company_id role_id p.id) in
      Keeps-on_integrity_error (DiffersInCompanies db) (write >> commit) (failure 404 not_found) (
        Keeps-bind (DiffersInCompanies db) write (λ _. commit)
          (Keeps-write_if (DiffersInCompanies db) (may_link_company company_id role_id p.id)
            (link_company company_id role_id p.id)
            (λ db' free h.
              Differs-set db db'.company_permissions
                (link_company company_id role_id p.id db').company_role_permissions db' h))
          (λ _ t h. (h.1, h.1)))

  pub assign_company_permission-KeepsOthers :
      KeepsOthers db (assign_company_permission ext company_id role_id permission_id)
  unfolding assign_company_permission
  assign_company_permission-KeepsOthers =
      let reread = λ (r : Role). gets (company_role_read ext company_id r) in
      checked_first
        (λ r p.
          select_one (λ x. x.company_role_permissions) (links_company company_id role_id p.id)
          >>= λ existing.
              (raise_if (is_some existing) (failure 409 already_assigned)
                >> (linking p >> reread r)))
        (λ r p.
          Keeps-bind (DiffersInCompanies db)
            (select_one (λ x. x.company_role_permissions) (links_company company_id role_id p.id))
            (λ existing.
              raise_if (is_some existing) (failure 409 already_assigned) >> (linking p >> reread r))
            (λ t h. h)
            (λ existing.
              Keeps-bind (DiffersInCompanies db)
                (raise_if (is_some existing) (failure 409 already_assigned))
                (λ _. linking p >> reread r) (λ t h. h)
                (λ _.
                  Keeps-bind (DiffersInCompanies db) (linking p) (λ _. reread r)
                    (linking-KeepsOthers p) (λ _ t h. h))))

  pub remove_company_permission-KeepsOthers :
      KeepsOthers db (remove_company_permission ext company_id role_id permission_id)
  unfolding remove_company_permission unlink_company
  remove_company_permission-KeepsOthers =
      let reread = λ (r : Role). gets (company_role_read ext company_id r) in
      let unlinking = λ (r : Role).
        modify (unlink_company company_id role_id permission_id) >> (commit >> reread r) in
      let found =
        select_one (λ x. x.company_role_permissions)
          (links_company company_id role_id permission_id) in
      checked_first
        (λ r p.
          found >>= λ link. (or_raise (failure 404 assignment_not_found) link >>= λ _. unlinking r))
        (λ r p.
          Keeps-bind (DiffersInCompanies db) found
            (λ link. or_raise (failure 404 assignment_not_found) link >>= λ _. unlinking r)
            (λ t h. h)
            (λ link.
              Keeps-bind (DiffersInCompanies db) (or_raise (failure 404 assignment_not_found) link)
                (λ _. unlinking r)
                (Keeps-or_raise (DiffersInCompanies db) (failure 404 assignment_not_found) link)
                (λ _ t h.
                  let unlinked =
                    Differs-set db t.live.company_permissions
                      (unlink_company company_id role_id permission_id
                        t.live).company_role_permissions
                      t.live h.1 in
                  (unlinked, unlinked))))
