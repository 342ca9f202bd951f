-- ===== src/Permission/Service/Plain.antt =====
-- app/services/permission.py: what users who are no superusers cannot change.
use userverse.Base.{
  ℕ, Bool, ◌≡◌, refl, ap, ◌∙◌, true, false, not, List, [], ◌∷◌, all, inl, inr, arith,
}
use userverse.Database.{UserReadModel, Db, Session, begin, Action, ◌>>◌, Keeps-bind, Holds}
use userverse.SystemPermissions.{
  SystemPermission, company_permissions_create, company_permissions_read,
  company_permissions_update, company_permissions_delete, company_permissions_assign,
  company_permissions_unassign,
}
use userverse.Authorization.{is_authorized}
use userverse.Authorization.Laws.{require_iff, SameAccess, SameAccess-companies}
use userverse.Permission.{Externals}
use userverse.Permission.Company
use userverse.Permission.Role
use userverse.Permission.Platform
use userverse.Permission.Company.Steps.{ensure_company-cases}
use userverse.Permission.Company.Writes.{
  DiffersInCompanies, KeepsOthers, Keeps-same, create_permission-KeepsOthers,
  update_permission-KeepsOthers, delete_permission-KeepsOthers, get_permissions-same,
}
use userverse.Permission.Role.Writes.{
  assign_company_permission-KeepsOthers, remove_company_permission-KeepsOthers,
}
use userverse.Permission.Role.Steps.{get_company_role_permissions-same}
use userverse.Permission.Platform.Access.{get_effective_permissions-same}
use userverse.Permission.Service.{
  ensure_superuser, ensure_company_permission, create_global_permission, get_global_permissions,
  update_global_permission, delete_global_permission, create_company_permission,
  get_company_permissions, update_company_permission, delete_company_permission,
  get_global_role_permissions, assign_global_permission, remove_global_permission,
  get_company_role_permissions, assign_company_permission, remove_company_permission,
  get_platform_roles, assign_platform_role, remove_platform_role, get_my_platform_permissions,
}
use userverse.Permission.Service.Calls.{
  Call, create_global, list_global, update_global, delete_global, create_company, list_company,
  update_company, delete_company, read_global_role, assign_global, remove_global, read_company_role,
  assign_company, remove_company, read_platform, assign_platform, remove_platform, read_mine,
  session_after, committed_after,
}

module _ (ext : Externals) (current : UserReadModel) (plain : current.is_superuser ≡ false)
    (db : Db) where
  ensure_company_permission-same :
      (company_id : ℕ) (p : SystemPermission) (s : Session)
      → (ensure_company_permission ext current company_id p s).1 ≡ s
  unfolding ensure_company_permission
  ensure_company_permission-same company_id p s =
      let required = require_iff ext.uuid5 current company_id p s in
      elim (ensure_company-cases company_id s) [
        | inl (e, raised) ↦ ground (arith, raised)
        | inr (c, returned) ↦ ground (arith, returned, required.2)
      ]

  gated :
      {A : Type 0} (company_id : ℕ) (p : SystemPermission) (m : Action A)
      → KeepsOthers db m
      → KeepsOthers db (ensure_company_permission ext current company_id p >> m)
  gated company_id p m keeps =
      Keeps-bind (DiffersInCompanies db) (ensure_company_permission ext current company_id p)
        (λ _. m)
        (Keeps-same db (ensure_company_permission ext current company_id p)
          (ensure_company_permission-same company_id p))
        (λ _. keeps)

  -- A call leaves every table but two as it was.
  session_after-KeepsOthers :
      (c : Call) (s : Session)
      → Holds (DiffersInCompanies db) s
      → Holds (DiffersInCompanies db) (session_after ext current c s)
  unfolding session_after create_global_permission get_global_permissions update_global_permission
      delete_global_permission create_company_permission get_company_permissions
      update_company_permission delete_company_permission get_global_role_permissions
      assign_global_permission remove_global_permission get_company_role_permissions
      assign_company_permission remove_company_permission get_platform_roles assign_platform_role
      remove_platform_role get_my_platform_permissions ensure_superuser
  session_after-KeepsOthers (create_global id payload) s h = ground (arith, plain)
  session_after-KeepsOthers (list_global ilike row_le payload) s h = ground (arith, plain)
  session_after-KeepsOthers (update_global id payload) s h = ground (arith, plain)
  session_after-KeepsOthers (delete_global id) s h = ground (arith, plain)
  session_after-KeepsOthers (read_global_role r) s h = ground (arith, plain)
  session_after-KeepsOthers (assign_global r p) s h = ground (arith, plain)
  session_after-KeepsOthers (remove_global r p) s h = ground (arith, plain)
  session_after-KeepsOthers (read_platform role_le id) s h = ground (arith, plain)
  session_after-KeepsOthers (assign_platform role_le id r) s h = ground (arith, plain)
  session_after-KeepsOthers (remove_platform role_le id r) s h = ground (arith, plain)
  session_after-KeepsOthers (read_mine role_le) s h =
      Keeps-same db (Platform.get_effective_permissions ext role_le current.id)
        (get_effective_permissions-same ext role_le current.id) s h
  session_after-KeepsOthers (create_company c id payload) s h =
      gated c company_permissions_create (Company.create_permission c id payload current)
        (create_permission-KeepsOthers db c id payload current) s h
  session_after-KeepsOthers (list_company ilike row_le c payload) s h =
      gated c company_permissions_read (Company.get_permissions c ilike row_le payload)
        (Keeps-same db (Company.get_permissions c ilike row_le payload)
          (get_permissions-same db c ilike row_le payload))
        s h
  session_after-KeepsOthers (update_company c id payload) s h =
      gated c company_permissions_update (Company.update_permission c id payload)
        (update_permission-KeepsOthers db c id payload) s h
  session_after-KeepsOthers (delete_company c id) s h =
      gated c company_permissions_delete (Company.delete_permission c id)
        (delete_permission-KeepsOthers db c id) s h
  session_after-KeepsOthers (read_company_role c r) s h =
      gated c company_permissions_read (Role.get_company_role_permissions ext c r)
        (Keeps-same db (Role.get_company_role_permissions ext c r)
          (get_company_role_permissions-same ext c r))
        s h
  session_after-KeepsOthers (assign_company c r p) s h =
      gated c company_permissions_assign (Role.assign_company_permission ext c r p)
        (assign_company_permission-KeepsOthers ext db c r p) s h
  session_after-KeepsOthers (remove_company c r p) s h =
      gated c company_permissions_unassign (Role.remove_company_permission ext c r p)
        (remove_company_permission-KeepsOthers ext db c r p) s h

-- The users of the requests are no superusers.
abbrev all_plain : List (UserReadModel × Call) → Bool
all_plain calls = all (λ (request : UserReadModel × Call). not request.0.is_superuser) calls

committed_after-Differs :
    (ext : Externals) (calls : List (UserReadModel × Call)) (db later : Db)
    → all_plain calls ≡ true
    → DiffersInCompanies db later
    → DiffersInCompanies db (committed_after ext calls later)
unfolding committed_after session_after
committed_after-Differs ext [] db later plain h = h
committed_after-Differs ext ((u, c) ∷ calls) db later plain h =
    let kept = session_after-KeepsOthers ext u (ground (arith, plain)) db c (begin later) (h, h) in
    committed_after-Differs ext calls db (session_after ext u c (begin later)).saved
      (ground (arith, plain)) kept.0

-- Whatever requests users who are no superusers make of the service for permissions, with whatever
-- outcomes, what is committed after them differs at most in the permissions of companies and their
-- links to roles: no global permission, no link of one to a role, no platform role of a user and no
-- other table changes, and nobody's access changes.
pub committed_after-SameAccess :
    (ext : Externals) (calls : List (UserReadModel × Call)) (db : Db)
    → all_plain calls ≡ true
    → DiffersInCompanies db (committed_after ext calls db)
      × SameAccess ext.uuid5 db (committed_after ext calls db)
committed_after-SameAccess ext calls db plain =
    let later = committed_after ext calls db in
    let differs = committed_after-Differs ext calls db db plain refl in
    (
      differs,
      λ user_id company_id permission.
          ap (λ (x : Db). is_authorized ext.uuid5 user_id company_id permission x) differs
          ∙ SameAccess-companies ext.uuid5 db later.company_permissions
              later.company_role_permissions user_id company_id permission,
    )
