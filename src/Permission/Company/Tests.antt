-- ===== src/Permission/Company/Tests.antt =====
-- app/repository/permission.py: `CompanyPermissionRepository` on a database with two companies.
use Prim.Native.String.{count}
use userverse.Base.{ℕ, ◌≡◌, refl, true, none, some, [], ◌∷◌, arith}
use userverse.Messages.{already_exists, not_found}
use userverse.Database.{
  Session, CompanyPermission, CompanyRolePermission, Db, begin, err, one_or_none,
}
use userverse.Database.Samples.{ann, acme, viewer_enabled, small}
use userverse.Permission.{
  PermissionCreateModel, PermissionUpdateModel, Externals, company_permission_model, failure,
}
use userverse.Permission.Company.{
  ensure_company, get_record, ensure_record, is_unused, new_company_row, add_company_row,
  is_unused_by_others, apply_company_update, set_company_row, remove_company_row,
  remove_company_links, create_permission, update_permission, delete_permission,
}
use userverse.Permission.Company.Isolation.{
  HasUniqueIds, SamePermissions, management-SamePermissions,
}

abbrev lengths : Externals
lengths = record { uuid5 = count; key_le = λ p q. true }

managing : Unit {0}
unfolding ensure_company get_record ensure_record is_unused new_company_row add_company_row
    is_unused_by_others apply_company_update set_company_row remove_company_row remove_company_links
    create_permission update_permission delete_permission one_or_none company_permission_model
managing = tt

-- Both companies have a permission of one name, linked to the viewers.
abbrev invoices : ℕ → ℕ → CompanyPermission
invoices id company_id = record {
  id = id;
  company_id = company_id;
  name = "invoices";
  description = none;
  closed_at = none;
  primary_meta_data = [];
}

abbrev viewers_link : ℕ → ℕ → CompanyRolePermission
viewers_link id company_id = record {
  company_id = company_id;
  role_id = 7;
  company_permission_id = id;
  closed_at = none;
}

abbrev two : Db
two = record small {
  companies = acme ∷ record acme { id = 2; email = "b@x.org" } ∷ [];
  company_roles = viewer_enabled ∷ record viewer_enabled { company_id = 2 } ∷ [];
  company_permissions = invoices 60 1 ∷ invoices 61 2 ∷ [];
  company_role_permissions = viewers_link 60 1 ∷ viewers_link 61 2 ∷ [];
}

abbrev payload : PermissionCreateModel
payload = record { name = "invoices"; description = none }

abbrev renamed : PermissionUpdateModel
renamed = record { name = some "bills"; description = none }

taken_name_is_refused :
    (create_permission 1 62 payload ann (begin two)).0 ≡ err (failure 409 already_exists)
unfolding managing
taken_name_is_refused = refl

foreign_permission_is_not_found :
    (delete_permission 1 61 (begin two)).0 ≡ err (failure 404 not_found)
unfolding managing
foreign_permission_is_not_found = refl

own_permission_goes :
    (delete_permission 1 60 (begin two)).1.saved.company_role_permissions ≡ viewers_link 61 2 ∷ []
unfolding managing
own_permission_goes = refl

two-HasUniqueIds : HasUniqueIds two
two-HasUniqueIds = (refl, (refl, tt))

management-SamePermissions_example :
    let same = λ (s : Session).
      SamePermissions lengths 2 two s.saved × SamePermissions lengths 2 two s.live in
    same (create_permission 1 62 payload ann (begin two)).1
    × same (update_permission 1 60 renamed (begin two)).1
    × same (delete_permission 1 60 (begin two)).1
management-SamePermissions_example =
    management-SamePermissions lengths 1 2 (λ e. omega (arith, e)) two two-HasUniqueIds 62 60
      payload renamed ann
