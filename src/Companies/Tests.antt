-- ===== src/Companies/Tests.antt =====
-- app/repository/company.py: one company is created, and deleted.
use Prim.Native.String.{count}
use userverse.Base.{
  ℕ, String, ◌≡◌, refl, true, false, none, some, [], ◌∷◌, lookup, put, ◌&&◌, is_none, ◌==◌,
  string_Eq,
}
use userverse.Database.{
  Db, Role, Company, begin, integrity_error, app_error, ok, err, one_or_none, at_most_one,
}
use userverse.Messages.{company, company_not_found}
use userverse.Database.Samples.{ann, viewer_row, small}
use userverse.Authorization.{is_authorized}
use userverse.SystemPermissions.{company_read, owner}
use userverse.Permission.{Externals}
use userverse.Roles.Repository.{is_new_role}
use userverse.DefaultRoles.{
  company_default_roles, default_row, describe, ensure_default_role, ensure_each,
  seed_new_default_roles, ensure_default_roles,
}
use userverse.Roles.Assignment.{
  is_assignment, may_assign, add_assignment, is_assigned_name, get_role_name_assigned,
  ensure_role_name_assigned,
}
use userverse.Permission.Effective.{
  company_link, global_models, company_models, effective_permissions,
}
use userverse.Permission.Role.{ensure_company_role, get_company_role_permissions}
use userverse.CompanyUser.{
  is_membership, find_membership, may_join, new_membership, add_membership, to_company_user,
  add_user_to_company,
}
use userverse.Companies.{
  CompanyCreateModel, CompanyReadModel, to_read_model, new_company, is_new_company, add_company,
  set_company, close_company, get_company_record_by_id, get_company_record_by_email, write_address,
  enable_roles, set_up, create_company, delete_company,
}
use userverse.Companies.Owner.{IsFounded, create_company-IsFounded}
use userverse.Companies.Deletion.{is_authorized-delete_company}
use userverse.Companies.Failure.{create_company-closed_owner}

abbrev lengths : Externals
lengths = record { uuid5 = count; key_le = λ p q. true }

deleting : Unit {0}
unfolding set_company close_company get_company_record_by_id delete_company one_or_none at_most_one
deleting = tt

delete_returns : (delete_company 100 1 (begin small)).0 ≡ ok tt
unfolding deleting
delete_returns = refl

second_deletion_is_refused :
    (delete_company 101 1 (delete_company 100 1 (begin small)).1).0
    ≡ err (app_error 404 (company company_not_found))
unfolding deleting
second_deletion_is_refused = refl

is_authorized-delete_company_example :
    is_authorized count 3 1 company_read (delete_company 100 1 (begin small)).1.live ≡ false
is_authorized-delete_company_example =
    is_authorized-delete_company 100 1 small count 3 company_read delete_returns

abbrev beta : CompanyCreateModel
beta = record {
  name = some "Beta";
  description = none;
  industry = none;
  phone_number = none;
  email = "beta@x.org";
  address = none;
}

-- A database whose role Owner was closed.
abbrev closed_owner : Db
closed_owner = record small {
  roles = viewer_row ∷ record viewer_row { id = 30; name = "Owner"; closed_at = some 90 } ∷ [];
}

no_beta :
    one_or_none
      (λ (c : Company). (c.email == "beta@x.org") && is_none c.closed_at)
      closed_owner.companies
    ≡ ok none
unfolding one_or_none at_most_one
no_beta = refl

beta_is_new : is_new_company 2 "beta@x.org" closed_owner ≡ true
unfolding is_new_company
beta_is_new = refl

no_open_owner :
    one_or_none (λ (r : Role). (r.name == owner) && is_none r.closed_at) closed_owner.roles
    ≡ ok none
unfolding one_or_none at_most_one
no_open_owner = refl

owner_is_taken : is_new_role (count owner) owner closed_owner ≡ false
unfolding is_new_role
owner_is_taken = refl

create_company-closed_owner_example :
    create_company lengths count 2 beta ann (begin closed_owner)
    ≡ (err integrity_error, begin (add_company (new_company 2 beta) closed_owner))
create_company-closed_owner_example =
    create_company-closed_owner lengths count 2 ann beta closed_owner no_beta beta_is_new refl
      no_open_owner owner_is_taken

abbrev default_role : ℕ → String → String → Role
default_role id name description = record viewer_row {
  id = id;
  name = name;
  description = some description;
}

-- The three default roles are there.
abbrev with_roles : Db
with_roles = record small {
  roles =
      default_role 30 "Owner" "Full access to manage users and data"
      ∷ default_role 31 "Administrator" "Full access to manage users and data"
      ∷ default_role 32 "Viewer" "Read-only access to company data"
      ∷ [];
  company_roles = [];
  associations = [];
}

abbrev made : CompanyReadModel
made = record {
  id = 2;
  name = some "Beta";
  description = none;
  industry = none;
  phone_number = none;
  email = "beta@x.org";
  address = none;
}

creating : Unit {0}
unfolding ensure_default_role ensure_each seed_new_default_roles ensure_default_roles
    company_default_roles default_row describe is_assignment may_assign add_assignment
    find_membership may_join new_membership add_membership to_company_user add_user_to_company
    is_membership ensure_company_role get_company_role_permissions ensure_role_name_assigned
    get_role_name_assigned is_assigned_name company_link global_models company_models
    effective_permissions one_or_none at_most_one lookup put
creating = tt

creation_returns : (create_company lengths count 2 beta ann (begin with_roles)).0 ≡ ok made
unfolding creating to_read_model new_company is_new_company add_company set_company
    get_company_record_by_id get_company_record_by_email write_address enable_roles set_up
    create_company one_or_none at_most_one lookup put
creation_returns = refl

create_company-IsFounded_example :
    IsFounded 2 "ann@x.org" (create_company lengths count 2 beta ann (begin with_roles)).1
create_company-IsFounded_example =
    create_company-IsFounded lengths count 2 ann beta (begin with_roles) made creation_returns
