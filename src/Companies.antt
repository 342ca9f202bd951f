-- ===== src/Companies.antt =====
-- app/repository/company.py: `CompanyRepository`, but for the listing of a user's companies.
pub mod Service
pub mod Owner
pub mod Deletion
pub mod Failure
pub mod Placement
mod Tests
use userverse.Base.{
  ℕ, String, Bool, ◌&&◌, not, Option, none, some, List, [], ◌∷◌, ◌++◌, all, update_where, lookup,
  put, Dict, ◌==◌, nat_Eq, string_Eq, is_none, is_some,
}
use userverse.Messages.{company, company_already_exists, company_not_found, company_update_failed}
use userverse.Database.{
  UserReadModel, CompanyAddressModel, dumped_address, Company, Role, Db, app_error, no_result,
  Action, pure, gets, select_one, ◌>>=◌, ◌>>◌, modify, commit, raise_if, write_if, or_raise,
  on_integrity_error,
}
use userverse.SystemPermissions.{owner}
use userverse.Permission.{Externals}
use userverse.Roles.Assignment.{may_assign, add_assignment}
use userverse.CompanyUser.{add_user_to_company}
use userverse.DefaultRoles.{ensure_default_roles}

-- app/models/company/company.py
pub record CompanyCreateModel : Type 0 where
  pub name : Option String
  pub description : Option String
  pub industry : Option String
  pub phone_number : Option String
  pub email : String
  pub address : Option CompanyAddressModel

pub record CompanyUpdateModel : Type 0 where
  pub name : Option String
  pub description : Option String
  pub industry : Option String
  pub phone_number : Option String
  pub address : Option CompanyAddressModel

pub record CompanyReadModel : Type 0 where
  pub id : ℕ
  pub name : Option String
  pub description : Option String
  pub industry : Option String
  pub phone_number : Option String
  pub email : String
  pub address : Option CompanyAddressModel

-- `_to_read_model`
pub to_read_model : Company → CompanyReadModel
to_read_model c = record {
  id = c.id;
  name = c.name;
  description = c.description;
  industry = c.industry;
  phone_number = c.phone_number;
  email = c.email;
  address = elim (lookup "address" c.primary_meta_data) [
    | some (dumped_address a) ↦ some a
    | other ↦ none
  ];
}

pub new_company : ℕ → CompanyCreateModel → Company
new_company id payload = record {
  id = id;
  name = payload.name;
  description = payload.description;
  industry = payload.industry;
  email = payload.email;
  phone_number = payload.phone_number;
  closed_at = none;
  primary_meta_data = [];
}

-- The primary key and the unique email, of closed rows too.
pub is_new_company : ℕ → String → Db → Bool
is_new_company id email db =
    all (λ (c : Company). not (c.id == id) && not (c.email == email)) db.companies

pub add_company : Company → Db → Db
add_company c db = record db { companies = db.companies ++ c ∷ [] }

-- An UPDATE of the row of the primary key.
pub set_company : ℕ → (Company → Company) → Db → Db
set_company id f db = record db { companies = update_where (λ c. c.id == id) f db.companies }

pub set_address : CompanyAddressModel → Company → Company
set_address a c = record c {
  primary_meta_data = put "address" (dumped_address a) c.primary_meta_data;
}

pub close_company : ℕ → Company → Company
close_company now c = record c { closed_at = some now }

keep : Option String → Option String → Option String
keep none old = old
keep (some new) old = some new

-- The fields that are given.
pub apply_company_update : CompanyUpdateModel → Company → Company
unfolding keep
apply_company_update payload c = record c {
  name = keep payload.name c.name;
  description = keep payload.description c.description;
  industry = keep payload.industry c.industry;
  phone_number = keep payload.phone_number c.phone_number;
}

pub get_company_record_by_id : ℕ → Action (Option Company)
get_company_record_by_id company_id =
    select_one (λ db. db.companies) (λ c. (c.id == company_id) && is_none c.closed_at)

pub get_company_record_by_email : String → Action (Option Company)
get_company_record_by_email email =
    select_one (λ db. db.companies) (λ c. (c.email == email) && is_none c.closed_at)

-- `update_json_field`, where an address is given
pub write_address : ℕ → Option CompanyAddressModel → Action (Unit {0})
write_address company_id none = pure tt
write_address company_id (some a) = do modify (set_company company_id (set_address a)); commit

-- `for role in default_roles.values(): …add(CompanyRole(…))`
pub enable_roles : ℕ → Dict String Role → Action (Unit {0})
enable_roles company_id [] = pure tt
enable_roles company_id ((name, role) ∷ roles) =
    let later = enable_roles company_id roles in
    (do write_if (may_assign company_id role.id) (add_assignment company_id role.id); later)

-- What follows the row of the company: the roles and the first member.
pub set_up : Externals → (new_id : String → ℕ) → ℕ → UserReadModel → Action CompanyReadModel
unfolding enable_roles get_company_record_by_id to_read_model
set_up ext new_id company_id created_by = do
  default_roles ← ensure_default_roles ext.uuid5 new_id
  enable_roles company_id default_roles
  commit
  _ ←
      add_user_to_company ext company_id (record { email = created_by.email; role = owner })
        created_by
  found ← get_company_record_by_id company_id
  c ← or_raise no_result found
  pure (to_read_model c)

pub create_company :
    Externals
    → (new_id : String → ℕ) → ℕ
    → CompanyCreateModel
    → UserReadModel
    → Action CompanyReadModel
unfolding get_company_record_by_email write_address set_up
create_company ext new_id id payload created_by = do
  existing ← get_company_record_by_email payload.email
  raise_if (is_some existing) (app_error 409 (company company_already_exists))
  on_integrity_error
      (do write_if (is_new_company id payload.email) (add_company (new_company id payload)); commit)
      (app_error 409 (company company_already_exists))
  write_address id payload.address
  set_up ext new_id id created_by

pub get_company_by_id : ℕ → Action CompanyReadModel
unfolding get_company_record_by_id to_read_model
get_company_by_id company_id = do
  found ← get_company_record_by_id company_id
  c ← or_raise (app_error 404 (company company_not_found)) found
  pure (to_read_model c)

pub get_company_by_email : String → Action CompanyReadModel
unfolding get_company_record_by_email to_read_model
get_company_by_email email = do
  found ← get_company_record_by_email email
  c ← or_raise (app_error 404 (company company_not_found)) found
  pure (to_read_model c)

pub with_address : Option CompanyAddressModel → Company → Company
unfolding set_address
with_address none c = c
with_address (some a) c = set_address a c

pub update_company : CompanyUpdateModel → ℕ → Action CompanyReadModel
unfolding get_company_record_by_id to_read_model write_address with_address
update_company payload company_id = do
  found ← get_company_record_by_id company_id
  c ← or_raise (app_error 400 (company company_update_failed)) found
  modify (set_company c.id (apply_company_update payload))
  commit
  write_address c.id payload.address
  pure (to_read_model (with_address payload.address (apply_company_update payload c)))

pub delete_company : (now : ℕ) → ℕ → Action (Unit {0})
unfolding get_company_record_by_id close_company
delete_company now company_id = do
  found ← get_company_record_by_id company_id
  c ← or_raise (app_error 404 (company company_not_found)) found
  modify (set_company c.id (close_company now))
  commit
