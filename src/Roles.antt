-- ===== src/Roles.antt =====
-- app/repository/company_role.py, with the payloads of app/models/company/roles.py. The instant of
-- `func.now()` and the identifier of `uuid4` are arguments.
pub mod Assignment
pub mod Repository
pub mod Samples
pub mod Service
use userverse.Base.{ℕ, String, Option, List}

-- A payload of an update: `none` and an empty name leave the field as it is.
pub record RoleUpdateModel : Type 0 where
  pub name : Option String
  pub description : Option String

pub record RoleCreateModel : Type 0 where
  pub name : String
  pub description : Option String

pub record RoleDeleteModel : Type 0 where
  pub replacement_role_name : String
  pub role_name_to_delete : String

-- `UUID(…)` of each text is a parameter of the code that reads them.
pub record RoleAssignCompaniesModel : Type 0 where
  pub company_ids : List String
