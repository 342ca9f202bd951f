-- ===== src/Permission.antt =====
-- app/repository/permission.py, with the models of app/models/permissions.py and `RoleReadModel`
-- of app/models/company/roles.py.
pub mod Effective
pub mod Global
pub mod Company
pub mod Role
pub mod Platform
pub mod Service
pub mod System
use Prim.Native.String.{◌++◌ as str_append}
use userverse.Base.{ℕ, String, Bool, true, ◌||◌, ◌==◌, string_Eq, Option, none, some, List}
use userverse.Pagination.{PaginationParams}
use userverse.Messages.{Message, permission, PermissionResponseMessages}
use userverse.Database.{GlobalPermission, CompanyPermission, Error, app_error}

pub data PermissionScope : Type 0 where
  global company : PermissionScope

-- A payload that passed its validators: the name is trimmed and not blank.
pub record PermissionCreateModel : Type 0 where
  pub name : String
  pub description : Option String

-- `none` is a field that is not in `model_fields_set`; the validator lets no null name through.
pub record PermissionUpdateModel : Type 0 where
  pub name : Option String
  pub description : Option (Option String)

pub record PermissionReadModel : Type 0 where
  pub id : ℕ
  pub name : String
  pub description : Option String
  pub scope : PermissionScope
  pub company_id : Option ℕ

pub record RoleReadModel : Type 0 where
  pub id : ℕ
  pub name : String
  pub description : Option String
  pub permissions : List PermissionReadModel

pub record PermissionQueryParamsModel : Type 0 where
  pub params : PaginationParams
  pub name : Option String
  pub description : Option String

-- A filter of a listing: an absent or empty text filters nothing, and `NULL` passes no other.
-- `ilike` tests a value by a pattern.
pub passes_filter :
    (ilike : String → String → Bool) → Option String → (value : Option String) → Bool
passes_filter ilike none value = true
passes_filter ilike (some text) none = text == ""
passes_filter ilike (some text) (some value) =
    (text == "") || ilike (str_append "%" (str_append text "%")) value

-- What the code takes from elsewhere: `uuid5` in the namespace of the system permissions, and the
-- orders of names and of `_permission_sort_key`.
pub record Externals : Type 0 where
  pub uuid5 : String → ℕ
  pub key_le : PermissionReadModel → PermissionReadModel → Bool

-- `_global_permission_model`
pub global_permission_model : GlobalPermission → PermissionReadModel
global_permission_model p = record {
  id = p.id;
  name = p.name;
  description = p.description;
  scope = global;
  company_id = none;
}

-- `_company_permission_model`
pub company_permission_model : CompanyPermission → PermissionReadModel
company_permission_model p = record {
  id = p.id;
  name = p.name;
  description = p.description;
  scope = company;
  company_id = some p.company_id;
}

abbrev pub failure : ℕ → PermissionResponseMessages → Error
failure status m = app_error status (permission m)

-- The values of an update that was asked for.
abbrev pub or_kept {ℓ} : {A : Type ℓ} → Option A → A → A
or_kept none old = old
or_kept (some new) old = new
