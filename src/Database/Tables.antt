-- ===== src/Database/Tables.antt =====
-- app/repository/database/tables/*.py: the rows of the tables, and the database as the lists of
-- their rows. A UUID is a number, and an instant a number of ticks. `_created_at` and `_updated_at`
-- are left out.
use userverse.Base.{ℕ, String, Bool, Option, List, Dict}

-- app/models/user/user.py: `UserReadModel`
pub record UserReadModel : Type 0 where
  pub id : ℕ
  pub first_name : Option String
  pub last_name : Option String
  pub email : String
  pub phone_number : Option String
  pub status : Option String
  pub is_superuser : Bool

-- app/models/company/address.py: `CompanyAddressModel`
pub record CompanyAddressModel : Type 0 where
  pub street : Option String
  pub city : Option String
  pub state : Option String
  pub postal_code : Option String
  pub country : Option String

-- What the program stores under a key of a metadata column.
pub data Json : Type 0 where
  text : String → Json
  number : ℕ → Json
  flag : Bool → Json
  dumped_user : UserReadModel → Json
  -- the method, the token, and the instants of creation and expiry of a password reset
  reset_record : (method token : String) → (created_at expires_at : ℕ) → Json
  dumped_address : CompanyAddressModel → Json

abbrev pub MetaData : Type 0
MetaData = Dict String Json

pub record User : Type 0 where
  pub id : ℕ
  pub first_name : Option String
  pub last_name : Option String
  pub email : String
  pub phone_number : Option String
  pub password : String
  pub is_superuser : Bool
  pub closed_at : Option ℕ
  pub primary_meta_data : MetaData

pub record Company : Type 0 where
  pub id : ℕ
  pub name : Option String
  pub description : Option String
  pub industry : Option String
  pub email : String
  pub phone_number : Option String
  pub closed_at : Option ℕ
  pub primary_meta_data : MetaData

pub record Role : Type 0 where
  pub id : ℕ
  pub name : String
  pub description : Option String
  pub closed_at : Option ℕ
  pub primary_meta_data : MetaData

pub record CompanyRole : Type 0 where
  pub company_id : ℕ
  pub role_id : ℕ
  pub closed_at : Option ℕ
  pub primary_meta_data : MetaData

pub record AssociationUserCompany : Type 0 where
  pub user_id : ℕ
  pub company_id : ℕ
  pub role_id : ℕ
  pub closed_at : Option ℕ
  pub primary_meta_data : MetaData
  pub secondary_meta_data : MetaData

pub record GlobalPermission : Type 0 where
  pub id : ℕ
  pub name : String
  pub description : Option String
  pub closed_at : Option ℕ
  pub primary_meta_data : MetaData

pub record CompanyPermission : Type 0 where
  pub id : ℕ
  pub company_id : ℕ
  pub name : String
  pub description : Option String
  pub closed_at : Option ℕ
  pub primary_meta_data : MetaData

pub record RoleGlobalPermission : Type 0 where
  pub role_id : ℕ
  pub global_permission_id : ℕ
  pub closed_at : Option ℕ
  pub primary_meta_data : MetaData

pub record CompanyRolePermission : Type 0 where
  pub company_id : ℕ
  pub role_id : ℕ
  pub company_permission_id : ℕ
  pub closed_at : Option ℕ

pub record UserRole : Type 0 where
  pub user_id : ℕ
  pub role_id : ℕ
  pub closed_at : Option ℕ

pub record SuperuserBootstrapControl : Type 0 where
  pub id : ℕ
  pub bootstrap_user_id : Option ℕ
  pub bootstrap_completed_at : Option ℕ
  pub bootstrap_method : Option String

pub record PrivilegedAccessEvent : Type 0 where
  pub target_user_id : ℕ
  pub action : String
  pub source : String
  pub reason : String
  pub previous_superuser : Bool
  pub resulting_superuser : Bool

pub record Db : Type 0 where
  pub users : List User
  pub companies : List Company
  pub roles : List Role
  pub company_roles : List CompanyRole
  pub associations : List AssociationUserCompany
  pub global_permissions : List GlobalPermission
  pub company_permissions : List CompanyPermission
  pub role_global_permissions : List RoleGlobalPermission
  pub company_role_permissions : List CompanyRolePermission
  pub user_roles : List UserRole
  pub controls : List SuperuserBootstrapControl
  pub events : List PrivilegedAccessEvent
