-- ===== src/Database/Samples.antt =====
-- A small database for the tests: one company with one member, in a role that is enabled for it and
-- linked to one permission.
use userverse.Base.{none, some, [], ◌∷◌, true, false}
use userverse.Database.Tables.{
  UserReadModel, text, number, User, Company, Role, CompanyRole, AssociationUserCompany,
  GlobalPermission, RoleGlobalPermission, Db,
}

abbrev pub ann : UserReadModel
ann = record {
  id = 3;
  first_name = some "Ann";
  last_name = none;
  email = "ann@x.org";
  phone_number = none;
  status = some "Active";
  is_superuser = false;
}

abbrev pub root : UserReadModel
root = record ann { id = 4; email = "root@x.org"; is_superuser = true }

abbrev pub ann_row : User
ann_row = record {
  id = 3;
  first_name = some "Ann";
  last_name = none;
  email = "ann@x.org";
  phone_number = none;
  password = "hash";
  is_superuser = false;
  closed_at = none;
  primary_meta_data = ("status", text "Active") ∷ ("refresh_token_version", number 1) ∷ [];
}

abbrev pub acme : Company
acme = record {
  id = 1;
  name = some "Acme";
  description = none;
  industry = none;
  email = "acme@x.org";
  phone_number = none;
  closed_at = none;
  primary_meta_data = [];
}

abbrev pub viewer_row : Role
viewer_row = record {
  id = 7;
  name = "Viewer";
  description = none;
  closed_at = none;
  primary_meta_data = [];
}

abbrev pub viewer_enabled : CompanyRole
viewer_enabled = record { company_id = 1; role_id = 7; closed_at = none; primary_meta_data = [] }

abbrev pub ann_at_acme : AssociationUserCompany
ann_at_acme = record {
  user_id = 3;
  company_id = 1;
  role_id = 7;
  closed_at = none;
  primary_meta_data = [];
  secondary_meta_data = [];
}

-- Its identifier is the number of characters of its name.
abbrev pub read_permission : GlobalPermission
read_permission = record {
  id = 12;
  name = "company.read";
  description = none;
  closed_at = none;
  primary_meta_data = [];
}

abbrev pub report_permission : GlobalPermission
report_permission = record read_permission { id = 50; name = "reports" }

abbrev pub viewer_reads : RoleGlobalPermission
viewer_reads = record {
  role_id = 7;
  global_permission_id = 12;
  closed_at = none;
  primary_meta_data = [];
}

abbrev pub small : Db
small = record {
  users = ann_row ∷ [];
  companies = acme ∷ [];
  roles = viewer_row ∷ [];
  company_roles = viewer_enabled ∷ [];
  associations = ann_at_acme ∷ [];
  global_permissions = read_permission ∷ report_permission ∷ [];
  company_permissions = [];
  role_global_permissions = viewer_reads ∷ [];
  company_role_permissions = [];
  user_roles = [];
  controls = [];
  events = [];
}
