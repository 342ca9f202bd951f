-- ===== src/Roles/Samples.antt =====
-- A database for the tests: a company with one member and two roles that are enabled for it.
use userverse.Base.{refl, sym, subst, [], ◌∷◌, Memᴰ, mem-one}
use userverse.Database.{Role, AssociationUserCompany, Db}
use userverse.Database.Samples.{viewer_row, viewer_enabled, small}
use userverse.Roles.Assignment.Steps.{IsEnabled}
use userverse.Roles.Assignment.Placement.{MembersHaveRoles, HasUniqueRoleIds}

abbrev pub auditor_row : Role
auditor_row = record viewer_row { id = 8; name = "Auditor" }

abbrev pub two_roles : Db
two_roles = record small {
  roles = viewer_row ∷ auditor_row ∷ [];
  company_roles = viewer_enabled ∷ record viewer_enabled { role_id = 8 } ∷ [];
}

viewer-IsEnabled : IsEnabled 1 7 two_roles
viewer-IsEnabled = record {
  enabled = viewer_enabled;
  role = viewer_row;
  enabled_listed = Memᴰ.head refl;
  role_listed = Memᴰ.head refl;
  enabled_company = refl;
  enabled_role = refl;
  enabled_open = refl;
  same_role = refl;
  role_open = refl;
}

pub two_roles-MembersHaveRoles : MembersHaveRoles two_roles
two_roles-MembersHaveRoles a m o =
    subst (λ (x : AssociationUserCompany). IsEnabled x.company_id x.role_id two_roles)
      (sym (mem-one m)) viewer-IsEnabled

pub two_roles-HasUniqueRoleIds : HasUniqueRoleIds two_roles
two_roles-HasUniqueRoleIds = (refl, (refl, tt))
