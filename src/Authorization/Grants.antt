-- ===== src/Authorization/Grants.antt =====
-- app/services/company/authorization.py: when a grant is a grant in another database too.
use userverse.Base.{ℕ, String, ◌≡◌, subst, Memᴰ}
use userverse.Database.{
  AssociationUserCompany, Company, CompanyRole, Role, RoleGlobalPermission, GlobalPermission, Db,
}
use userverse.SystemPermissions.{SystemPermission}
use userverse.Authorization.Laws.{Grant, IsGranting}

module _ (uuid5 : String → ℕ) (user_id company_id : ℕ) (permission : SystemPermission) where
  -- Rows of a database that grant the permission by a given link.
  pub record GrantBy (l : RoleGlobalPermission) (db : Db) : Type 0 where
    pub membership : AssociationUserCompany
    pub company_row : Company
    pub enabled : CompanyRole
    pub role : Role
    pub granted : GlobalPermission
    pub membership_listed : Memᴰ membership db.associations
    pub company_listed : Memᴰ company_row db.companies
    pub enabled_listed : Memᴰ enabled db.company_roles
    pub role_listed : Memᴰ role db.roles
    pub granted_listed : Memᴰ granted db.global_permissions
    pub holds :
        IsGranting uuid5 user_id company_id permission membership company_row enabled role l granted

  -- A grant is a listed link with rows that grant by it.
  pub GrantBy-of_Grant :
      (db : Db) (w : Grant uuid5 user_id company_id permission db) → GrantBy w.link db
  GrantBy-of_Grant db w = record {
    membership = w.membership;
    company_row = w.company_row;
    enabled = w.enabled;
    role = w.role;
    granted = w.granted;
    membership_listed = w.membership_listed;
    company_listed = w.company_listed;
    enabled_listed = w.enabled_listed;
    role_listed = w.role_listed;
    granted_listed = w.granted_listed;
    holds = w.holds;
  }

  pub Grant-by :
      (db : Db) (l : RoleGlobalPermission)
      → Memᴰ l db.role_global_permissions
      → GrantBy l db
      → Grant uuid5 user_id company_id permission db
  Grant-by db l listed w = record {
    membership = w.membership;
    company_row = w.company_row;
    enabled = w.enabled;
    role = w.role;
    link = l;
    granted = w.granted;
    membership_listed = w.membership_listed;
    company_listed = w.company_listed;
    enabled_listed = w.enabled_listed;
    role_listed = w.role_listed;
    link_listed = listed;
    granted_listed = w.granted_listed;
    holds = w.holds;
  }

-- Two databases that differ at most in links and in what is no part of authorization.
abbrev pub SameBut : Db → Db → Type 0
SameBut db db' =
    (db.associations ≡ db'.associations)
    × (db.companies ≡ db'.companies)
    × (db.company_roles ≡ db'.company_roles)
    × (db.roles ≡ db'.roles)
    × (db.global_permissions ≡ db'.global_permissions)

module _ (uuid5 : String → ℕ) (user_id company_id : ℕ) (permission : SystemPermission) where
  pub GrantBy-same :
      (db db' : Db) (l : RoleGlobalPermission)
      → SameBut db db'
      → GrantBy uuid5 user_id company_id permission l db
      → GrantBy uuid5 user_id company_id permission l db'
  GrantBy-same db db' l (ea, ec, ecr, er, ep) w = record {
    membership = w.membership;
    company_row = w.company_row;
    enabled = w.enabled;
    role = w.role;
    granted = w.granted;
    membership_listed = subst (λ xs. Memᴰ w.membership xs) ea w.membership_listed;
    company_listed = subst (λ xs. Memᴰ w.company_row xs) ec w.company_listed;
    enabled_listed = subst (λ xs. Memᴰ w.enabled xs) ecr w.enabled_listed;
    role_listed = subst (λ xs. Memᴰ w.role xs) er w.role_listed;
    granted_listed = subst (λ xs. Memᴰ w.granted xs) ep w.granted_listed;
    holds = w.holds;
  }
