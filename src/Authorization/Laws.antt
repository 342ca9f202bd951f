-- ===== src/Authorization/Laws.antt =====
-- app/services/company/authorization.py: `require` against the rows that grant a permission.
use userverse.Base.{
  List, refl, ℕ, String, ◌≡◌, ◌↔◌, ◌⊎◌, inl, inr, Bool, true, false, ◌&&◌, none, Memᴰ, arith,
  any_sound, any_complete, ==_iff, nat_Eq, string_Eq, Bool-cases, Bool-eq_of_iff,
}
use userverse.Messages.{company, unauthorized_company_access}
use userverse.Database.{
  CompanyPermission, CompanyRolePermission, UserReadModel, AssociationUserCompany, Company,
  CompanyRole, Role, RoleGlobalPermission, GlobalPermission, Db, Session, ok, err, app_error,
}
use userverse.SystemPermissions.{SystemPermission, value, permission_id}
use userverse.Authorization.{
  joins, passes, with_permissions, with_links, with_roles, with_company_roles, with_companies,
  is_authorized, require,
}

module _ (uuid5 : String → ℕ) (user_id company_id : ℕ) (permission : SystemPermission) where
  -- The conditions under which a row of each table grants the permission.
  pub record IsGranting (a : AssociationUserCompany) (c : Company) (cr : CompanyRole) (r : Role)
      (l : RoleGlobalPermission) (g : GlobalPermission) : Type 0 where
    pub of_user : a.user_id ≡ user_id
    pub of_company : a.company_id ≡ company_id
    pub same_company : c.id ≡ company_id
    pub enabled_company : cr.company_id ≡ company_id
    pub enabled_role : cr.role_id ≡ a.role_id
    pub same_role : r.id ≡ a.role_id
    pub linked_role : l.role_id ≡ a.role_id
    pub linked_permission : l.global_permission_id ≡ g.id
    pub system_id : g.id ≡ permission_id uuid5 permission
    pub system_name : g.name ≡ value permission
    pub membership_open : a.closed_at ≡ none
    pub company_open : c.closed_at ≡ none
    pub enabled_open : cr.closed_at ≡ none
    pub role_open : r.closed_at ≡ none
    pub link_open : l.closed_at ≡ none
    pub permission_open : g.closed_at ≡ none

  -- Why a user may do something in a company: an open membership of the open company, in an open
  -- role that is enabled for the company, with an open link from the role to the system permission.
  pub record Grant (db : Db) : Type 0 where
    pub membership : AssociationUserCompany
    pub company_row : Company
    pub enabled : CompanyRole
    pub role : Role
    pub link : RoleGlobalPermission
    pub granted : GlobalPermission
    pub membership_listed : Memᴰ membership db.associations
    pub company_listed : Memᴰ company_row db.companies
    pub enabled_listed : Memᴰ enabled db.company_roles
    pub role_listed : Memᴰ role db.roles
    pub link_listed : Memᴰ link db.role_global_permissions
    pub granted_listed : Memᴰ granted db.global_permissions
    pub holds : IsGranting membership company_row enabled role link granted
    pub open holds use *

  abbrev holds_in_row :
      AssociationUserCompany
      → Company
      → CompanyRole
      → Role
      → RoleGlobalPermission
      → GlobalPermission
      → Bool
  holds_in_row a c cr r l g =
      joins uuid5 user_id company_id permission a c cr r l g
      && passes uuid5 user_id company_id permission a c cr r l g

  module _ (a : AssociationUserCompany) (c : Company) (cr : CompanyRole) (r : Role)
      (l : RoleGlobalPermission) (g : GlobalPermission) where
    holds_in_row_sound : holds_in_row a c cr r l g ≡ true → IsGranting a c cr r l g
    unfolding joins passes
    holds_in_row_sound h = ground (arith, ==_iff g.name (value permission))

    holds_in_row_complete : IsGranting a c cr r l g → holds_in_row a c cr r l g ≡ true
    unfolding joins passes
    holds_in_row_complete h = ground (arith, ==_iff g.name (value permission))

  is_authorized_sound :
      (db : Db) → is_authorized uuid5 user_id company_id permission db ≡ true → Grant db
  unfolding is_authorized
  is_authorized_sound db h =
      let (a, ma, ha) =
        any_sound (with_companies uuid5 user_id company_id permission db) db.associations h in
      let (c, mc, hc) =
        any_sound (with_company_roles uuid5 user_id company_id permission db a) db.companies ha in
      let (cr, mcr, hcr) =
        any_sound (with_roles uuid5 user_id company_id permission db a c) db.company_roles hc in
      let (r, mr, hr) =
        any_sound (with_links uuid5 user_id company_id permission db a c cr) db.roles hcr in
      let (l, ml, hl) =
        any_sound (with_permissions uuid5 user_id company_id permission db a c cr r)
          db.role_global_permissions hr in
      let (g, mg, hg) = any_sound (holds_in_row a c cr r l) db.global_permissions hl in
      record {
        membership = a;
        company_row = c;
        enabled = cr;
        role = r;
        link = l;
        granted = g;
        membership_listed = ma;
        company_listed = mc;
        enabled_listed = mcr;
        role_listed = mr;
        link_listed = ml;
        granted_listed = mg;
        holds = holds_in_row_sound a c cr r l g hg;
      }

  is_authorized_complete :
      (db : Db) → Grant db → is_authorized uuid5 user_id company_id permission db ≡ true
  unfolding is_authorized
  is_authorized_complete db w =
      let hg =
        holds_in_row_complete w.membership w.company_row w.enabled w.role w.link w.granted
          w.holds in
      let hl =
        any_complete (holds_in_row w.membership w.company_row w.enabled w.role w.link)
          w.granted_listed hg in
      let hr =
        any_complete
          (with_permissions uuid5 user_id company_id permission db w.membership w.company_row
            w.enabled w.role)
          w.link_listed hl in
      let hcr =
        any_complete
          (with_links uuid5 user_id company_id permission db w.membership w.company_row w.enabled)
          w.role_listed hr in
      let hc =
        any_complete (with_roles uuid5 user_id company_id permission db w.membership w.company_row)
          w.enabled_listed hcr in
      let ha =
        any_complete (with_company_roles uuid5 user_id company_id permission db w.membership)
          w.company_listed hc in
      any_complete (with_companies uuid5 user_id company_id permission db) w.membership_listed ha

  -- The query finds a row exactly if there are rows that grant the permission.
  pub is_authorized_iff :
      (db : Db) → (is_authorized uuid5 user_id company_id permission db ≡ true) ↔ Grant db
  is_authorized_iff db = (is_authorized_sound db, is_authorized_complete db)

module _ (uuid5 : String → ℕ) (current : UserReadModel) (company_id : ℕ)
    (permission : SystemPermission) (s : Session) where
  -- `require` returns exactly for a superuser and for a user with rows that grant the permission in
  -- the company. Everybody else gets a 403. The session is left as it was.
  pub require_iff :
      ((require uuid5 current company_id permission s).0 ≡ ok tt
        ↔ ((current.is_superuser ≡ true) ⊎ Grant uuid5 current.id company_id permission s.live))
      × (((require uuid5 current company_id permission s).0 ≡ ok tt)
          ⊎ ((require uuid5 current company_id permission s).0
              ≡ err (app_error 403 (company unauthorized_company_access))))
      × ((require uuid5 current company_id permission s).1 ≡ s)
  unfolding require
  require_iff =
      let granted = is_authorized_iff uuid5 current.id company_id permission s.live in
      (
        (
          λ e. elim (Bool-cases current.is_superuser) [
            | inl is_super ↦ inl is_super
            | inr plain ↦ inr (granted.0 (ground arith))
          ],
          λ h. elim h [
            | inl is_super ↦ ground arith
            | inr w ↦ let found = granted.1 w in ground arith
          ],
        ),
        ground arith,
        ground arith,
      )

pub require-refused :
    (uuid5 : String → ℕ) (current : UserReadModel) (company_id : ℕ) (permission : SystemPermission)
    (s : Session)
    → current.is_superuser ≡ false
    → is_authorized uuid5 current.id company_id permission s.live ≡ false
    → require uuid5 current company_id permission s
      ≡ (err (app_error 403 (company unauthorized_company_access)), s)
unfolding require
require-refused uuid5 current company_id permission s plain denied = ground (arith, plain, denied)

-- Nobody may do more, and nobody less.
abbrev pub SameAccess : (String → ℕ) → Db → Db → Type 0
SameAccess uuid5 db db' =
    (user_id company_id : ℕ) (permission : SystemPermission)
    → is_authorized uuid5 user_id company_id permission db'
      ≡ is_authorized uuid5 user_id company_id permission db

pub SameAccess-of_grants :
    (uuid5 : String → ℕ) (db db' : Db)
    → ((user_id company_id : ℕ) (permission : SystemPermission)
        → Grant uuid5 user_id company_id permission db'
          ↔ Grant uuid5 user_id company_id permission db)
    → SameAccess uuid5 db db'
SameAccess-of_grants uuid5 db db' h u c p =
    let before = is_authorized_iff uuid5 u c p db in
    let after = is_authorized_iff uuid5 u c p db' in
    Bool-eq_of_iff _ _
      (λ e. before.1 ((h u c p).0 (after.0 e)), λ e. after.1 ((h u c p).1 (before.0 e)))

-- The permissions of companies play no part.
pub SameAccess-companies :
    (uuid5 : String → ℕ) (db : Db) (rows : List CompanyPermission)
    (links : List CompanyRolePermission)
    → SameAccess uuid5 db
        (record db { company_permissions = rows; company_role_permissions = links })
unfolding is_authorized with_companies with_company_roles with_roles with_links with_permissions
SameAccess-companies uuid5 db rows links u c p = refl
