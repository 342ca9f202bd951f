-- ===== src/Permission/Global/Access.antt =====
-- app/repository/permission.py: `GlobalPermissionRepository` and authorization.
use userverse.Base.{
  ℕ, String, ◌≡◌, refl, sym, ◌∙◌, inl, inr, true, false, not, ◌&&◌, Option, none, some, Memᴰ, arith,
  mem-filter, mem-filter_inv, mem-update_where, mem-update_where_inv, ◌==◌, ==_iff, nat_Eq,
  string_Eq, if◌then◌else◌,
}
use userverse.Database.{
  AssociationUserCompany, Company, CompanyRole, Role, GlobalPermission, RoleGlobalPermission, Db,
  begin,
}
use userverse.SystemPermissions.{SystemPermission, permission_id, is_system_permission_id}
use userverse.SystemPermissions.Laws.{is_system_permission_id-permission_id}
use userverse.Authorization.Laws.{Grant, IsGranting, SameAccess, SameAccess-of_grants}
use userverse.Permission.{Externals, PermissionUpdateModel, or_kept}
use userverse.Permission.Global.Unique.{IsUnique, eq_of_same_id}
use userverse.Permission.Global.Steps.{update_permission-cases, delete_permission-cases}
use userverse.Permission.Global.{
  remove_row, remove_links, set_row, apply_update, renames, delete_permission, update_permission,
}

-- A grant in another database, by another version of the permission's row.
module _ (uuid5 : String → ℕ) (user_id company_id : ℕ) (permission : SystemPermission) where
  IsGranting-version :
      (a : AssociationUserCompany) (c : Company) (cr : CompanyRole) (r : Role)
      (l : RoleGlobalPermission) (g g' : GlobalPermission)
      → IsGranting uuid5 user_id company_id permission a c cr r l g
      → g'.id ≡ g.id
      → g'.name ≡ g.name
      → g'.closed_at ≡ g.closed_at
      → IsGranting uuid5 user_id company_id permission a c cr r l g'
  IsGranting-version a c cr r l g g' h same_id same_name same_closed = ground arith

  Grant-granted :
      (db db' : Db) (w : Grant uuid5 user_id company_id permission db) (g' : GlobalPermission)
      → Memᴰ w.membership db'.associations
        × Memᴰ w.company_row db'.companies
        × Memᴰ w.enabled db'.company_roles
        × Memᴰ w.role db'.roles
        × Memᴰ w.link db'.role_global_permissions
      → Memᴰ g' db'.global_permissions
      → g'.id ≡ w.granted.id
      → g'.name ≡ w.granted.name
      → g'.closed_at ≡ w.granted.closed_at
      → Grant uuid5 user_id company_id permission db'
  Grant-granted db db' w g' (ma, mc, mcr, mr, ml) listed same_id same_name same_closed = record {
    membership = w.membership;
    company_row = w.company_row;
    enabled = w.enabled;
    role = w.role;
    link = w.link;
    granted = g';
    membership_listed = ma;
    company_listed = mc;
    enabled_listed = mcr;
    role_listed = mr;
    link_listed = ml;
    granted_listed = listed;
    holds =
        IsGranting-version w.membership w.company_row w.enabled w.role w.link w.granted g' w.holds
          same_id same_name same_closed;
  }

module _ (uuid5 : String → ℕ) (user_id company_id : ℕ) (permission : SystemPermission) where
  module _ (id : ℕ) (other : is_system_permission_id uuid5 id ≡ false) (db : Db) where
    abbrev removed : Db
    removed = remove_row id (remove_links id db)

    not_granted :
        (g : GlobalPermission) → g.id ≡ permission_id uuid5 permission → not (g.id == id) ≡ true
    not_granted g e = ground (arith, is_system_permission_id-permission_id uuid5 permission)

    Grant-removed :
        Grant uuid5 user_id company_id permission db
        → Grant uuid5 user_id company_id permission removed
    unfolding remove_row remove_links
    Grant-removed w = record {
      membership = w.membership;
      company_row = w.company_row;
      enabled = w.enabled;
      role = w.role;
      link = w.link;
      granted = w.granted;
      membership_listed = w.membership_listed;
      company_listed = w.company_listed;
      enabled_listed = w.enabled_listed;
      role_listed = w.role_listed;
      link_listed =
          mem-filter (λ (l : RoleGlobalPermission). not (l.global_permission_id == id))
            w.link_listed (rw w.linked_permission (not_granted w.granted w.system_id));
      granted_listed =
          mem-filter (λ (p : GlobalPermission). not (p.id == id)) w.granted_listed
            (not_granted w.granted w.system_id);
      holds = w.holds;
    }

    Grant-removed_inv :
        Grant uuid5 user_id company_id permission removed
        → Grant uuid5 user_id company_id permission db
    unfolding remove_row remove_links
    Grant-removed_inv w = record {
      membership = w.membership;
      company_row = w.company_row;
      enabled = w.enabled;
      role = w.role;
      link = w.link;
      granted = w.granted;
      membership_listed = w.membership_listed;
      company_listed = w.company_listed;
      enabled_listed = w.enabled_listed;
      role_listed = w.role_listed;
      link_listed =
          (mem-filter_inv (λ (l : RoleGlobalPermission). not (l.global_permission_id == id))
            db.role_global_permissions w.link_listed).0;
      granted_listed =
          (mem-filter_inv (λ (p : GlobalPermission). not (p.id == id)) db.global_permissions
            w.granted_listed).0;
      holds = w.holds;
    }

  -- An update that does not rename a system permission.
  module _ (id : ℕ) (payload : PermissionUpdateModel) (db : Db)
      (keeps : (g : GlobalPermission)
        → Memᴰ g db.global_permissions
        → g.id ≡ id
        → is_system_permission_id uuid5 id ≡ true
        → or_kept payload.name g.name ≡ g.name) where
    abbrev updated : Db
    updated = set_row id (apply_update payload) db

    abbrev new_version : GlobalPermission → GlobalPermission
    new_version g = if g.id == id then apply_update payload g else g

    new_version-id : (g : GlobalPermission) → (new_version g).id ≡ g.id
    unfolding apply_update
    new_version-id g = ground arith

    new_version-closed_at : (g : GlobalPermission) → (new_version g).closed_at ≡ g.closed_at
    unfolding apply_update
    new_version-closed_at g = ground arith

    new_version-name :
        (g : GlobalPermission)
        → Memᴰ g db.global_permissions
        → g.id ≡ permission_id uuid5 permission
        → (new_version g).name ≡ g.name
    unfolding apply_update
    new_version-name g listed e =
        ground (arith, keeps g listed, is_system_permission_id-permission_id uuid5 permission)

    Grant-updated :
        Grant uuid5 user_id company_id permission db
        → Grant uuid5 user_id company_id permission updated
    unfolding set_row
    Grant-updated w =
        Grant-granted uuid5 user_id company_id permission db updated w (new_version w.granted)
          (w.membership_listed, w.company_listed, w.enabled_listed, w.role_listed, w.link_listed)
          (mem-update_where (λ (p : GlobalPermission). p.id == id) (apply_update payload)
            w.granted_listed)
          (new_version-id w.granted) (new_version-name w.granted w.granted_listed w.system_id)
          (new_version-closed_at w.granted)

    Grant-updated_inv :
        Grant uuid5 user_id company_id permission updated
        → Grant uuid5 user_id company_id permission db
    unfolding set_row
    Grant-updated_inv w =
        let (g, listed, e) =
          mem-update_where_inv (λ (p : GlobalPermission). p.id == id) (apply_update payload)
            db.global_permissions w.granted_listed in
        let same_id : g.id ≡ w.granted.id = cc (new_version-id g) in
        Grant-granted uuid5 user_id company_id permission updated db w g
          (w.membership_listed, w.company_listed, w.enabled_listed, w.role_listed, w.link_listed)
          listed same_id (cc (new_version-name g listed (same_id ∙ w.system_id)))
          (cc (new_version-closed_at g))

-- Whether the call returns or raises, deleting a global permission changes nobody's access, neither
-- as committed nor as the session sees it.
pub delete_permission-SameAccess :
    (ext : Externals) (permission_id : ℕ) (db : Db)
    → let s = (delete_permission ext permission_id (begin db)).1 in
      SameAccess ext.uuid5 db s.saved × SameAccess ext.uuid5 db s.live
delete_permission-SameAccess ext id db = elim (delete_permission-cases ext id db) [
  | inl same ↦ rw same (λ u c p. refl, λ u c p. refl)
  | inr (other, same) ↦
      let access = SameAccess-of_grants ext.uuid5 db (remove_row id (remove_links id db)) (λ u c p.
        (
          Grant-removed_inv ext.uuid5 u c p id other db,
          Grant-removed ext.uuid5 u c p id other db,
        )) in
      rw same (access, access)
]

kept_name :
    (ext : Externals) (payload : PermissionUpdateModel) (p g : GlobalPermission) (id : ℕ)
    → g ≡ p
    → (is_system_permission_id ext.uuid5 id && renames payload p) ≡ false
    → is_system_permission_id ext.uuid5 id ≡ true
    → or_kept payload.name g.name ≡ g.name
unfolding renames
kept_name ext payload p g id same allowed system = rw same (kept_in payload.name (ground arith))
  where
    kept_in :
        (name : Option String)
        → (elim name [ none ↦ false | some n ↦ not (n == p.name) ]) ≡ false
        → or_kept name p.name ≡ p.name
    kept_in none h = refl
    kept_in (some n) h = ground (arith, ==_iff n p.name)

-- If no two global permissions share an identifier or a name, updating one changes nobody's access,
-- whether the call returns or raises, neither as committed nor as the session sees it.
pub update_permission-SameAccess :
    (ext : Externals) (permission_id : ℕ) (payload : PermissionUpdateModel) (db : Db)
    → IsUnique db
    → let s = (update_permission ext permission_id payload (begin db)).1 in
      SameAccess ext.uuid5 db s.saved × SameAccess ext.uuid5 db s.live
update_permission-SameAccess ext id payload db unique =
    elim (update_permission-cases ext id payload db) [
      | inl same ↦ rw same (λ u c p. refl, λ u c p. refl)
      | inr (p, found, allowed, free, same) ↦
          let keeps =
            λ (g : GlobalPermission) (m : Memᴰ g db.global_permissions) (e : g.id ≡ id)
                (system : is_system_permission_id ext.uuid5 id ≡ true).
              kept_name ext payload p g id
                (eq_of_same_id db.global_permissions g p unique m found.listed
                  (e ∙ sym found.same_id))
                allowed system in
          let access =
            SameAccess-of_grants ext.uuid5 db (set_row id (apply_update payload) db) (λ u c p. (
              Grant-updated_inv ext.uuid5 u c p id payload db keeps,
              Grant-updated ext.uuid5 u c p id payload db keeps,
            )) in
          rw same (access, access)
    ]
