-- ===== src/Permission/Global/Steps.antt =====
-- app/repository/permission.py: how the calls of `GlobalPermissionRepository` end.
use userverse.Base.{
  ℕ, ◌≡◌, ◌⊎◌, inl, inr, true, false, ◌&&◌, none, Memᴰ, arith, ◌==◌, nat_Eq, string_Eq, is_none,
  Bool-cases,
}
use userverse.Messages.{not_found}
use userverse.Database.{
  UserReadModel, GlobalPermission, Db, Session, begin, Error, ok, err, or_raise-cases,
}
use userverse.SystemPermissions.{is_system_permission_id}
use userverse.Permission.{Externals, PermissionCreateModel, PermissionUpdateModel, failure}
use userverse.Permission.Global.{
  get_record, ensure_record, is_new, new_row, add_row, create_permission, is_free, apply_update,
  set_row, renames, remove_row, remove_links, update_permission, delete_permission,
}

-- A row that `ensure_record` may return.
pub record IsFound (id : ℕ) (db : Db) (p : GlobalPermission) : Type 0 where
  pub listed : Memᴰ p db.global_permissions
  pub same_id : p.id ≡ id
  pub is_open : p.closed_at ≡ none

pub ensure_record-cases :
    (id : ℕ) (s : Session)
    → ((e : Error) × (ensure_record id s ≡ (err e, s)))
      ⊎ ((p : GlobalPermission) × (ensure_record id s ≡ (ok p, s)) × IsFound id s.live p)
unfolding ensure_record
ensure_record-cases id s =
    elim (or_raise-cases (λ db. db.global_permissions) (λ p. (p.id == id) && is_none p.closed_at)
      (failure 404 not_found) s) [
        | inl (e, raised) ↦ inl (e, raised)
        | inr (p, returned, listed, passes) ↦ inr (
          p,
          returned,
          record { listed = listed; same_id = ground arith; is_open = ground arith },
        )
      ]

-- What `ensure_record` returns depends on the permissions' rows only.
pub ensure_record-same_rows :
    (id : ℕ) (db db' : Db)
    → db'.global_permissions ≡ db.global_permissions
    → ensure_record id (begin db') ≡ ((ensure_record id (begin db)).0, begin db')
unfolding ensure_record get_record
ensure_record-same_rows id db db' e = ground (arith, e)

-- A deletion leaves the database as it was, or it removes a permission that is no system
-- permission, with its links to roles, and commits that.
pub delete_permission-cases :
    (ext : Externals) (id : ℕ) (db : Db)
    → ((delete_permission ext id (begin db)).1 ≡ begin db)
      ⊎ ((is_system_permission_id ext.uuid5 id ≡ false)
          × ((delete_permission ext id (begin db)).1 ≡ begin (remove_row id (remove_links id db))))
unfolding delete_permission
delete_permission-cases ext id db = elim (ensure_record-cases id (begin db)) [
  | inl (e, raised) ↦ inl (ground (arith, raised))
  | inr (p, returned, found) ↦ ground (arith, returned, found.same_id)
]

-- An update leaves the database as it was, or it changes the open row of its permission, without
-- renaming a system permission, and commits that.
pub update_permission-cases :
    (ext : Externals) (id : ℕ) (payload : PermissionUpdateModel) (db : Db)
    → ((update_permission ext id payload (begin db)).1 ≡ begin db)
      ⊎ ((p : GlobalPermission) × IsFound id db p
          × ((is_system_permission_id ext.uuid5 id && renames payload p) ≡ false)
          × (is_free id (apply_update payload p).name db ≡ true)
          × ((update_permission ext id payload (begin db)).1
              ≡ begin (set_row id (apply_update payload) db)))
unfolding update_permission
update_permission-cases ext id payload db = elim (ensure_record-cases id (begin db)) [
  | inl (e, raised) ↦ inl (ground (arith, raised))
  | inr (p, returned, found) ↦
      elim (Bool-cases (is_system_permission_id ext.uuid5 id && renames payload p)) [
        | inl protected ↦ inl (ground (arith, returned, found.same_id))
        | inr allowed ↦ elim (Bool-cases (is_free id (apply_update payload p).name db)) [
          | inl free ↦ inr (p, found, allowed, free, ground (arith, returned, found.same_id))
          | inr taken ↦ inl (ground (arith, returned, found.same_id))
        ]
      ]
]

-- A creation leaves the database as it was, or it adds a row with a new identifier and a new name,
-- and commits that.
pub create_permission-cases :
    (id : ℕ) (payload : PermissionCreateModel) (created_by : UserReadModel) (db : Db)
    → ((create_permission id payload created_by (begin db)).1 ≡ begin db)
      ⊎ ((is_new id payload.name db ≡ true)
          × ((create_permission id payload created_by (begin db)).1
              ≡ begin (add_row (new_row id payload created_by) db)))
unfolding create_permission
create_permission-cases id payload created_by db = ground arith
