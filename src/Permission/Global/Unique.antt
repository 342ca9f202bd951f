-- ===== src/Permission/Global/Unique.antt =====
-- app/repository/permission.py: the unique identifiers and names of global permissions.
use userverse.Base.{
  ℕ, String, ◌≡◌, refl, sym, ap, ◌∙◌, inl, inr, Bool, true, not, ◌&&◌, ◌||◌, List, [], ◌∷◌, Memᴰ,
  arith, all, update_where, all_mem, HasNoConflicts, HasNoConflicts-filter,
  HasNoConflicts-append_one, ◌==◌, ==_iff, nat_Eq, string_Eq, if◌then◌else◌,
}
use userverse.Database.{Session, UserReadModel, GlobalPermission, Db, begin}
use userverse.Permission.{Externals, PermissionCreateModel, PermissionUpdateModel, or_kept}
use userverse.Permission.Global.Steps.{
  IsFound, create_permission-cases, update_permission-cases, delete_permission-cases,
}
use userverse.Permission.Global.{
  is_new, new_row, add_row, create_permission, is_free, apply_update, set_row, remove_row,
  remove_links, update_permission, delete_permission,
}

-- No two global permissions have one identifier or one name: the constraints of the table.
abbrev pub in_conflict : GlobalPermission → GlobalPermission → Bool
in_conflict p q = (p.id == q.id) || (p.name == q.name)

abbrev pub IsUnique : Db → Type 0
IsUnique db = HasNoConflicts in_conflict db.global_permissions

pub eq_of_same_id :
    (rows : List GlobalPermission) (p q : GlobalPermission)
    → HasNoConflicts in_conflict rows
    → Memᴰ p rows
    → Memᴰ q rows
    → p.id ≡ q.id
    → p ≡ q
eq_of_same_id [] p q h m n e = elim m [ ]
eq_of_same_id (x ∷ rows) p q h (Memᴰ.head a) (Memᴰ.head b) e = a ∙ sym b
eq_of_same_id (x ∷ rows) p q h (Memᴰ.head a) (Memᴰ.tail n) e =
    absurd (let apart = all_mem (λ y. not (in_conflict x y)) h.0 n in ground arith)
eq_of_same_id (x ∷ rows) p q h (Memᴰ.tail m) (Memᴰ.head b) e =
    absurd (let apart = all_mem (λ y. not (in_conflict x y)) h.0 m in ground arith)
eq_of_same_id (x ∷ rows) p q h (Memᴰ.tail m) (Memᴰ.tail n) e = eq_of_same_id rows p q h.1 m n e

all-is_new :
    (id : ℕ) (payload : PermissionCreateModel) (created_by : UserReadModel)
    (rows : List GlobalPermission)
    → all (λ p. not (p.id == id) && not (p.name == payload.name)) rows ≡ true
    → all (λ p. not (in_conflict p (new_row id payload created_by))) rows ≡ true
unfolding new_row
all-is_new id payload created_by [] h = refl
all-is_new id payload created_by (p ∷ rows) h =
    ground (arith, all-is_new id payload created_by rows)

-- A creation, whether it returns or raises, leaves no two of them in conflict if none were.
create_permission-IsUnique :
    (id : ℕ) (payload : PermissionCreateModel) (created_by : UserReadModel) (db : Db)
    → IsUnique db
    → let s = (create_permission id payload created_by (begin db)).1 in
      IsUnique s.saved × IsUnique s.live
unfolding is_new add_row
create_permission-IsUnique id payload created_by db h =
    elim (create_permission-cases id payload created_by db) [
      | inl same ↦ rw same (h, h)
      | inr (fresh, same) ↦
          let unique =
            HasNoConflicts-append_one in_conflict db.global_permissions
              (new_row id payload created_by) h
              (all-is_new id payload created_by db.global_permissions fresh) in
          rw same (unique, unique)
    ]

module _ (id : ℕ) (name : String) (payload : PermissionUpdateModel) where
  abbrev is_apart : GlobalPermission → Bool
  is_apart p = (p.id == id) || not (p.name == name)

  abbrev changed : GlobalPermission → GlobalPermission
  changed p = if p.id == id then apply_update payload p else p

  changed_apart :
      (p q : GlobalPermission)
      → not (in_conflict p q) ≡ true
      → is_apart p ≡ true
      → is_apart q ≡ true
      → (p.id ≡ id → or_kept payload.name p.name ≡ name)
      → (q.id ≡ id → or_kept payload.name q.name ≡ name)
      → not (in_conflict (changed p) (changed q)) ≡ true
  unfolding apply_update
  changed_apart p q apart free_p free_q named_p named_q = ground (
    arith,
    ==_iff p.name name,
    ==_iff q.name name,
    ==_iff name p.name,
    ==_iff name q.name,
    ==_iff p.name q.name,
  )

  -- The rows with the identifier get the name that was tested.
  abbrev AreNamed : List GlobalPermission → Type 0
  AreNamed rows =
      (g : GlobalPermission) → Memᴰ g rows → g.id ≡ id → or_kept payload.name g.name ≡ name

  all-changed :
      (p : GlobalPermission) (rows : List GlobalPermission)
      → all (λ q. not (in_conflict p q)) rows ≡ true
      → is_apart p ≡ true
      → all is_apart rows ≡ true
      → (p.id ≡ id → or_kept payload.name p.name ≡ name)
      → AreNamed rows
      → all
          (λ q. not (in_conflict (changed p) q))
          (update_where (λ g. g.id == id) (apply_update payload) rows)
        ≡ true
  all-changed p [] apart free_p free named_p named = refl
  all-changed p (q ∷ rows) apart free_p free named_p named =
      let here =
        changed_apart p q (ground arith) free_p (ground arith) named_p (named q (Memᴰ.head refl)) in
      let later =
        all-changed p rows (ground arith) free_p (ground arith) named_p
          (λ g m. named g (Memᴰ.tail m)) in
      rw (here, later)

  HasNoConflicts-changed :
      (rows : List GlobalPermission)
      → HasNoConflicts in_conflict rows
      → all is_apart rows ≡ true
      → AreNamed rows
      → HasNoConflicts in_conflict (update_where (λ g. g.id == id) (apply_update payload) rows)
  HasNoConflicts-changed [] h free named = tt
  HasNoConflicts-changed (p ∷ rows) h free named = (
    all-changed p rows h.0 (ground arith) (ground arith) (named p (Memᴰ.head refl))
        (λ g m. named g (Memᴰ.tail m)),
    HasNoConflicts-changed rows h.1 (ground arith) (λ g m. named g (Memᴰ.tail m)),
  )

set_row-IsUnique :
    (payload : PermissionUpdateModel) (id : ℕ) (p : GlobalPermission) (db : Db)
    → IsUnique db
    → IsFound id db p
    → is_free id (apply_update payload p).name db ≡ true
    → IsUnique (set_row id (apply_update payload) db)
unfolding is_free apply_update set_row
set_row-IsUnique payload id p db h found free =
    HasNoConflicts-changed id (or_kept payload.name p.name) payload db.global_permissions h free
      λ g m e.
        ap (λ (q : GlobalPermission). or_kept payload.name q.name)
          (eq_of_same_id db.global_permissions g p h m found.listed (e ∙ sym found.same_id))

-- An update, whether it returns or raises, leaves no two of them in conflict if none were.
update_permission-IsUnique :
    (ext : Externals) (id : ℕ) (payload : PermissionUpdateModel) (db : Db)
    → IsUnique db
    → let s = (update_permission ext id payload (begin db)).1 in IsUnique s.saved × IsUnique s.live
unfolding set_row
update_permission-IsUnique ext id payload db h = elim (update_permission-cases ext id payload db) [
  | inl same ↦ rw same (h, h)
  | inr (p, found, allowed, free, same) ↦
      let unique = set_row-IsUnique payload id p db h found free in rw same (unique, unique)
]

-- A deletion, whether it returns or raises, leaves no two of them in conflict if none were.
delete_permission-IsUnique :
    (ext : Externals) (id : ℕ) (db : Db)
    → IsUnique db
    → let s = (delete_permission ext id (begin db)).1 in IsUnique s.saved × IsUnique s.live
unfolding remove_row remove_links
delete_permission-IsUnique ext id db h = elim (delete_permission-cases ext id db) [
  | inl same ↦ rw same (h, h)
  | inr (other, same) ↦
      let unique =
        HasNoConflicts-filter in_conflict (λ p. not (p.id == id)) db.global_permissions h in
      rw same (unique, unique)
]

-- If no two global permissions share an identifier or a name, then none do after a creation, after an
-- update and after a deletion, whether the call returns or raises, neither as committed nor as the
-- session sees it.
pub management-IsUnique :
    (ext : Externals) (id permission_id : ℕ) (new : PermissionCreateModel)
    (update : PermissionUpdateModel) (by : UserReadModel) (db : Db)
    → IsUnique db
    → let unique = λ (s : Session). IsUnique s.saved × IsUnique s.live in
      unique (create_permission id new by (begin db)).1
      × unique (update_permission ext permission_id update (begin db)).1
      × unique (delete_permission ext permission_id (begin db)).1
management-IsUnique ext id permission_id new update by db h = (
  create_permission-IsUnique id new by db h,
  update_permission-IsUnique ext permission_id update db h,
  delete_permission-IsUnique ext permission_id db h,
)
