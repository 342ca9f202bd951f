-- ===== src/Roles/Repository/OfCompany/Replacement.antt =====
-- app/repository/company_role.py: `RoleRepository` with a company, and the roles of members.
use userverse.Base.{
  ℕ, String, ◌≡◌, refl, sym, ap, ◌∙◌, subst, ◌⊎◌, inl, inr, Bool, true, false, ◌&&◌, not, Option,
  none, some, Memᴰ, arith, any, any_complete, mem-update_where, mem-update_where_inv, is_none,
  Bool-cases, ◌==◌, ==_iff, nat_Eq, string_Eq,
}
use userverse.Database.{
  UserReadModel, Role, AssociationUserCompany, Db, begin, value_error, one_or_none-cases,
}
use userverse.Permission.{Externals}
use userverse.Roles.{RoleUpdateModel, RoleDeleteModel}
use userverse.Roles.Assignment.{
  set_role_row, is_free_name, apply_role_update, is_assignment, is_member_in, set_assignment,
  close_assignment, get_assignment,
}
use userverse.Roles.Assignment.Steps.{IsEnabled, IsReplacing, get_role_name_assigned-cases}
use userverse.Roles.Assignment.Members.{ids_differ}
use userverse.Roles.Assignment.Placement.{
  MembersHaveRoles, HasUniqueRoleIds, IsPlaced, IsEnabled-set_assignment, close_keeps,
}
use userverse.Roles.Assignment.Updates.{apply_role_update_keeps}
use userverse.Roles.Repository.{note_role, close_role}
use userverse.Roles.Repository.Rows.{HasUniqueRoleIds-set_role_row, IsPlaced-set_role_row}
use userverse.Roles.Repository.OfCompany.{
  update_role_of_company, move_to, move_members, close_role_by, delete_role_and_reassign_users,
  delete_role_of_company,
}

-- An update leaves the database as it was, or it updates the row of a role.
update_role_of_company-cases :
    (ext : Externals) (db : Db) (company_id : ℕ) (name : String) (payload : RoleUpdateModel)
    → ((update_role_of_company company_id ext name payload (begin db)).1 ≡ begin db)
      ⊎ ((id : ℕ) × ((update_role_of_company company_id ext name payload (begin db)).1
            ≡ begin (set_role_row id (apply_role_update payload) db)))
unfolding update_role_of_company
update_role_of_company-cases ext db company_id name payload =
    elim (get_role_name_assigned-cases company_id name value_error (begin db)) [
      | inl (e, raised) ↦ inl (ground (arith, raised))
      | inr (r, returned, enabled, same_name, listed) ↦
          elim (Bool-cases (is_free_name r.id (apply_role_update payload r).name db)) [
            | inl free ↦ inr (r.id, ground (arith, returned, free))
            | inr taken ↦ inl (ground (arith, returned, taken))
          ]
    ]

pub update_role_of_company-IsPlaced :
    (company_id : ℕ) (ext : Externals) (name : String) (payload : RoleUpdateModel) (db : Db)
    → IsPlaced db
    → IsPlaced (update_role_of_company company_id ext name payload (begin db)).1.saved
update_role_of_company-IsPlaced company_id ext name payload db h =
    elim (update_role_of_company-cases ext db company_id name payload) [
      | inl same ↦ rw same h
      | inr (id, same) ↦ rw same (
          IsPlaced-set_role_row id (apply_role_update payload) (apply_role_update_keeps payload) db
            h)
    ]

-- An open member of another company has a role of the name.
abbrev pub is_held_elsewhere : ℕ → String → Db → Bool
is_held_elsewhere company_id name db =
    any
      (λ (a : AssociationUserCompany).
        not (a.company_id == company_id)
        && is_none a.closed_at
        && any (λ (r : Role). (r.id == a.role_id) && (r.name == name)) db.roles)
      db.associations

-- Without a company, or without the user who deletes, nothing changes.
pub delete_role_of_company-without_company :
    (now : ℕ) (payload : RoleDeleteModel) (by : Option UserReadModel) (db : Db)
    → (delete_role_of_company none now payload by (begin db)).1.saved ≡ db
unfolding delete_role_of_company
delete_role_of_company-without_company now payload by db = refl

pub delete_role_of_company-by_nobody :
    (company_id now : ℕ) (payload : RoleDeleteModel) (db : Db)
    → (delete_role_of_company (some company_id) now payload none (begin db)).1.saved ≡ db
unfolding delete_role_of_company
delete_role_of_company-by_nobody company_id now payload db = refl

module _ (company_id now : ℕ) (payload : RoleDeleteModel) (by : UserReadModel) (db : Db) where
  abbrev replaced : Role → Role → Db
  replaced r q =
      set_assignment company_id r.id (close_assignment now)
        (set_role_row r.id (close_role_by now by) (move_members company_id r.id q db))

  -- A deletion leaves the database as it was, or it moves the members, closes the role and its
  -- assignment and commits that.
  delete_role_of_company-cases :
      ((delete_role_of_company (some company_id) now payload (some by) (begin db)).1 ≡ begin db)
      ⊎ ((r : Role) × (q : Role) × IsReplacing company_id payload db r q
          × (r.name ≡ payload.role_name_to_delete)
          × ((delete_role_of_company (some company_id) now payload (some by) (begin db)).1
              ≡ begin (replaced r q)))
  unfolding delete_role_of_company delete_role_and_reassign_users move_members get_assignment
  delete_role_of_company-cases =
      elim (Bool-cases (payload.role_name_to_delete == payload.replacement_role_name)) [
        | inl same_names ↦ inl (ground (arith, same_names))
        | inr differ ↦
            elim (get_role_name_assigned-cases company_id payload.role_name_to_delete value_error
              (begin db)) [
                | inl (e, raised) ↦ inl (ground (arith, differ, raised))
                | inr (r, returned, enabled, r_name, r_listed) ↦
                    elim (get_role_name_assigned-cases company_id payload.replacement_role_name
                      value_error (begin db)) [
                        | inl (e, raised) ↦ inl (ground (arith, differ, returned, raised))
                        | inr (q, found, q_enabled, q_name, q_listed) ↦
                            elim (one_or_none-cases
                              (λ cr. is_assignment company_id r.id cr && is_none cr.closed_at)
                              db.company_roles) [
                                | inl (e, failed) ↦
                                    inl (ground (arith, differ, returned, found, failed))
                                | inr (inl (absent, none_passes)) ↦
                                    inl (ground (arith, differ, returned, found, absent))
                                | inr (inr (cr, present, listed, passes)) ↦ inr (
                                  r,
                                  q,
                                  record {
                                    enabled = enabled;
                                    replacement_enabled = q_enabled;
                                    listed = r_listed;
                                    replacement_listed = q_listed;
                                    names_differ = rw (r_name, q_name) differ;
                                  },
                                  r_name,
                                  ground (arith, differ, returned, found, present),
                                )
                              ]
                      ]
              ]
      ]

  module _ (r q : Role) (unique : HasUniqueRoleIds db)
      (replacing : IsReplacing company_id payload db r q)
      (r_name : r.name ≡ payload.role_name_to_delete)
      (alone : is_held_elsewhere company_id payload.role_name_to_delete db ≡ false) where
    held_elsewhere :
        (b : AssociationUserCompany)
        → Memᴰ b db.associations
        → b.closed_at ≡ none
        → (b.role_id == r.id) ≡ true
        → is_member_in company_id r.id b ≡ false
        → ⊥
    unfolding is_member_in
    held_elsewhere b listed b_open its not_member =
        let named =
          any_complete
            (λ (x : Role). (x.id == b.role_id) && (x.name == payload.role_name_to_delete))
            replacing.listed
            (ground (arith, its, (==_iff r.name payload.role_name_to_delete).1 r_name)) in
        let found =
          any_complete
            (λ (a : AssociationUserCompany).
              not (a.company_id == company_id)
              && is_none a.closed_at
              && any (λ (x : Role). (x.id == a.role_id) && (x.name == payload.role_name_to_delete))
                  db.roles)
            listed (ground (arith, its, not_member, b_open, named)) in
        ground (arith, found, alone)

    -- After the members have moved, an open membership has an enabled role, not the old one.
    is_placed :
        MembersHaveRoles db
        → (a : AssociationUserCompany) → Memᴰ a (move_members company_id r.id q db).associations
        → a.closed_at ≡ none
        → IsEnabled a.company_id a.role_id db × ((a.role_id == r.id) ≡ false)
    unfolding move_members move_to is_member_in
    is_placed h a m o =
        let (b, listed, e) =
          mem-update_where_inv (is_member_in company_id r.id) (move_to q) db.associations m in
        let apart = ids_differ company_id now payload by db r q unique replacing in
        elim (Bool-cases (is_member_in company_id r.id b)) [
          | inl member ↦
              let moved : a ≡ move_to q b = e ∙ (rw member refl) in
              let in_company : a.company_id ≡ company_id =
                ap (λ (x : AssociationUserCompany). x.company_id) moved ∙ (ground arith) in
              let in_role : a.role_id ≡ q.id =
                ap (λ (x : AssociationUserCompany). x.role_id) moved in
              (rw (in_company, in_role) replacing.replacement_enabled, rw in_role apart)
          | inr not_member ↦
              let same : a ≡ b = e ∙ (rw not_member refl) in
              let b_open : b.closed_at ≡ none =
                sym (ap (λ (x : AssociationUserCompany). x.closed_at) same) ∙ o in
              let not_old : (b.role_id == r.id) ≡ false = elim (Bool-cases (b.role_id == r.id)) [
                | inr other ↦ other
                | inl its ↦ absurd (held_elsewhere b listed b_open its not_member)
              ] in
              (
                subst (λ (x : AssociationUserCompany). IsEnabled x.company_id x.role_id db)
                    (sym same) (h b listed b_open),
                subst (λ (x : AssociationUserCompany). (x.role_id == r.id) ≡ false) (sym same)
                    not_old,
              )
        ]

    -- Another role stays enabled.
    IsEnabled-replaced :
        (c id : ℕ) → (id == r.id) ≡ false → IsEnabled c id db → IsEnabled c id (replaced r q)
    unfolding set_role_row move_members
    IsEnabled-replaced c id apart e =
        let closing =
          set_role_row r.id (close_role_by now by) (move_members company_id r.id q db) in
        let other : (e.role.id == r.id) ≡ false = rw (e.same_role) apart in
        let kept =
          mem-update_where (λ (x : Role). x.id == r.id) (close_role_by now by) e.role_listed in
        IsEnabled-set_assignment company_id r.id (close_assignment now) (close_keeps now) c id
          closing (inl (ground (arith, apart)))
          (record {
            enabled = e.enabled;
            role = e.role;
            enabled_listed = e.enabled_listed;
            role_listed = rw other at kept;
            enabled_company = e.enabled_company;
            enabled_role = e.enabled_role;
            enabled_open = e.enabled_open;
            same_role = e.same_role;
            role_open = e.role_open;
          })

    IsPlaced-replaced : MembersHaveRoles db → IsPlaced (replaced r q)
    unfolding set_assignment move_members set_role_row close_role_by close_role note_role
    IsPlaced-replaced h = record {
      unique_ids =
          HasUniqueRoleIds-set_role_row r.id (close_role_by now by) (λ x. refl)
            (move_members company_id r.id q db) unique;
      members_have_roles = λ a m o.
          let (enabled, other) = is_placed h a m o in
          IsEnabled-replaced a.company_id a.role_id other enabled;
    }

  -- A deletion keeps the roles of members, if no open member of another company has the role.
  pub delete_role_of_company-IsPlaced :
      is_held_elsewhere company_id payload.role_name_to_delete db ≡ false
      → IsPlaced db
      → IsPlaced (delete_role_of_company (some company_id) now payload (some by) (begin db)).1.saved
  delete_role_of_company-IsPlaced alone h = elim delete_role_of_company-cases [
    | inl same ↦ rw same h
    | inr (r, q, replacing, r_name, same) ↦
        rw same (IsPlaced-replaced r q h.unique_ids replacing r_name alone h.members_have_roles)
  ]
