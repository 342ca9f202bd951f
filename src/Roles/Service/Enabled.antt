-- ===== src/Roles/Service/Enabled.antt =====
-- app/services/company/role.py: the role that is created for a company.
use userverse.Base.{
  ℕ, String, ◌≡◌, refl, ap, sym, subst, inl, inr, Option, none, some, List, Memᴰ, arith, nat_Eq,
  string_Eq,
}
use userverse.Database.{
  UserReadModel, Role, Db, Session, begin, Result, ok, Action, pure, ◌>>=◌, bind_rule,
}
use userverse.Permission.{RoleReadModel, Externals}
use userverse.Roles.{RoleCreateModel}
use userverse.Roles.Assignment.{assign_role}
use userverse.Roles.Assignment.Steps.{IsEnabled}
use userverse.Roles.Assignment.Enabling.{assign_role-IsEnabled}
use userverse.Roles.Repository.Lookup.{get_role_by_name-cases, create_role-ensure_role_exists}
use userverse.Roles.Repository.{get_role_by_name, ensure_role_exists}
use userverse.Roles.Repository
use userverse.Roles.Service.{ensure_superuser, role_to_assign, create_role_for_company}

-- An open role with a name.
pub record IsNamed (name : String) (role : Role) (db : Db) : Type 0 where
  pub listed : Memᴰ role db.roles
  pub same_name : role.name ≡ name
  pub is_open : role.closed_at ≡ none

-- A role with the name is open and enabled for the company, which is committed.
pub record HasRole (company_id : ℕ) (name : String) (s : Session) : Type 0 where
  pub role : Role
  pub named : IsNamed name role s.live
  pub enabled : IsEnabled company_id role.id s.live
  pub committed : s.saved ≡ s.live

module _ (ext : Externals) (current : UserReadModel) (id : ℕ) (payload : RoleCreateModel) where
  -- What an answer promises: the role, with all committed.
  abbrev Promises : Role → Session → Result Role × Session → Type 0
  Promises role s ended =
      ended ≡ (ok role, s) → (after : Db) × (s ≡ begin after) × IsNamed payload.name role after

  abbrev assigning : Option Role → Action Role
  assigning (some role) = pure role
  assigning none = Repository.create_role ext id payload current >>= λ m. ensure_role_exists m.id

  Promises-found :
      (db : Db) (role : Role) (s : Session) (found : Option Role) (t : Session)
      → get_role_by_name payload.name (begin db) ≡ (ok found, t)
      → Promises role s (assigning found t)
  Promises-found db role s found t ends returned =
      elim (get_role_by_name-cases payload.name (begin db)) [
        | inl (e, failed) ↦ absurd (cc (failed, ends))
        | inr (inl absent) ↦
            let found_is : found ≡ none = ground (arith, absent, ends) in
            let t_is : t ≡ begin db = cc (absent, ends) in
            let rest = rw (found_is, t_is) at returned in
            let (after, same, listed, name, is_open) =
              create_role-ensure_role_exists ext id payload current db role s rest in
            (after, same, record { listed = listed; same_name = name; is_open = is_open })
        | inr (inr (r, present, listed, name, is_open)) ↦
            let found_is : found ≡ some r = ground (arith, present, ends) in
            let t_is : t ≡ begin db = cc (present, ends) in
            let rest = rw (found_is, t_is) at returned in
            let one : r ≡ role = ground (arith, rest) in
            let same : begin db ≡ s = ap (λ (x : Result Role × Session). x.1) rest in
            (
              db,
              sym same,
              subst (λ (x : Role). IsNamed payload.name x db) one
                  (record { listed = listed; same_name = name; is_open = is_open }),
            )
      ]

  role_to_assign-IsNamed :
      (db : Db) (role : Role) (s : Session)
      → Promises role s (role_to_assign ext current id payload (begin db))
  unfolding role_to_assign
  role_to_assign-IsNamed db role s =
      bind_rule (Promises role s) (get_role_by_name payload.name) assigning (begin db)
        (λ e t ends returned. absurd (cc returned)) (Promises-found db role s)

  has_role :
      (company_id : ℕ) (role : Role) (db : Db) (m : RoleReadModel)
      → IsNamed payload.name role db
      → (assign_role company_id ext role current (begin db)).0 ≡ ok m
      → HasRole company_id payload.name (assign_role company_id ext role current (begin db)).1
  has_role company_id role db m named returned =
      let (after, same, enabled, same_roles) =
        assign_role-IsEnabled company_id ext role current db m named.listed named.is_open
          returned in
      subst (λ (s : Session). HasRole company_id payload.name s) (sym same)
        (record {
          role = role;
          named = record {
            listed = subst (λ (rows : List Role). Memᴰ role rows) (sym same_roles) named.listed;
            same_name = named.same_name;
            is_open = named.is_open;
          };
          enabled = enabled;
          committed = refl;
        })

  -- If the creation of a role for a company returns, an open role with the name of the payload is
  -- enabled for the company, whether there was one or it was created; and all is committed.
  pub create_role_for_company-HasRole :
      (company_id : ℕ) (db : Db) (m : RoleReadModel)
      → (create_role_for_company ext current id payload company_id (begin db)).0 ≡ ok m
      → HasRole company_id payload.name
          (create_role_for_company ext current id payload company_id (begin db)).1
  unfolding create_role_for_company ensure_superuser
  create_role_for_company-HasRole company_id db m =
      let enabling = λ (role : Role). assign_role company_id ext role current in
      let promised = λ (ended : Result RoleReadModel × Session).
        ended.0 ≡ ok m → HasRole company_id payload.name ended.1 in
      bind_rule promised (ensure_superuser ext current)
        (λ _. role_to_assign ext current id payload >>= enabling) (begin db)
        (λ e t ends returned. absurd (cc returned))
        (λ _ t ends.
          let t_is : begin db ≡ t = ground (arith, ends) in
          subst (λ (u : Session). promised ((role_to_assign ext current id payload >>= enabling) u))
            t_is
            (bind_rule promised (role_to_assign ext current id payload) enabling (begin db)
              (λ e u ended returned. absurd (cc returned))
              (λ role u ended.
                let (after, same, named) = role_to_assign-IsNamed db role u ended in
                subst (λ (v : Session). promised (enabling role v)) (sym same)
                  (has_role company_id role after m named))))
