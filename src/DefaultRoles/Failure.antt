-- ===== src/DefaultRoles/Failure.antt =====
-- app/repository/company.py: `_ensure_default_roles` where a default role was closed.
use userverse.Base.{ℕ, String, List, ◌∷◌, ◌≡◌, false, ◌&&◌, none, arith, is_none, ◌==◌, string_Eq}
use userverse.Database.{Role, Session, ok, err, integrity_error, one_or_none}
use userverse.SystemPermissions.{owner}
use userverse.Roles.Repository.{is_new_role}
use userverse.DefaultRoles.{
  DefaultRole, company_default_roles, ensure_default_role, ensure_each, ensure_default_roles,
}

module _ (uuid5 new_id : String → ℕ) (s : Session) where
  ensure_default_role-closed :
      (d : DefaultRole)
      → one_or_none (λ (r : Role). (r.name == d.name_value) && is_none r.closed_at) s.live.roles
        ≡ ok none
      → is_new_role (new_id d.name_value) d.name_value s.live ≡ false
      → ensure_default_role uuid5 new_id d s ≡ (err integrity_error, s)
  unfolding ensure_default_role
  ensure_default_role-closed d absent taken = ground (arith, absent, taken)

  ensure_each-closed :
      (d : DefaultRole) (ds : List DefaultRole)
      → ensure_default_role uuid5 new_id d s ≡ (err integrity_error, s)
      → ensure_each uuid5 new_id (d ∷ ds) s ≡ (err integrity_error, s)
  unfolding ensure_each
  ensure_each-closed d ds raised = ground (arith, raised)

  each_raised :
      ensure_each uuid5 new_id company_default_roles s ≡ (err integrity_error, s)
      → ensure_default_roles uuid5 new_id s ≡ (err integrity_error, s)
  unfolding ensure_default_roles
  each_raised raised = ground (arith, raised)

  -- The name of a closed role Owner is taken, so that no role can be created.
  pub ensure_default_roles-closed_owner :
      one_or_none (λ (r : Role). (r.name == owner) && is_none r.closed_at) s.live.roles ≡ ok none
      → is_new_role (new_id owner) owner s.live ≡ false
      → ensure_default_roles uuid5 new_id s ≡ (err integrity_error, s)
  unfolding company_default_roles
  ensure_default_roles-closed_owner absent taken =
      let d : DefaultRole = record {
        name_value = owner;
        description = "Full access to manage users and data";
      } in
      each_raised (ensure_each-closed d _ (ensure_default_role-closed d absent taken))
