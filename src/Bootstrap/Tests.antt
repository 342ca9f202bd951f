-- ===== src/Bootstrap/Tests.antt =====
-- app/services/superuser_bootstrap.py on the small database with its control row.
use Prim.Native.String.{count}
use userverse.Base.{
  ℕ, String, ◌≡◌, ◌↔◌, refl, true, false, Option, none, [], ◌∷◌, Memᴰ, lookup, put,
}
use userverse.Database.{
  User, SuperuserBootstrapControl, Db, Session, begin, superuser_bootstrap_error, ok, err,
  one_or_none, at_most_one,
}
use userverse.Database.Samples.{small}
use userverse.Bootstrap.{
  SuperuserBootstrapResult, is_active, set_user, complete_control, set_control, add_event,
  lock_control, refresh_token_version, make_superuser, promote, normalize_email, get_target,
  validate_reason, repeat_or_refuse, bootstrap,
}
use userverse.Bootstrap.Once.{bootstrap-superusers, bootstrap-bootstrap}

bootstrapping : Unit {0}
unfolding is_active set_user complete_control set_control add_event lock_control
    refresh_token_version make_superuser promote normalize_email get_target validate_reason
    repeat_or_refuse bootstrap one_or_none at_most_one lookup put
bootstrapping = tt

abbrev unchanged : String → String
unchanged s = s

abbrev no_int : String → Option ℕ
no_int s = none

abbrev control : SuperuserBootstrapControl
control = record {
  id = 1;
  bootstrap_user_id = none;
  bootstrap_completed_at = none;
  bootstrap_method = none;
}

abbrev ready : Db
ready = record small { controls = control ∷ [] }

abbrev first : Session
first = (bootstrap unchanged unchanged count no_int 100 "ann@x.org" "set-up" 3 (begin ready)).1

abbrev ann_promoted : SuperuserBootstrapResult
ann_promoted = record { user_id = 3; changed = true }

ann_is_promoted :
    (bootstrap unchanged unchanged count no_int 100 "ann@x.org" "set-up" 3 (begin ready)).0
    ≡ ok ann_promoted
unfolding bootstrapping
ann_is_promoted = refl

another_user_is_refused :
    (bootstrap unchanged unchanged count no_int 100 "ann@x.org" "set-up" 4 (begin ready)).0
    ≡ err (superuser_bootstrap_error "The confirmed user ID no longer matches.")
unfolding bootstrapping
another_user_is_refused = refl

repetition_is_reported :
    (bootstrap unchanged unchanged count no_int 200 "ann@x.org" "again" 3 first).0
    ≡ ok (record { user_id = 3; changed = false })
unfolding bootstrapping
repetition_is_reported = refl

bootstrap-superusers_example :
    ((u : User) → Memᴰ u ready.users → u.is_superuser ≡ false)
    × ((u : User) → Memᴰ u first.saved.users → (u.is_superuser ≡ true) ↔ (u.id ≡ 3))
    × ((u : User) × Memᴰ u ready.users
        × (u.id ≡ 3)
        × (u.closed_at ≡ none)
        × (is_active u.primary_meta_data ≡ true))
bootstrap-superusers_example =
    bootstrap-superusers unchanged unchanged count no_int 100 "ann@x.org" "set-up" 3 ready
      ann_promoted ann_is_promoted refl

bootstrap-bootstrap_example :
    (bootstrap unchanged unchanged count no_int 200 "ann@x.org" "again" 3 (begin first.saved)).1
    ≡ begin first.saved
bootstrap-bootstrap_example =
    bootstrap-bootstrap unchanged unchanged count no_int 100 "ann@x.org" "set-up" 3 ready
      ann_promoted ann_is_promoted refl 200 "ann@x.org" "again" 3
