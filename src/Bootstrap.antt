-- ===== src/Bootstrap.antt =====
-- app/services/superuser_bootstrap.py. `str.strip`, `str.lower`, the length of a text, `int` of a
-- text and the instant of the call are parameters; `func.lower` of the database is `str.lower`. An
-- error has the first sentence of its message.
mod Tests
pub mod Steps
pub mod Once
use userverse.Base.{
  ℕ, ◌+◌, String, Bool, true, false, ◌&&◌, not, Option, none, some, List, [], ◌∷◌, ◌++◌, any,
  filter, find?, length, leb, lookup, put, update_where, ◌==◌, nat_Eq, string_Eq, option_Eq,
  is_none, is_some, if◌then◌else◌,
}
use userverse.Database.{
  Json, text, number, flag, dumped_user, reset_record, dumped_address, MetaData, User,
  SuperuserBootstrapControl, PrivilegedAccessEvent, Db, Error, superuser_bootstrap_error, no_result,
  Action, pure, raise, gets, ◌>>=◌, ◌>>◌, modify, commit, rollback, raise_if, on_exception,
  select_one, or_raise,
}

pub record SuperuserBootstrapResult : Type 0 where
  pub user_id : ℕ
  pub changed : Bool

-- `SINGLETON_ID`
abbrev pub singleton_id : ℕ
singleton_id = 1

abbrev max_reason_length : ℕ
max_reason_length = 1024

-- `metadata.get("status") != UserAccountStatus.ACTIVE.name_value` is its negation.
unfoldable pub is_active : MetaData → Bool
is_active metadata = elim (lookup "status" metadata) [
  | some (text status) ↦ status == "Active"
  | other ↦ false
]

unfoldable pub set_user : ℕ → (User → User) → Db → Db
set_user id f db = record db { users = update_where (λ u. u.id == id) f db.users }

pub complete_control : ℕ → ℕ → SuperuserBootstrapControl → SuperuserBootstrapControl
complete_control user_id now c = record c {
  bootstrap_user_id = some user_id;
  bootstrap_completed_at = some now;
  bootstrap_method = some "operator_cli";
}

pub set_control : (SuperuserBootstrapControl → SuperuserBootstrapControl) → Db → Db
set_control f db = record db { controls = update_where (λ c. c.id == singleton_id) f db.controls }

pub add_event : ℕ → String → Db → Db
add_event user_id reason db = record db {
  events =
      db.events
      ++ record {
        target_user_id = user_id;
        action = "superuser_bootstrapped";
        source = "operator_cli";
        reason = reason;
        previous_superuser = false;
        resulting_superuser = true;
      }
        ∷ [];
}

-- The row is locked for the rest of the transaction; its `_updated_at` is not modelled.
pub lock_control : Action SuperuserBootstrapControl
lock_control = do
  rowcount ← gets (λ db. length (filter (λ c. c.id == singleton_id) db.controls))
  raise_if (not (rowcount == 1))
      (superuser_bootstrap_error "Superuser bootstrap control is missing.")
  found ← select_one (λ db. db.controls) (λ c. c.id == singleton_id)
  or_raise no_result found

module _ (int : String → Option ℕ) where
  -- `int(value)` of what `get` finds, and 0 where that raises or nothing is found
  unfoldable pub int_value : Option Json → ℕ
  int_value none = 0
  int_value (some (number n)) = n
  int_value (some (flag b)) = if b then 1 else 0
  int_value (some (text s)) = elim (int s) [ none ↦ 0 | some n ↦ n ]
  int_value (some (dumped_user u)) = 0
  int_value (some (reset_record method token created_at expires_at)) = 0
  int_value (some (dumped_address a)) = 0

  unfoldable pub refresh_token_version : MetaData → ℕ
  unfolding int_value
  refresh_token_version metadata = int_value (lookup "refresh_token_version" metadata)

  pub make_superuser : User → User
  unfolding refresh_token_version
  make_superuser u = record u {
    is_superuser = true;
    primary_meta_data =
        put "refresh_token_version" (number (refresh_token_version u.primary_meta_data + 1))
          u.primary_meta_data;
  }

  -- The part that follows the checks of a completed bootstrap.
  pub promote : ℕ → User → String → Action SuperuserBootstrapResult
  promote now target reason = do
    existing ← gets (λ db. find? (λ (u : User). u.is_superuser) db.users)
    raise_if (is_some existing)
        (superuser_bootstrap_error "A superuser already exists, so initial bootstrap is disabled.")
    modify (set_user target.id make_superuser)
    modify (set_control (complete_control target.id now))
    modify (add_event target.id reason)
    commit
    pure (record { user_id = target.id; changed = true })

module _ (strip lower : String → String) where
  pub normalize_email : String → Action String
  normalize_email email = do
    let normalized = lower (strip email)
    raise_if (normalized == "") (superuser_bootstrap_error "An existing user's email is required.")
    pure normalized

  pub get_target : String → Action User
  unfolding normalize_email is_active
  get_target email = do
    normalized ← normalize_email email
    found ← select_one (λ db. db.users) (λ u. (lower u.email == normalized) && is_none u.closed_at)
    user ←
        or_raise (superuser_bootstrap_error "No active user exists for the supplied email.") found
    raise_if (not (is_active user.primary_meta_data))
        (superuser_bootstrap_error "The bootstrap target must be active and verified.")
    pure user

module _ (strip : String → String) (len : String → ℕ) where
  pub validate_reason : String → Action String
  validate_reason reason = do
    let normalized = strip reason
    raise_if (normalized == "") (superuser_bootstrap_error "A bootstrap reason is required.")
    raise_if (not (leb (len normalized) max_reason_length))
        (superuser_bootstrap_error "The bootstrap reason cannot exceed 1024 characters.")
    pure normalized

pub repeat_or_refuse : SuperuserBootstrapControl → User → Action SuperuserBootstrapResult
repeat_or_refuse control target =
    if (control.bootstrap_user_id == some target.id) && target.is_superuser
    then (do rollback; pure (record { user_id = target.id; changed = false }))
    else raise (superuser_bootstrap_error "Initial superuser bootstrap has already been completed.")

module _ (strip lower : String → String) (len : String → ℕ) (int : String → Option ℕ) where
  pub bootstrap : ℕ → String → String → ℕ → Action SuperuserBootstrapResult
  bootstrap now email reason expected_user_id = do
    normalized_reason ← validate_reason strip len reason
    on_exception
        (do
          control ← lock_control
          target ← get_target strip lower email
          raise_if (not (target.id == expected_user_id))
              (superuser_bootstrap_error "The confirmed user ID no longer matches.")
          if is_some control.bootstrap_completed_at
              then repeat_or_refuse control target
              else promote int now target normalized_reason)
        (λ e. e)
