-- ===== src/Users.antt =====
-- app/repository/user.py: the lookups of `UserRepository` that authentication uses, the account
-- status, the version of refresh tokens and the deletion. `int` of a text is a parameter.
pub mod Jwt
pub mod Hashing
pub mod Emails
pub mod Password
pub mod Tokens
pub mod Verification
pub mod Auth
use userverse.Base.{
  ℕ, ◌+◌, String, Bool, ◌&&◌, Option, none, some, List, find?, lookup, put, ◌==◌, nat_Eq, string_Eq,
  is_none,
}
use userverse.Messages.{user, user_not_found, user_account_status_update_failed}
use userverse.Database.{
  UserReadModel, Json, text, number, User, MetaData, Db, Error, app_error, Action, pure, gets,
  ◌>>=◌, ◌>>◌, modify, commit, select_one, or_raise, on_any_error,
}
use userverse.Bootstrap.{set_user, refresh_token_version}

-- A status that is no text is read as none.
pub status_of : MetaData → Option String
status_of metadata = elim (lookup "status" metadata) [
  | some (text status) ↦ some status
  | other ↦ none
]

-- `_to_read_model`
pub to_read_model : User → UserReadModel
unfolding status_of
to_read_model u = record {
  id = u.id;
  first_name = u.first_name;
  last_name = u.last_name;
  email = u.email;
  phone_number = u.phone_number;
  status = status_of u.primary_meta_data;
  is_superuser = u.is_superuser;
}

-- `update_json_field` on `primary_meta_data`
pub set_field : String → Json → User → User
set_field key value u = record u { primary_meta_data = put key value u.primary_meta_data }

pub close_user : ℕ → User → User
close_user now u = record u { closed_at = some now }

-- `_active_user_query().filter(User.id == user_id).first()`
pub first_active : ℕ → Db → Option User
first_active user_id db = find? (λ (u : User). (u.id == user_id) && is_none u.closed_at) db.users

-- Every exception of the query becomes a 404.
pub get_user_by_id : ℕ → Action UserReadModel
unfolding to_read_model
get_user_by_id user_id =
    on_any_error
      (do
        found ← select_one (λ db. db.users) (λ (u : User). (u.id == user_id) && is_none u.closed_at)
        u ← or_raise (app_error 404 (user user_not_found)) found
        pure (to_read_model u))
      (app_error 404 (user user_not_found))

pub update_user_status : ℕ → String → Action UserReadModel
unfolding set_field to_read_model
update_user_status user_id account_status = do
  found ← select_one (λ db. db.users) (λ (u : User). (u.id == user_id) && is_none u.closed_at)
  u ← or_raise (app_error 400 (user user_account_status_update_failed)) found
  modify (set_user u.id (set_field "status" (text account_status)))
  commit
  pure (to_read_model (set_field "status" (text account_status) u))

pub delete_user : ℕ → ℕ → Action (Unit {0})
delete_user now user_id = do
  found ← select_one (λ db. db.users) (λ (u : User). (u.id == user_id) && is_none u.closed_at)
  u ← or_raise (app_error 404 (user user_not_found)) found
  modify (set_user u.id (close_user now))
  commit

module _ (int : String → Option ℕ) where
  pub get_refresh_token_version : ℕ → Action ℕ
  unfolding first_active
  get_refresh_token_version user_id = do
    found ← gets (first_active user_id)
    u ← or_raise (app_error 404 (user user_not_found)) found
    pure (refresh_token_version int u.primary_meta_data)

  -- The number that was stored is returned.
  pub increment_refresh_token_version : ℕ → Action ℕ
  unfolding first_active get_refresh_token_version
  increment_refresh_token_version user_id = do
    found ← gets (first_active user_id)
    u ← or_raise (app_error 404 (user user_not_found)) found
    version ← get_refresh_token_version user_id
    modify (set_user u.id (set_field "refresh_token_version" (number (version + 1))))
    commit
    pure (version + 1)
