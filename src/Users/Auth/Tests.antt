-- ===== src/Users/Auth/Tests.antt =====
-- app/services/user/basic_auth.py and app/services/user/profile.py: the sessions of one user.
use userverse.Base.{
  ℕ, String, ◌≡◌, refl, true, false, Option, none, some, lookup, put, ◌==◌, string_Eq,
  if◌then◌else◌,
}
use userverse.Messages.{user, user_already_exists, user_account_inactive, invalid_request_message}
use userverse.Database.{MetaData, begin, Error, app_error, ok, err, one_or_none, at_most_one}
use userverse.Database.Samples.{ann, small}
use userverse.Bootstrap.{set_user, refresh_token_version, int_value}
use userverse.Users.{
  status_of, to_read_model, set_field, first_active, get_user_by_id, update_user_status,
  get_refresh_token_version, increment_refresh_token_version,
}
use userverse.Users.Hashing.{Bcrypt, is_bcrypt_hash, hash_password, verify_password}
use userverse.Users.Emails.{
  get_user_record_by_email, set_password, check_password, check_given, get_user_by_email, keep,
  apply_user_update, new_user, is_new_user, add_user, create_user, update_user,
}
use userverse.Users.Jwt.{
  Decoded, payload, invalid_token_error, status_allowed_for_authenticated_access, check_claims,
  decode_token,
}
use userverse.Users.Tokens.{Timeouts, TokenResponseModel, claims, sign_jwt, refresh_token}
use userverse.Users.Auth.{
  UserLoginModel, ensure_user_is_active, create_account, given, hashed_if_given, update_profile,
  user_login, refresh_user_token, revoke_refresh_token,
}
use userverse.Users.Auth.Login.{refresh_user_token-revoke_refresh_token}

abbrev minutes : Timeouts
minutes = record { session_timeout = 15; refresh_timeout = 60 }

abbrev unsigned : MetaData → String
unsigned p = "token"

-- One refresh token of Ann's is valid.
abbrev of_ann : String → Decoded
of_ann token = if token == "r" then payload (claims ann "refresh" 1 160) else invalid_token_error

abbrev no_number : String → Option ℕ
no_number s = none

-- Passwords are stored as they are.
abbrev unhashed : Bcrypt
unhashed = record { hashpw = λ p s. p; checkpw = λ p h. none }

abbrev ann_logs_in : UserLoginModel
ann_logs_in = record { email = "ann@x.org"; password = "hash" }

sessions : Unit {0}
unfolding is_bcrypt_hash hash_password verify_password get_user_record_by_email set_password
    check_password check_given get_user_by_email keep apply_user_update new_user is_new_user
    add_user create_user update_user status_of to_read_model set_field first_active get_user_by_id
    update_user_status get_refresh_token_version increment_refresh_token_version check_claims
    decode_token claims sign_jwt refresh_token ensure_user_is_active create_account given
    hashed_if_given update_profile user_login refresh_user_token revoke_refresh_token set_user
    status_allowed_for_authenticated_access refresh_token_version int_value lookup put one_or_none
    at_most_one
sessions = tt

-- A login makes the version two, so that the token of version one is refused.
login_ends_sessions :
    let s =
      (user_login unsigned of_ann no_number minutes false unhashed "" ann_logs_in 100
        (begin small)).1 in
    get_refresh_token_version no_number 3 s ≡ (ok 2, s)
unfolding sessions
login_ends_sessions = refl

unverified_login_is_refused :
    let s = (update_user_status 3 "Awaiting Verification" (begin small)).1 in
    (user_login unsigned of_ann no_number minutes true unhashed "" ann_logs_in 100 s).0
    ≡ err (app_error 403 (user user_account_inactive))
unfolding sessions
unverified_login_is_refused = refl

second_account_is_refused :
    (create_account unhashed "" true true 9 ann_logs_in
      (record { first_name = none; last_name = none; phone_number = none })
      (begin small)).0
    ≡ err (app_error 409 (user user_already_exists))
unfolding sessions
second_account_is_refused = refl

empty_update_is_refused :
    (update_profile unhashed "" 3
      (record { first_name = some ""; last_name = none; phone_number = none; password = none })
      (begin small)).0
    ≡ err (app_error 400 (user invalid_request_message))
unfolding sessions
empty_update_is_refused = refl

abbrev new_tokens : TokenResponseModel
new_tokens = sign_jwt unsigned minutes 100 ann 1

refresh_returns :
    (refresh_user_token unsigned of_ann no_number minutes false "r" 100 (begin small)).0
    ≡ ok new_tokens
unfolding sessions
refresh_returns = refl

revoke_returns :
    (revoke_refresh_token unsigned of_ann no_number minutes false "r" (begin small)).0 ≡ ok tt
unfolding sessions
revoke_returns = refl

refresh_user_token-revoke_refresh_token_example :
    let s = (revoke_refresh_token unsigned of_ann no_number minutes false "r" (begin small)).1 in
    (e : Error) × (refresh_user_token unsigned of_ann no_number minutes false "r" 101 s
      ≡ (err e, s))
refresh_user_token-revoke_refresh_token_example =
    refresh_user_token-revoke_refresh_token unsigned of_ann no_number minutes false "r" 100 101
      small new_tokens refresh_returns revoke_returns
