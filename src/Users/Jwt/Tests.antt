-- ===== src/Users/Jwt/Tests.antt =====
-- app/api/security/jwt.py on the small database: tokens are the texts `old` and `new`.
use userverse.Base.{
  ℕ, String, ◌≡◌, refl, true, Option, none, some, [], ◌∷◌, if◌then◌else◌, ◌==◌, string_Eq, lookup,
  put,
}
use userverse.Messages.{security, user, invalid_token, user_not_found, user_account_inactive}
use userverse.Database.{
  UserReadModel, text, number, dumped_user, Session, begin, app_error, ok, err, one_or_none,
  at_most_one,
}
use userverse.Database.Samples.{ann, small}
use userverse.Bootstrap.{int_value, set_user, refresh_token_version}
use userverse.Users.{
  status_of, to_read_model, set_field, first_active, get_user_by_id, get_refresh_token_version,
  increment_refresh_token_version, delete_user, close_user, update_user_status,
}
use userverse.Users.Jwt.{
  Decoded, payload, invalid_token_error, status_allowed_for_authenticated_access, check_claims,
  decode_token, get_current_user_from_jwt_token,
}
use userverse.Users.Jwt.Revocation.{get_current_user-increment_refresh_token_version}

authenticating : Unit {0}
unfolding int_value set_user refresh_token_version status_of to_read_model set_field first_active
    get_user_by_id get_refresh_token_version increment_refresh_token_version delete_user close_user
    update_user_status status_allowed_for_authenticated_access check_claims decode_token
    get_current_user_from_jwt_token one_or_none at_most_one lookup put
authenticating = tt

abbrev no_int : String → Option ℕ
no_int s = none

abbrev access : ℕ → Decoded
access version = payload (
    ("user", dumped_user ann)
    ∷ ("type", text "access")
    ∷ ("refresh_token_version", number version)
    ∷ [])

abbrev decode : String → Decoded
decode token =
    if token == "old" then access 1 else (if token == "new" then access 2 else invalid_token_error)

abbrev after : Session
after = (increment_refresh_token_version no_int 3 (begin small)).1

version_is_two : (increment_refresh_token_version no_int 3 (begin small)).0 ≡ ok 2
unfolding authenticating
version_is_two = refl

old_token_before :
    (get_current_user_from_jwt_token decode no_int true (some "old") (begin small)).0 ≡ ok ann
unfolding authenticating
old_token_before = refl

old_token_after :
    (get_current_user_from_jwt_token decode no_int true (some "old") after).0
    ≡ err (app_error 401 (security invalid_token))
unfolding authenticating
old_token_after = refl

new_token_after : (get_current_user_from_jwt_token decode no_int true (some "new") after).0 ≡ ok ann
unfolding authenticating
new_token_after = refl

get_current_user-increment_refresh_token_version_example :
    (tu : UserReadModel) × (decode_token decode no_int "new" "access" ≡ ok (tu, 2))
get_current_user-increment_refresh_token_version_example =
    get_current_user-increment_refresh_token_version decode no_int true "new" 3 2 ann small
      version_is_two new_token_after refl

deleted_user_is_refused :
    (get_current_user_from_jwt_token decode no_int true
      (some "old")
      (delete_user 100 3 (begin small)).1).0
    ≡ err (app_error 404 (user user_not_found))
unfolding authenticating
deleted_user_is_refused = refl

suspended_user_is_refused :
    (get_current_user_from_jwt_token decode no_int true
      (some "old")
      (update_user_status 3 "Suspended" (begin small)).1).0
    ≡ err (app_error 403 (user user_account_inactive))
unfolding authenticating
suspended_user_is_refused = refl
