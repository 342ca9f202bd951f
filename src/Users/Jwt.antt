-- ===== src/Users/Jwt.antt =====
-- app/api/security/jwt.py: the checks on decoded tokens, and who a request is. `jwt.decode` is a
-- parameter: it gives the payload, a dict, or raises. A payload's user is a dumped user.
mod Tests
pub mod Revocation
use userverse.Base.{
  ℕ, String, Bool, true, false, ◌&&◌, ◌||◌, not, Option, none, some, lookup, ◌==◌, nat_Eq,
  string_Eq, option_Eq,
}
use userverse.Messages.{
  security, user, invalid_token, missing_user_data, expired_token, invalid_request,
  user_account_inactive,
}
use userverse.Database.{
  UserReadModel, text, number, dumped_user, MetaData, Error, app_error, Action, Result, ok, err,
  pure, raise, lift, ◌>>=◌, ◌>>◌, raise_if,
}
use userverse.Bootstrap.{refresh_token_version}
use userverse.Users.{get_user_by_id, get_refresh_token_version}

pub data Decoded : Type 0 where
  payload : MetaData → Decoded
  expired_signature_error : Decoded
  invalid_token_error : Decoded

-- `_status_allowed_for_authenticated_access`
unfoldable pub status_allowed_for_authenticated_access : Bool → Option String → Bool
status_allowed_for_authenticated_access require_email_verification user_status =
    (user_status == some "Active")
    || (not require_email_verification && (user_status == some "Awaiting Verification"))

-- The user of the claims that pass.
unfoldable pub check_claims : MetaData → String → Result UserReadModel
check_claims decoded expected_type = elim (lookup "type" decoded) [
  | some (text token_type) ↦ elim (token_type == expected_type) [
    | true ↦ elim (lookup "user" decoded) [
      | some (dumped_user u) ↦ ok u
      | other ↦ err (app_error 403 (security missing_user_data))
    ]
    | false ↦ err (app_error 403 (security invalid_token))
  ]
  | other ↦ err (app_error 403 (security invalid_token))
]

module _ (decode : String → Decoded) (int : String → Option ℕ) where
  -- `decode_access_token` and `decode_refresh_token`, by the type that they expect
  unfoldable pub decode_token : String → String → Result (UserReadModel × ℕ)
  unfolding check_claims
  decode_token token expected_type = elim (decode token) [
    | payload decoded ↦ elim (check_claims decoded expected_type) [
      | ok u ↦ ok (u, refresh_token_version int decoded)
      | err e ↦ err e
    ]
    | expired_signature_error ↦ err (app_error 401 (security expired_token))
    | invalid_token_error ↦ err (app_error 401 (security invalid_token))
  ]

  pub get_current_user_from_jwt_token : Bool → Option String → Action UserReadModel
  get_current_user_from_jwt_token require_email_verification none =
      raise (app_error 401 (security invalid_request))
  get_current_user_from_jwt_token require_email_verification (some authorization) = do
    (token_user, token_version) ← lift (decode_token authorization "access")
    current_user ← get_user_by_id token_user.id
    current_version ← get_refresh_token_version int current_user.id
    raise_if (not (token_version == current_version)) (app_error 401 (security invalid_token))
    raise_if
        (not
          (status_allowed_for_authenticated_access require_email_verification current_user.status))
        (app_error 403 (user user_account_inactive))
    pure current_user
