-- ===== src/Users/Tokens.antt =====
-- app/api/security/jwt.py: the tokens that `JWTManager` signs. `jwt.encode` is a parameter; an expiry
-- is a number of ticks, and its text in the response is left out.
pub mod Signed
mod Tests
use userverse.Base.{
  ℕ, ◌+◌, String, Bool, not, ◌||◌, Option, none, some, [], ◌∷◌, lookup, put, ◌==◌, nat_Eq,
  string_Eq, if◌then◌else◌,
}
use userverse.Messages.{security, invalid_token, expired_token}
use userverse.Database.{
  UserReadModel, Json, text, number, dumped_user, MetaData, app_error, Result, ok, err,
}
use userverse.Users.Jwt.{
  Decoded, payload, expired_signature_error, invalid_token_error, decode_token,
}

-- The instants at which the tokens of a pair expire.
pub record TokenResponseModel : Type 0 where
  pub access_token : String
  pub access_token_expiration : ℕ
  pub refresh_token : String
  pub refresh_token_expiration : ℕ

pub record Timeouts : Type 0 where
  pub session_timeout : ℕ
  pub refresh_timeout : ℕ

unfoldable pub claims : UserReadModel → (token_type : String) → (version expires_at : ℕ) → MetaData
claims u token_type version expires_at =
    ("user", dumped_user u)
    ∷ ("type", text token_type)
    ∷ ("refresh_token_version", number version)
    ∷ ("exp", number expires_at)
    ∷ []

module _ (encode : MetaData → String) where
  unfoldable pub sign_jwt :
      Timeouts → (now : ℕ) → UserReadModel → (refresh_token_version : ℕ) → TokenResponseModel
  unfolding claims
  sign_jwt timeouts now u version =
      let access_expire = now + timeouts.session_timeout in
      let refresh_expire = now + timeouts.refresh_timeout in
      record {
        access_token = encode (claims u "access" version access_expire);
        access_token_expiration = access_expire;
        refresh_token = encode (claims u "refresh" version refresh_expire);
        refresh_token_expiration = refresh_expire;
      }

  pub sign_payload : MetaData → (now expires_delta : ℕ) → String
  sign_payload p now expires_delta = encode (put "exp" (number (now + expires_delta)) p)

  module _ (decode : String → Decoded) (int : String → Option ℕ) where
    unfoldable pub refresh_token :
        Timeouts
        → (now : ℕ) → (token : String) → UserReadModel
        → (version : ℕ) → Result TokenResponseModel
    unfolding sign_jwt
    refresh_token timeouts now token u version = elim (decode_token decode int token "refresh") [
      | err e ↦ err e
      | ok (token_user, token_version) ↦
          if not (token_user.id == u.id) || not (token_version == version)
          then err (app_error 401 (security invalid_token))
          else ok (sign_jwt timeouts now u version)
    ]

-- The type of a payload.
unfoldable pub type_of : MetaData → Option String
type_of p = elim (lookup "type" p) [ some (text t) ↦ some t | other ↦ none ]

-- The error of a wrong type is raised inside the `try` block, whose last clause replaces it.
unfoldable pub decode_verification_token : (String → Decoded) → String → Result MetaData
unfolding type_of
decode_verification_token decode token = elim (decode token) [
  | payload p ↦ elim (type_of p) [
    | some t ↦ if t == "verification" then ok p else err (app_error 403 (security invalid_token))
    | none ↦ err (app_error 403 (security invalid_token))
  ]
  | expired_signature_error ↦ err (app_error 403 (security expired_token))
  | invalid_token_error ↦ err (app_error 403 (security invalid_token))
]
