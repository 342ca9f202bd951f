-- ===== src/Users/Tokens/Signed.antt =====
-- app/api/security/jwt.py: what signed tokens are decoded to.
use userverse.Base.{ℕ, ◌+◌, String, ◌≡◌, refl, Option, lookup, string_Eq}
use userverse.Messages.{security, invalid_token}
use userverse.Database.{UserReadModel, MetaData, app_error, ok, err}
use userverse.Bootstrap.{int_value, refresh_token_version}
use userverse.Users.Jwt.{Decoded, payload, check_claims, decode_token}
use userverse.Users.Tokens.{claims, sign_jwt, Timeouts}

module _ (encode : MetaData → String) (decode : String → Decoded) (int : String → Option ℕ)
    (timeouts : Timeouts) (now : ℕ) (u : UserReadModel) (version : ℕ) where
  -- If each of the two payloads that are signed for a user is decoded to itself, then the access token
  -- and the refresh token are decoded to the user and the version, and neither is taken for the other.
  pub decode_token-sign_jwt :
      (let p = claims u "access" version (now + timeouts.session_timeout) in
        decode (encode p) ≡ payload p)
      → (let p = claims u "refresh" version (now + timeouts.refresh_timeout) in
          decode (encode p) ≡ payload p)
      → let tokens = sign_jwt encode timeouts now u version in
        (decode_token decode int tokens.access_token "access" ≡ ok (u, version))
        × (decode_token decode int tokens.refresh_token "refresh" ≡ ok (u, version))
        × (decode_token decode int tokens.access_token "refresh"
            ≡ err (app_error 403 (security invalid_token)))
        × (decode_token decode int tokens.refresh_token "access"
            ≡ err (app_error 403 (security invalid_token)))
  unfolding sign_jwt decode_token check_claims claims refresh_token_version int_value lookup
  decode_token-sign_jwt of_access of_refresh = (
    rw (of_access, decode_token) refl,
    rw (of_refresh, decode_token) refl,
    rw (of_access, decode_token) refl,
    rw (of_refresh, decode_token) refl,
  )
