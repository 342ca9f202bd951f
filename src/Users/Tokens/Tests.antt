-- ===== src/Users/Tokens/Tests.antt =====
-- app/api/security/jwt.py: the tokens of one user.
use userverse.Base.{
  ℕ, String, ◌≡◌, refl, Option, none, some, lookup, ◌==◌, string_Eq, option_Eq, if◌then◌else◌,
}
use userverse.Messages.{security, invalid_token}
use userverse.Database.{MetaData, app_error, ok, err}
use userverse.Database.Samples.{ann}
use userverse.Users.Jwt.{Decoded, payload, invalid_token_error, decode_token}
use userverse.Users.Tokens.{Timeouts, claims, type_of, sign_jwt, decode_verification_token}
use userverse.Users.Tokens.Signed.{decode_token-sign_jwt}

abbrev minutes : Timeouts
minutes = record { session_timeout = 15; refresh_timeout = 60 }

-- A token is the type of its payload.
abbrev by_type : MetaData → String
by_type p = elim (type_of p) [ some t ↦ t | none ↦ "" ]

abbrev of_ann : String → Decoded
of_ann token =
    if token == "access"
    then payload (claims ann "access" 4 115)
    else if token == "refresh"
    then payload (claims ann "refresh" 4 160)
    else invalid_token_error

abbrev no_number : String → Option ℕ
no_number s = none

access_decodes : of_ann (by_type (claims ann "access" 4 115)) ≡ payload (claims ann "access" 4 115)
unfolding type_of claims lookup
access_decodes = refl

refresh_decodes :
    of_ann (by_type (claims ann "refresh" 4 160)) ≡ payload (claims ann "refresh" 4 160)
unfolding type_of claims lookup
refresh_decodes = refl

access_token_is_no_verification :
    decode_verification_token of_ann "access" ≡ err (app_error 403 (security invalid_token))
unfolding decode_verification_token type_of claims lookup
access_token_is_no_verification = refl

decode_token-sign_jwt_example :
    let tokens = sign_jwt by_type minutes 100 ann 4 in
    (decode_token of_ann no_number tokens.access_token "access" ≡ ok (ann, 4))
    × (decode_token of_ann no_number tokens.refresh_token "refresh" ≡ ok (ann, 4))
    × (decode_token of_ann no_number tokens.access_token "refresh"
        ≡ err (app_error 403 (security invalid_token)))
    × (decode_token of_ann no_number tokens.refresh_token "access"
        ≡ err (app_error 403 (security invalid_token)))
decode_token-sign_jwt_example =
    decode_token-sign_jwt by_type of_ann no_number minutes 100 ann 4 access_decodes refresh_decodes
