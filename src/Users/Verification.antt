-- ===== src/Users/Verification.antt =====
-- app/services/user/verification.py: `UserVerificationService`. The limiter of requests is a state
-- beside the session, and a message that is sent is a value.
pub mod Status
mod Tests
use Prim.Native.String.{◌++◌ as str_append}
use userverse.Base.{
  ℕ, String, Bool, not, Option, none, some, [], ◌∷◌, lookup, ◌==◌, string_Eq, option_Eq,
  if◌then◌else◌,
}
use userverse.Messages.{
  Message, user, email_verification_failed, invalid_verification_token, user_account_already_active,
  user_account_verified, verification_email_resent, verification_rate_limited, literal,
}
use userverse.Database.{
  UserReadModel, Json, text, MetaData, User, Session, Error, app_error, Result, ok, err, Action,
  pure, raise, gets, lift, ◌>>=◌, ◌>>◌, raise_if,
}
use userverse.RateLimiter.{PasswordResetRateLimiter, check, is_accepted}
use userverse.Users.{status_of, update_user_status}
use userverse.Users.Hashing.{Bcrypt}
use userverse.Users.Emails.{get_user_by_email, get_user_record_by_email}
use userverse.Users.Jwt.{Decoded}
use userverse.Users.Tokens.{sign_payload, decode_verification_token, type_of}

-- `payload.get("sub")`, where it is truthy
pub subject_of : MetaData → Option String
subject_of p = elim (lookup "sub" p) [
  | some (text email) ↦ if email == "" then none else some email
  | other ↦ none
]

module _ (bcrypt : Bcrypt) (salt : String) (decode : String → Decoded) where
  -- The account of the token's email becomes active, if it awaits that.
  pub activate : String → Action Message
  activate email = do
    u ← get_user_by_email bcrypt salt email none
    if u.status == some "Active" then pure (user user_account_already_active) else (do
      raise_if (not (u.status == some "Awaiting Verification"))
          (app_error 403 (literal "User account is not awaiting verification"))
      _ ← update_user_status u.id "Active"
      pure (user user_account_verified))

  pub verify_user_account : String → Action Message
  unfolding subject_of activate
  verify_user_account token = do
    p ← lift (decode_verification_token decode token)
    elim (subject_of p) [
      | none ↦ raise (app_error 400 (user email_verification_failed))
      | some email ↦ (do
        raise_if (not (type_of p == some "verification"))
            (app_error 400 (user invalid_verification_token))
        activate email)
    ]

-- A message with the link, to an email.
pub record VerificationMail : Type 0 where
  pub to : String
  pub verification_link : String

-- What follows the limiter.
send_link :
    (encode : MetaData → String)
    → (server_url : String) → (verification_required : Bool) → (email : String) → (now : ℕ)
    → Action (Message × Option VerificationMail)
send_link encode server_url verification_required email now =
    if not verification_required then pure (user verification_email_resent, none) else (do
      found ← gets (get_user_record_by_email email)
      elim found [
        | none ↦ pure (user verification_email_resent, none)
        | some u ↦
            if not (status_of u.primary_meta_data == some "Awaiting Verification")
            then pure (user verification_email_resent, none)
            else (let token =
                  sign_payload encode (("sub", text u.email) ∷ ("type", text "verification") ∷ [])
                    now 1440 in
                pure (
                  user verification_email_resent,
                  some (record {
                    to = u.email;
                    verification_link =
                        str_append server_url (str_append "/user/verify?token=" token);
                  }),
                ))
      ])

-- `str.rstrip('/')` is a parameter. A tick of the tokens' clock is a minute.
resend_verification_email :
    (lower rstrip : String → String)
    → (encode : MetaData → String) → (server_url : String) → (verification_required : Bool)
    → (email : String) → (client_ip : Option String) → (clock : ℕ × ℕ × ℕ) → (now : ℕ)
    → PasswordResetRateLimiter
    → Session
    → (Result (Message × Option VerificationMail) × Session) × PasswordResetRateLimiter
unfolding send_link
resend_verification_email lower rstrip encode server_url required email client_ip clock now limiter
      s =
    let (outcome, limiter') = check lower email client_ip clock limiter in
    if is_accepted outcome
    then (send_link encode (rstrip server_url) required email now s, limiter')
    else ((err (app_error 429 (user verification_rate_limited)), s), limiter')
