-- ===== src/Users/Password/Service.antt =====
-- app/services/user/password.py: `UserPasswordService`. The limiter of requests is a state beside the
-- session, a message that is sent is a value, and what `random`, `secrets` and `urlencode` give are
-- parameters.
pub mod Cases
pub mod Flow
pub mod Privacy
mod Tests
use Prim.Native.String.{◌++◌ as str_append}
use userverse.Base.{ℕ, ◌*◌, String, Bool, not, Option, none, some, ◌==◌, string_Eq, if◌then◌else◌}
use userverse.Messages.{
  Message, password, otp_sent, rate_limited, frontend_url_not_configured, otp_verification_failed,
  magic_link_verification_failed, password_changed,
}
use userverse.Database.{
  User, Session, Error, app_error, Result, ok, err, Action, pure, raise, gets, lift, ◌>>=◌, ◌>>◌,
  or_raise, raise_if,
}
use userverse.RateLimiter.{PasswordResetRateLimiter, accepted, check, is_accepted}
use userverse.Users.Hashing.{Bcrypt}
use userverse.Users.Emails.{get_user_record_by_email, get_user_by_email}
use userverse.Users.Password.{
  PasswordResetMethod, otp, magic_link, create_password_reset_record, verify_password_reset_token,
  update_password, get_user_record_by_password_reset_token,
}

-- What the settings and the other modules give.
pub record Context : Type 0 where
  pub lower : String → String
  pub urlencode : String → String
  pub frontend_url : Option String
  pub expiry : ℕ

-- A message with a code or with a link.
pub data Mail : Type 0 where
  code_to : (email token : String) → Mail
  link_to : (email url : String) → Mail

pub build_magic_reset_url : Context → String → Result String
build_magic_reset_url context token = elim context.frontend_url [
  | none ↦ err (app_error 500 (password frontend_url_not_configured))
  | some url ↦
      if url == ""
      then err (app_error 500 (password frontend_url_not_configured))
      else ok (str_append url (str_append "?" (context.urlencode token)))
]

-- `_build_email_context`, and whom the message goes to.
pub build_mail : Context → PasswordResetMethod → (token email : String) → Result Mail
unfolding build_magic_reset_url
build_mail context otp token email = ok (code_to email token)
build_mail context magic_link token email = elim (build_magic_reset_url context token) [
  | ok url ↦ ok (link_to email url)
  | err e ↦ err e
]

-- Before the limiter: a link needs a frontend.
pub require_frontend : Context → PasswordResetMethod → Result (Unit {0})
unfolding build_magic_reset_url
require_frontend context otp = ok tt
require_frontend context magic_link = elim (build_magic_reset_url context "placeholder") [
  | ok url ↦ ok tt
  | err e ↦ err e
]

-- What follows the limiter. The message that is sent, if any, is returned beside the response; a
-- failure to send it is logged and changes nothing.
pub send_reset :
    Context
    → PasswordResetMethod
    → (token email : String) → (now : ℕ) → Action (Message × Option Mail)
unfolding get_user_record_by_email build_mail
send_reset context method token email now = do
  found ← gets (get_user_record_by_email email)
  elim found [
    | none ↦ pure (password otp_sent, none)
    | some u ↦ (do
      create_password_reset_record u.email method token context.expiry now
      mail ← lift (build_mail context method token u.email)
      pure (password otp_sent, some mail))
  ]

-- The session and the limiter after a request.
pub request_password_reset :
    Context
    → PasswordResetMethod
    → (token email : String) → (client_ip : Option String) → (clock : ℕ × ℕ × ℕ) → (now : ℕ)
    → PasswordResetRateLimiter
    → Session
    → (Result (Message × Option Mail) × Session) × PasswordResetRateLimiter
unfolding require_frontend send_reset
request_password_reset context method token email client_ip clock now limiter s =
    elim (require_frontend context method) [
      | err e ↦ ((err e, s), limiter)
      | ok _ ↦
          let (outcome, limiter') = check context.lower email client_ip clock limiter in
          if is_accepted outcome
          then (send_reset context method token email now s, limiter')
          else ((err (app_error 429 (password rate_limited)), s), limiter')
    ]

module _ (bcrypt : Bcrypt) (salt : String) where
  pub validate_otp_and_change_password :
      (email code new_password : String) → (now : ℕ) → Action Message
  validate_otp_and_change_password email code new_password now = do
    u ← get_user_by_email bcrypt salt email none
    verified ← verify_password_reset_token u.email otp code now
    raise_if (not verified) (app_error 400 (password otp_verification_failed))
    update_password bcrypt salt u.email new_password
    pure (password password_changed)

  pub reset_password_with_token : (token new_password : String) → (now : ℕ) → Action Message
  reset_password_with_token token new_password now =
      let failed = app_error 400 (password magic_link_verification_failed) in
      do
        found ← gets (get_user_record_by_password_reset_token token magic_link)
        u ← or_raise failed found
        verified ← verify_password_reset_token u.email magic_link token now
        raise_if (not verified) failed
        update_password bcrypt salt u.email new_password
        pure (password password_changed)
