-- ===== src/Users/Password/Service/Privacy.antt =====
-- app/services/user/password.py: what the response to a request for a password reset tells.
use Prim.Native.String.{◌++◌ as str_append}
use userverse.Base.{
  ℕ, String, ◌≡◌, refl, inl, inr, ◌&&◌, Option, some, arith, find?_sound, find?-weaker, ◌==◌,
  ==_iff, string_Eq, is_none, Option-cases, Bool-cases,
}
use userverse.Messages.{Message, password, otp_sent}
use userverse.Database.{User, Session, Result, ok, err}
use userverse.RateLimiter.{PasswordResetRateLimiter, check, is_accepted}
use userverse.Users.Emails.{get_user_record_by_email}
use userverse.Users.Password.{
  PasswordResetMethod, otp, magic_link, get_user, create_password_reset_record,
}
use userverse.Users.Password.Service.{
  Context, Mail, build_magic_reset_url, build_mail, require_frontend, send_reset,
  request_password_reset,
}

-- What the client sees.
abbrev pub response : Result (Message × Option Mail) → Result Message
response (ok r) = ok r.0
response (err e) = err e

module _ (context : Context) where
  -- Where the limiter is reached, a message can be built.
  build_mail_returns :
      (method : PasswordResetMethod) (token email : String)
      → require_frontend context method ≡ ok tt
      → (mail : Mail) × (build_mail context method token email ≡ ok mail)
  unfolding build_mail require_frontend build_magic_reset_url
  build_mail_returns otp token email h = (Mail.code_to email token, refl)
  build_mail_returns magic_link token email h = elim (Option-cases context.frontend_url) [
    | inl missing ↦ absurd (ground (arith, missing))
    | inr (url, present) ↦ elim (Bool-cases (url == "")) [
      | inl empty ↦ absurd (ground (arith, present, empty))
      | inr given ↦ (
        Mail.link_to email (str_append url (str_append "?" (context.urlencode token))),
        ground (arith, present, given),
      )
    ]
  ]

  create_record_returns :
      (method : PasswordResetMethod) (token email : String) (now : ℕ) (s : Session) {u : User}
      → get_user_record_by_email email s.live ≡ some u
      → (create_password_reset_record u.email method token context.expiry now s).0 ≡ ok tt
  unfolding create_password_reset_record get_user get_user_record_by_email
  create_record_returns method token email now s {u} somebody =
      let (listed, passes) =
        find?_sound (λ (x : User). (x.email == email) && is_none x.closed_at) s.live.users
          somebody in
      let of_email = (==_iff u.email email).0 (ground arith) in
      let (z, found) =
        find?-weaker (λ (x : User). x.email == email) (λ (x : User). is_none x.closed_at)
          s.live.users somebody in
      rw of_email (ground (arith, found))

  send_reset-response :
      (method : PasswordResetMethod) (token email : String) (now : ℕ) (s : Session)
      → require_frontend context method ≡ ok tt
      → response (send_reset context method token email now s).0 ≡ ok (password otp_sent)
  unfolding send_reset
  send_reset-response method token email now s h =
      elim (Option-cases (get_user_record_by_email email s.live)) [
        | inl nobody ↦ ground (arith, nobody)
        | inr (u, somebody) ↦
            let recorded = create_record_returns method token email now s somebody in
            let (mail, built) = build_mail_returns method token u.email h in
            ground (arith, somebody, recorded, built)
      ]

  -- The response to a request for a reset, and the state of the limiter after it, do not depend on
  -- the database: they are the same whether or not the email has an account.
  pub request_password_reset-response :
      (method : PasswordResetMethod) (token token' email : String) (client_ip : Option String)
      → (clock : ℕ × ℕ × ℕ) (now : ℕ) (limiter : PasswordResetRateLimiter) (s t : Session)
      → let with_s =
          request_password_reset context method token email client_ip clock now limiter s in
        let with_t =
          request_password_reset context method token' email client_ip clock now limiter t in
        (response with_s.0.0 ≡ response with_t.0.0) × (with_s.1 ≡ with_t.1)
  unfolding request_password_reset
  request_password_reset-response method token token' email client_ip clock now limiter s t =
      by_frontend (require_frontend context method) refl
    where
      by_frontend :
          (r : Result (Unit {0}))
          → require_frontend context method ≡ r
          → let with_s =
              request_password_reset context method token email client_ip clock now limiter s in
            let with_t =
              request_password_reset context method token' email client_ip clock now limiter t in
            (response with_s.0.0 ≡ response with_t.0.0) × (with_s.1 ≡ with_t.1)
      by_frontend (err e) h = ground (arith, h)
      by_frontend (ok done) h =
          let sent = send_reset-response method token email now s h in
          let sent' = send_reset-response method token' email now t h in
          elim (Bool-cases (is_accepted (check context.lower email client_ip clock limiter).0)) [
            | inl let_through ↦ ground (arith, h, let_through, sent, sent')
            | inr refused ↦ ground (arith, h, refused)
          ]
