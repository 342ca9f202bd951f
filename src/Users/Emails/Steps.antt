-- ===== src/Users/Emails/Steps.antt =====
-- app/repository/user.py: how a lookup by email ends.
use userverse.Base.{String, ◌≡◌, ◌⊎◌, inl, inr, none, some, arith, Option-cases}
use userverse.Messages.{user, user_not_found}
use userverse.Database.{User, Session, Error, app_error, ok, err}
use userverse.Users.{to_read_model}
use userverse.Users.Hashing.{Bcrypt}
use userverse.Users.Emails.{get_user_record_by_email, get_user_by_email, check_given}

module _ (bcrypt : Bcrypt) (salt email : String) (s : Session) where
  pub get_user_by_email-found :
      {u : User}
      → get_user_record_by_email email s.live ≡ some u
      → get_user_by_email bcrypt salt email none s ≡ (ok (to_read_model u), s)
  unfolding get_user_by_email check_given
  get_user_by_email-found somebody = ground (arith, somebody)

  -- Without a password a lookup leaves the session as it was.
  pub get_user_by_email-cases :
      ((e : Error) × (get_user_by_email bcrypt salt email none s ≡ (err e, s)))
      ⊎ ((u : User) × (get_user_record_by_email email s.live ≡ some u)
          × (get_user_by_email bcrypt salt email none s ≡ (ok (to_read_model u), s)))
  unfolding get_user_by_email
  get_user_by_email-cases = elim (Option-cases (get_user_record_by_email email s.live)) [
    | inl nobody ↦ inl (app_error 404 (user user_not_found), ground (arith, nobody))
    | inr (u, somebody) ↦ inr (u, somebody, get_user_by_email-found somebody)
  ]
