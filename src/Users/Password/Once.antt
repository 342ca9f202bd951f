-- ===== src/Users/Password/Once.antt =====
-- app/repository/user_password.py with app/services/user/password.py and app/repository/user.py: what
-- a code of a password reset does.
use userverse.Base.{
  ℕ, String, ◌≡◌, refl, ap, ◌∙◌, ◌⊎◌, inl, inr, Bool, false, Option, some, arith, find?,
  find?-update, lookup-pop, ◌==◌, ==_refl, nat_Eq, string_Eq, Option-cases, Bool-cases,
}
use userverse.Messages.{user, user_not_found}
use userverse.Database.{User, Db, Session, begin, Error, app_error, value_error, Result, ok, err}
use userverse.Bootstrap.{set_user}
use userverse.Users.Hashing.{Bcrypt, hash_password}
use userverse.Users.Emails.{set_password}
use userverse.Users.Password.{
  PasswordResetMethod, get_user, is_live_token, verify_password_reset_token,
  clear_password_reset_record, update_password,
}

-- The user whom the methods of passwords act on.
abbrev pub first_with_email : String → Db → Option User
first_with_email email db = find? (λ (u : User). u.email == email) db.users

pub verify-found :
    (email : String) (method : PasswordResetMethod) (token : String) (now : ℕ) (s : Session)
    {u : User}
    → first_with_email email s.live ≡ some u
    → verify_password_reset_token email method token now s
      ≡ (ok (is_live_token method token now u.primary_meta_data), s)
unfolding verify_password_reset_token get_user
verify-found email method token now s {u} somebody = ground (arith, somebody)

pub is_live_token-cleared :
    (method : PasswordResetMethod) (token : String) (now : ℕ) (u : User)
    → is_live_token method token now (clear_password_reset_record u).primary_meta_data ≡ false
unfolding is_live_token clear_password_reset_record
is_live_token-cleared method token now u =
    rw (lookup-pop "password_reset" "password_reset" u.primary_meta_data, is_live_token) refl

module _ (bcrypt : Bcrypt) (salt email new_password : String) where
  abbrev pub changed : String → User → Db → Db
  changed hashed u = set_user u.id (λ row. clear_password_reset_record (set_password hashed row))

  -- A change of a password raises and leaves the database as it was, or it stores a hash of the new
  -- password and drops the code.
  pub update_password-cases :
      (db : Db)
      → ((e : Error) × (update_password bcrypt salt email new_password (begin db)
            ≡ (err e, begin db)))
        ⊎ ((u : User) × (hashed : String) × (first_with_email email db ≡ some u)
            × (hash_password bcrypt salt new_password ≡ ok hashed)
            × (update_password bcrypt salt email new_password (begin db)
                ≡ (ok tt, begin (changed hashed u db))))
  unfolding update_password get_user hash_password
  update_password-cases db = elim (Option-cases (first_with_email email db)) [
    | inl nobody ↦ inl (app_error 404 (user user_not_found), ground (arith, nobody))
    | inr (u, somebody) ↦ elim (Bool-cases (new_password == "")) [
      | inl empty ↦ inl (value_error, ground (arith, somebody, empty))
      | inr given ↦ inr (
        u,
        bcrypt.hashpw new_password salt,
        somebody,
        ground (arith, given),
        ground (arith, somebody, given),
      )
    ]
  ]

  pub update_password_ends :
      (u : User) (db : Db)
      → first_with_email email db ≡ some u
      → (new_password == "") ≡ false
      → update_password bcrypt salt email new_password (begin db)
        ≡ (ok tt, begin (changed (bcrypt.hashpw new_password salt) u db))
  unfolding update_password get_user hash_password
  update_password_ends u db somebody given = ground (arith, somebody, given)

  -- The user after the change.
  pub first_with_email-changed :
      (hashed : String) (u : User) (db : Db)
      → first_with_email email db ≡ some u
      → first_with_email email (changed hashed u db)
        ≡ some (clear_password_reset_record (set_password hashed u))
  unfolding clear_password_reset_record set_password set_user
  first_with_email-changed hashed u db somebody =
      let found =
        find?-update (λ (x : User). x.email == email) (λ (x : User). x.id == u.id)
          (λ row. clear_password_reset_record (set_password hashed row)) db.users (λ y. refl)
          somebody in
      rw (==_refl u.id) at found

  -- After a change of a password has returned, no code or link of that email is valid, until another
  -- one is requested.
  pub verify_password_reset_token-update_password :
      (method : PasswordResetMethod) (token : String) (now : ℕ) (db : Db)
      → (update_password bcrypt salt email new_password (begin db)).0 ≡ ok tt
      → let s = (update_password bcrypt salt email new_password (begin db)).1 in
        verify_password_reset_token email method token now s ≡ (ok false, s)
  verify_password_reset_token-update_password method token now db returned =
      elim (update_password-cases db) [
        | inl (e, raised) ↦ absurd (cc (raised, returned))
        | inr (u, hashed, somebody, its_hash, same) ↦ rw same (
            verify-found email method token now (begin (changed hashed u db))
              (first_with_email-changed hashed u db somebody)
            ∙ ap
                (λ (b : Bool).
                  let r : Result Bool × Session = (ok b, begin (changed hashed u db)) in r)
                (is_live_token-cleared method token now (set_password hashed u)))
      ]
