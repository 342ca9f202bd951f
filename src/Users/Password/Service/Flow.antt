-- ===== src/Users/Password/Service/Flow.antt =====
-- app/services/user/password.py with app/repository/user_password.py and app/repository/user.py: a
-- reset of a password by a code.
use userverse.Base.{
  ℕ, ◌+◌, ◌<◌, String, ◌≡◌, refl, ap, ◌∙◌, inl, inr, Bool, true, false, none, some, arith,
  find?_sound, find?-update, find?-and, put, lookup-put, ◌==◌, ==_iff, ==_refl, nat_Eq, string_Eq,
  is_none,
}
use userverse.Messages.{password, password_changed}
use userverse.Database.{UserReadModel, MetaData, User, Db, Session, begin, Result, ok}
use userverse.Bootstrap.{set_user}
use userverse.Users.{set_field, to_read_model}
use userverse.Users.Hashing.{Bcrypt, is_bcrypt_hash, hash_password, verify_password}
use userverse.Users.Emails.{
  set_password, get_user_record_by_email, get_user_by_email, check_given, check_password,
}
use userverse.Users.Emails.Steps.{get_user_by_email-found}
use userverse.Users.Password.{
  otp, get_user, build_password_reset_record, create_password_reset_record, is_live_token,
  verify_password_reset_token, clear_password_reset_record,
}
use userverse.Users.Password.Once.{
  first_with_email, changed, first_with_email-changed, verify-found, is_live_token-cleared,
  update_password_ends,
}
use userverse.Users.Password.Service.{validate_otp_and_change_password}
use userverse.Users.Password.Service.Cases.{validated, validate_otp-cases}

is_live_token-put :
    (code : String) (expires_in now later : ℕ) (metadata : MetaData)
    → later < now + expires_in
    → is_live_token otp code later
        (put "password_reset" (build_password_reset_record otp code now expires_in) metadata)
      ≡ true
unfolding is_live_token build_password_reset_record
is_live_token-put code expires_in now later metadata early =
    let stored =
      lookup-put "password_reset" "password_reset"
        (build_password_reset_record otp code now expires_in) metadata in
    rw (stored, is_live_token) (ground (arith, ==_refl code))

-- A user is found by the email and logs in with the password of a hash.
module _ (bcrypt : Bcrypt) (salt email new_password : String) where
  is_logged_in :
      (u : User) (hashed : String) (s : Session)
      → first_with_email email s.live ≡ some u
      → u.closed_at ≡ none
      → u.password ≡ hashed
      → is_bcrypt_hash hashed ≡ true
      → bcrypt.checkpw new_password hashed ≡ some true
      → get_user_by_email bcrypt salt email (some new_password) s ≡ (ok (to_read_model u), s)
  unfolding get_user_by_email get_user_record_by_email check_given check_password verify_password
  is_logged_in u hashed s somebody u_open its_hash shape checks =
      let found =
        find?-and (λ (x : User). x.email == email) (λ (x : User). is_none x.closed_at) s.live.users
          somebody (ground (arith, u_open)) in
      ground (arith, found, its_hash, shape, checks)

  is_logged_in_changed :
      (u : User) (hashed : String) (s : Session)
      → first_with_email email s.live ≡ some (clear_password_reset_record (set_password hashed u))
      → u.closed_at ≡ none
      → is_bcrypt_hash hashed ≡ true
      → bcrypt.checkpw new_password hashed ≡ some true
      → get_user_by_email bcrypt salt email (some new_password) s
        ≡ (ok (to_read_model (clear_password_reset_record u)), s)
  unfolding clear_password_reset_record set_password to_read_model
  is_logged_in_changed u hashed s found u_open shape checks =
      is_logged_in (clear_password_reset_record (set_password hashed u)) hashed s found u_open refl
        shape checks

  hash_is_hashpw :
      (hashed : String)
      → hash_password bcrypt salt new_password ≡ ok hashed
      → hashed ≡ bcrypt.hashpw new_password salt
  unfolding hash_password
  hash_is_hashpw hashed h = ground (arith, h)

  is_active :
      (db : Db) (u : User)
      → first_with_email email db ≡ some u
      → u.closed_at ≡ none
      → get_user_record_by_email email db ≡ some u
  unfolding get_user_record_by_email
  is_active db u somebody u_open =
      find?-and (λ (x : User). x.email == email) (λ (x : User). is_none x.closed_at) db.users
        somebody (ground (arith, u_open))

  abbrev noted : (code : String) (expires_in now : ℕ) → User → User
  noted code expires_in now =
      set_field "password_reset" (build_password_reset_record otp code now expires_in)

  abbrev recorded : (code : String) (expires_in now : ℕ) → User → Db → Db
  recorded code expires_in now u = set_user u.id (noted code expires_in now)

  -- A record is stored for the user, who is found with a live code.
  record_created :
      (code : String) (expires_in now later : ℕ) (u : User) (db : Db)
      → first_with_email email db ≡ some u
      → later < now + expires_in
      → let after = recorded code expires_in now u db in
        (create_password_reset_record email otp code expires_in now (begin db)
          ≡ (ok tt, begin after))
        × (first_with_email email after ≡ some (noted code expires_in now u))
        × (is_live_token otp code later (noted code expires_in now u).primary_meta_data ≡ true)
        × ((noted code expires_in now u).closed_at ≡ u.closed_at)
        × ((noted code expires_in now u).email ≡ email)
  unfolding create_password_reset_record get_user set_field set_user
  record_created code expires_in now later u db somebody early =
      let (listed, passes) = find?_sound (λ (x : User). x.email == email) db.users somebody in
      let found =
        find?-update (λ (x : User). x.email == email) (λ (x : User). x.id == u.id)
          (noted code expires_in now) db.users (λ y. refl) somebody in
      (
        ground (arith, somebody),
        rw (==_refl u.id) at found,
        is_live_token-put code expires_in now later u.primary_meta_data early,
        refl,
        (==_iff u.email email).0 passes,
      )

  -- If a password is changed by a code and the account is open, then its user logs in with the new
  -- password, provided that bcrypt accepts the password for its hash of it; the code is not accepted
  -- again, at any later time.
  pub get_user_by_email-validate_otp :
      (code : String) (now later : ℕ) (u : User) (db : Db)
      → first_with_email email db ≡ some u
      → u.closed_at ≡ none
      → is_bcrypt_hash (bcrypt.hashpw new_password salt) ≡ true
      → bcrypt.checkpw new_password (bcrypt.hashpw new_password salt) ≡ some true
      → (validate_otp_and_change_password bcrypt salt email code new_password now (begin db)).0
        ≡ ok (password password_changed)
      → let s =
          (validate_otp_and_change_password bcrypt salt email code new_password now (begin db)).1 in
        ((get_user_by_email bcrypt salt email (some new_password) s).0
          ≡ ok (to_read_model (clear_password_reset_record u)))
        × (verify_password_reset_token email otp code later s ≡ (ok false, s))
  get_user_by_email-validate_otp code now later u db somebody u_open shape checks returned =
      elim (validate_otp-cases bcrypt salt email code new_password now db) [
        | inl (e, raised) ↦ absurd (cc (raised, returned))
        | inr (w, hashed, live, hash_is, same) ↦
            let one : w ≡ u = cc (somebody, live.found) in
            let its_hash = hash_is_hashpw hashed hash_is in
            let after = begin (changed bcrypt salt email new_password hashed u db) in
            let found =
              first_with_email-changed bcrypt salt email new_password hashed u db somebody in
            rw (same, one)
              (
                ap (λ (r : Result UserReadModel × Session). r.0)
                    (is_logged_in_changed u hashed after found u_open (rw its_hash shape)
                      (rw its_hash checks)),
                verify-found email otp code later after found
                    ∙ ap (λ (b : Bool). let r : Result Bool × Session = (ok b, after) in r)
                        (is_live_token-cleared otp code later (set_password hashed u)),
              )
      ]

  -- The code of a record changes the password of an open account until the record expires.
  pub validate_otp-create_password_reset_record :
      (code : String) (expires_in now later : ℕ) (u : User) (db : Db)
      → first_with_email email db ≡ some u
      → u.closed_at ≡ none
      → (new_password == "") ≡ false
      → later < now + expires_in
      → let s = (create_password_reset_record email otp code expires_in now (begin db)).1 in
        (validate_otp_and_change_password bcrypt salt email code new_password later s).0
        ≡ ok (password password_changed)
  validate_otp-create_password_reset_record code expires_in now later u db somebody u_open given
        early =
      let (same, found, live, still_open, of_email) =
        record_created code expires_in now later u db somebody early in
      let after = recorded code expires_in now u db in
      let row = noted code expires_in now u in
      let verified = verify-found email otp code later (begin after) found in
      let returned =
        get_user_by_email-found bcrypt salt email (begin after)
          (is_active after row found (still_open ∙ u_open)) in
      let ends =
        validated bcrypt salt email code new_password later after row (ok true) of_email returned
          (rw live at verified) in
      let updated = update_password_ends bcrypt salt email new_password row after found given in
      rw (same, ends) (ground (arith, updated))
