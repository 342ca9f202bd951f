-- ===== src/Users/Password/Service/Cases.antt =====
-- app/services/user/password.py: how a change of a password by a code ends.
use userverse.Base.{
  ℕ, ◌<◌, String, ◌≡◌, refl, ◌∙◌, ◌⊎◌, inl, inr, Bool, true, false, ◌&&◌, Option, none, some, arith,
  find?_sound, find?-weaker, lookup, ◌==◌, ==_iff, nat_Eq, string_Eq, is_none, Option-cases,
  Bool-cases,
}
use userverse.Messages.{
  Message, user, user_not_found, password, password_changed, otp_verification_failed,
}
use userverse.Database.{
  Json, reset_record, MetaData, User, Db, Session, begin, Error, app_error, Result, ok, err, pure,
  ◌>>◌,
}
use userverse.Users.{to_read_model}
use userverse.Users.Hashing.{Bcrypt, hash_password}
use userverse.Users.Emails.{get_user_record_by_email, get_user_by_email}
use userverse.Users.Emails.Steps.{get_user_by_email-found}
use userverse.Users.Password.{otp, is_live_token, verify_password_reset_token, update_password}
use userverse.Users.Password.Once.{first_with_email, changed, update_password-cases, verify-found}
use userverse.Users.Password.Service.{validate_otp_and_change_password}

-- The code is live: it is the one of the record, and the record is not expired.
is_live_token-inv :
    (code : String) (now : ℕ) (metadata : MetaData)
    → is_live_token otp code now metadata ≡ true
    → (created_at : ℕ) × (expires_at : ℕ) × (lookup "password_reset" metadata
        ≡ some (reset_record "otp" code created_at expires_at))
      × (now < expires_at)
unfolding is_live_token
is_live_token-inv code now metadata live = cases (lookup "password_reset" metadata) refl
  where
    cases :
        (found : Option Json)
        → lookup "password_reset" metadata ≡ found
        → (created_at : ℕ) × (expires_at : ℕ) × (lookup "password_reset" metadata
            ≡ some (reset_record "otp" code created_at expires_at))
          × (now < expires_at)
    cases none h = absurd (ground (arith, h))
    cases (some (Json.reset_record m t c e)) h =
        let its_method : m ≡ "otp" = ground (arith, h, ==_iff m "otp") in
        let its_token : t ≡ code = ground (arith, h, ==_iff t code) in
        (c, e, rw (h, its_method, its_token) refl, ground (arith, h))
    cases (some (Json.text s)) h = absurd (ground (arith, h))
    cases (some (Json.number n)) h = absurd (ground (arith, h))
    cases (some (Json.flag b)) h = absurd (ground (arith, h))
    cases (some (Json.dumped_user u)) h = absurd (ground (arith, h))
    cases (some (Json.dumped_address a)) h = absurd (ground (arith, h))

module _ (bcrypt : Bcrypt) (salt email : String) where
  -- The user whom a code is for.
  pub record HasLiveCode (code : String) (now : ℕ) (db : Db) (u : User) : Type 0 where
    pub found : first_with_email email db ≡ some u
    pub created_at : ℕ
    pub expires_at : ℕ
    pub stored :
        lookup "password_reset" u.primary_meta_data
        ≡ some (reset_record "otp" code created_at expires_at)
    pub not_expired : now < expires_at

  email_of_record :
      (db : Db) {u : User} → get_user_record_by_email email db ≡ some u → u.email ≡ email
  unfolding get_user_record_by_email
  email_of_record db {u} somebody =
      let (listed, passes) =
        find?_sound (λ (x : User). (x.email == email) && is_none x.closed_at) db.users somebody in
      (==_iff u.email email).0 (ground arith)

  first_of_record :
      (db : Db) {u : User}
      → get_user_record_by_email email db ≡ some u
      → (z : User) × (first_with_email email db ≡ some z)
  unfolding get_user_record_by_email
  first_of_record db somebody =
      find?-weaker (λ (x : User). x.email == email) (λ (x : User). is_none x.closed_at) db.users
        somebody

  module _ (code new_password : String) (now : ℕ) (db : Db) where
    not_found :
        get_user_record_by_email email db ≡ none
        → (e : Error) × (validate_otp_and_change_password bcrypt salt email code new_password now
              (begin db)
            ≡ (err e, begin db))
    unfolding validate_otp_and_change_password get_user_by_email get_user_record_by_email
    not_found nobody = (app_error 404 (user user_not_found), ground (arith, nobody))

    -- What the service does with the answer to whether the code is valid.
    abbrev answered : Result Bool → Result Message × Session
    answered (err e) = (err e, begin db)
    answered (ok false) = (err (app_error 400 (password otp_verification_failed)), begin db)
    answered (ok true) =
        (update_password bcrypt salt email new_password >> pure (password password_changed))
          (begin db)

    pub validated :
        (u : User) (answer : Result Bool)
        → u.email ≡ email
        → get_user_by_email bcrypt salt email none (begin db) ≡ (ok (to_read_model u), begin db)
        → verify_password_reset_token email otp code now (begin db) ≡ (answer, begin db)
        → validate_otp_and_change_password bcrypt salt email code new_password now (begin db)
          ≡ answered answer
    unfolding validate_otp_and_change_password to_read_model
    validated u (err e) of_email returned verified = ground (arith, returned, verified, of_email)
    validated u (ok false) of_email returned verified = ground (arith, returned, verified, of_email)
    validated u (ok true) of_email returned verified = ground (arith, returned, verified, of_email)

    -- A change by a code raises and leaves the database as it was, or the code of an unexpired record
    -- of that email was given, and it stores a hash of the new password and drops the code.
    pub validate_otp-cases :
        ((e : Error) × (validate_otp_and_change_password bcrypt salt email code new_password now
              (begin db)
            ≡ (err e, begin db)))
        ⊎ ((u : User) × (hashed : String) × HasLiveCode code now db u
            × (hash_password bcrypt salt new_password ≡ ok hashed)
            × (validate_otp_and_change_password bcrypt salt email code new_password now (begin db)
                ≡ (
                  ok (password password_changed),
                  begin (changed bcrypt salt email new_password hashed u db),
                )))
    validate_otp-cases = elim (Option-cases (get_user_record_by_email email db)) [
      | inl nobody ↦ inl (not_found nobody)
      | inr (v, somebody) ↦
          let of_email = email_of_record db somebody in
          let returned = get_user_by_email-found bcrypt salt email (begin db) somebody in
          let (u, found) = first_of_record db somebody in
          let verified = verify-found email otp code now (begin db) found in
          elim (Bool-cases (is_live_token otp code now u.primary_meta_data)) [
            | inr dead ↦ inl (
              app_error 400 (password otp_verification_failed),
              validated v (ok false) of_email returned (rw dead at verified),
            )
            | inl live ↦
                let ends = validated v (ok true) of_email returned (rw live at verified) in
                elim (update_password-cases bcrypt salt email new_password db) [
                  | inl (e, raised) ↦ inl (e, ends ∙ (ground (arith, raised)))
                  | inr (w, hashed, found_again, its_hash, same) ↦
                      let one : w ≡ u = cc (found_again, found) in
                      let at_u = rw one at same in
                      let (created_at, expires_at, stored, not_expired) =
                        is_live_token-inv code now u.primary_meta_data live in
                      inr (
                        u,
                        hashed,
                        record {
                          found = found;
                          created_at = created_at;
                          expires_at = expires_at;
                          stored = stored;
                          not_expired = not_expired;
                        },
                        its_hash,
                        ends ∙ (ground (arith, at_u)),
                      )
                ]
          ]
    ]
