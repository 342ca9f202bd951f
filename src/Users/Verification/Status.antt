-- ===== src/Users/Verification/Status.antt =====
-- app/services/user/verification.py with app/repository/user.py: which accounts become active.
use userverse.Base.{
  ℕ, String, ◌≡◌, refl, ◌⊎◌, inl, inr, ◌&&◌, some, arith, ◌==◌, ==_iff, nat_Eq, string_Eq,
  option_Eq, is_none, Option-cases, Bool-cases,
}
use userverse.Database.{text, MetaData, User, Db, begin, Result, ok, err, one_or_none-cases}
use userverse.Bootstrap.{set_user}
use userverse.Users.{status_of, set_field, to_read_model, update_user_status}
use userverse.Users.Hashing.{Bcrypt}
use userverse.Users.Emails.{get_user_record_by_email}
use userverse.Users.Emails.Steps.{get_user_by_email-cases}
use userverse.Users.Jwt.{Decoded}
use userverse.Users.Tokens.{decode_verification_token, type_of}
use userverse.Users.Verification.{subject_of, activate, verify_user_account}

-- A change of a status leaves the database as it was, or it sets the status of the row.
update_user_status-cases :
    (id : ℕ) (account_status : String) (db : Db)
    → ((update_user_status id account_status (begin db)).1 ≡ begin db)
      ⊎ ((update_user_status id account_status (begin db)).1
          ≡ begin (set_user id (set_field "status" (text account_status)) db))
unfolding update_user_status
update_user_status-cases id account_status db =
    elim (one_or_none-cases (λ (u : User). (u.id == id) && is_none u.closed_at) db.users) [
      | inl (e, failed) ↦ inl (ground (arith, failed))
      | inr (inl (absent, none_passes)) ↦ inl (ground (arith, absent))
      | inr (inr (u, present, listed, passes)) ↦
          let same_id : u.id ≡ id = ground arith in inr (ground (arith, present, same_id))
    ]

module _ (bcrypt : Bcrypt) (salt : String) (decode : String → Decoded) (token : String)
    (db : Db) where
  -- Why an account becomes active.
  pub record IsVerified (p : MetaData) (email : String) (u : User) : Type 0 where
    pub decoded : decode_verification_token decode token ≡ ok p
    pub subject : subject_of p ≡ some email
    pub found : get_user_record_by_email email db ≡ some u
    pub awaits : status_of u.primary_meta_data ≡ some "Awaiting Verification"

  activate-cases :
      (email : String)
      → ((activate bcrypt salt decode email (begin db)).1 ≡ begin db)
        ⊎ ((u : User) × (get_user_record_by_email email db ≡ some u)
            × (status_of u.primary_meta_data ≡ some "Awaiting Verification")
            × ((activate bcrypt salt decode email (begin db)).1
                ≡ begin (set_user u.id (set_field "status" (text "Active")) db)))
  unfolding activate to_read_model
  activate-cases email = elim (get_user_by_email-cases bcrypt salt email (begin db)) [
    | inl (e, raised) ↦ inl (ground (arith, raised))
    | inr (u, somebody, returned) ↦
        let status = status_of u.primary_meta_data in
        elim (Bool-cases (status == some "Active")) [
          | inl active ↦ inl (ground (arith, returned, active))
          | inr inactive ↦ elim (Bool-cases (status == some "Awaiting Verification")) [
            | inr other ↦ inl (ground (arith, returned, inactive, other))
            | inl awaiting ↦ elim (update_user_status-cases u.id "Active" db) [
              | inl same ↦ inl (ground (arith, returned, inactive, awaiting, same))
              | inr same ↦ inr (
                u,
                somebody,
                (==_iff status (some "Awaiting Verification")).0 awaiting,
                ground (arith, returned, inactive, awaiting, same),
              )
            ]
          ]
        ]
  ]

  -- The verification of an account leaves the database as it was, or the token is a verification
  -- token of an email whose open account awaits verification, and the status of that account becomes
  -- active and nothing else changes.
  pub verify_user_account-cases :
      ((verify_user_account bcrypt salt decode token (begin db)).1 ≡ begin db)
      ⊎ ((p : MetaData) × (email : String) × (u : User) × IsVerified p email u
          × ((verify_user_account bcrypt salt decode token (begin db)).1
              ≡ begin (set_user u.id (set_field "status" (text "Active")) db)))
  unfolding verify_user_account
  verify_user_account-cases = by_payload (decode_verification_token decode token) refl
    where
      by_payload :
          (r : Result MetaData)
          → decode_verification_token decode token ≡ r
          → ((verify_user_account bcrypt salt decode token (begin db)).1 ≡ begin db)
            ⊎ ((p : MetaData) × (email : String) × (u : User) × IsVerified p email u
                × ((verify_user_account bcrypt salt decode token (begin db)).1
                    ≡ begin (set_user u.id (set_field "status" (text "Active")) db)))
      by_payload (err e) h = inl (ground (arith, h))
      by_payload (ok p) h = elim (Option-cases (subject_of p)) [
        | inl missing ↦ inl (ground (arith, h, missing))
        | inr (email, its) ↦ elim (Bool-cases (type_of p == some "verification")) [
          | inr other ↦ inl (ground (arith, h, its, other))
          | inl typed ↦ elim (activate-cases email) [
            | inl same ↦ inl (ground (arith, h, its, typed, same))
            | inr (u, somebody, awaiting, same) ↦ inr (
              p,
              email,
              u,
              record { decoded = h; subject = its; found = somebody; awaits = awaiting },
              ground (arith, h, its, typed, same),
            )
          ]
        ]
      ]
