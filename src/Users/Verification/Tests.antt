-- ===== src/Users/Verification/Tests.antt =====
-- app/services/user/verification.py: the verification of one account.
use userverse.Base.{String, ◌≡◌, refl, none, [], ◌∷◌, lookup, put, ◌⊎◌}
use userverse.Messages.{user, user_account_already_active, user_account_verified, literal}
use userverse.Database.{
  MetaData, User, text, Db, begin, app_error, ok, err, one_or_none, at_most_one,
}
use userverse.Database.Samples.{small}
use userverse.Bootstrap.{set_user}
use userverse.Users.{status_of, to_read_model, set_field, update_user_status}
use userverse.Users.Hashing.{Bcrypt}
use userverse.Users.Emails.{get_user_record_by_email, get_user_by_email, check_given}
use userverse.Users.Jwt.{Decoded, payload}
use userverse.Users.Tokens.{type_of, decode_verification_token}
use userverse.Users.Verification.{subject_of, activate, verify_user_account}
use userverse.Users.Verification.Status.{IsVerified, verify_user_account-cases}

abbrev unhashed : Bcrypt
unhashed = record { hashpw = λ p s. p; checkpw = λ p h. none }

abbrev of_ann : String → Decoded
of_ann token = payload (("sub", text "ann@x.org") ∷ ("type", text "verification") ∷ [])

verifying : Unit {0}
unfolding status_of to_read_model set_field update_user_status get_user_record_by_email
    get_user_by_email check_given type_of decode_verification_token subject_of activate
    verify_user_account set_user lookup put one_or_none at_most_one
verifying = tt

with_status : String → Db
unfolding set_field
with_status status = set_user 3 (set_field "status" (text status)) small

active_stays_active :
    (verify_user_account unhashed "" of_ann "t" (begin small)).0
    ≡ ok (user user_account_already_active)
unfolding verifying
active_stays_active = refl

awaiting_becomes_active :
    (verify_user_account unhashed "" of_ann "t" (begin (with_status "Awaiting Verification"))).0
    ≡ ok (user user_account_verified)
unfolding verifying with_status
awaiting_becomes_active = refl

banned_stays_banned :
    (verify_user_account unhashed "" of_ann "t" (begin (with_status "Banned"))).0
    ≡ err (app_error 403 (literal "User account is not awaiting verification"))
unfolding verifying with_status
banned_stays_banned = refl

verify_user_account-cases_example :
    let db = with_status "Awaiting Verification" in
    ((verify_user_account unhashed "" of_ann "t" (begin db)).1 ≡ begin db)
    ⊎ ((p : MetaData) × (email : String) × (u : User) × IsVerified unhashed "" of_ann "t" db p email
          u
        × ((verify_user_account unhashed "" of_ann "t" (begin db)).1
            ≡ begin (set_user u.id (set_field "status" (text "Active")) db)))
verify_user_account-cases_example =
    verify_user_account-cases unhashed "" of_ann "t" (with_status "Awaiting Verification")
