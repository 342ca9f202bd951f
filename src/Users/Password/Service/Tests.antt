-- ===== src/Users/Password/Service/Tests.antt =====
-- app/services/user/password.py and app/repository/user_password.py: a reset of a password.
use Prim.Native.String.{◌++◌ as str_append}
use userverse.Base.{
  String, ◌≡◌, refl, true, false, find?, lookup, ◌⊎◌, put, pop, none, some, [], ◌==◌, string_Eq,
  arith,
}
use userverse.Messages.{password, password_changed, otp_verification_failed}
use userverse.Database.{User, Db, Error, Session, begin, app_error, ok, err}
use userverse.Database.Samples.{ann_row, small}
use userverse.RateLimiter.{password_reset_limiter}
use userverse.Bootstrap.{set_user}
use userverse.Users.{set_field, to_read_model}
use userverse.Users.Hashing.{Bcrypt, is_bcrypt_hash, hash_password, verify_password}
use userverse.Users.Emails.{
  get_user_record_by_email, get_user_by_email, check_given, check_password, set_password,
}
use userverse.Users.Password.{
  otp, magic_link, get_user, build_password_reset_record, create_password_reset_record, has_token,
  is_live_token, verify_password_reset_token, clear_password_reset_record, update_password,
  get_user_record_by_password_reset_token,
}
use userverse.Users.Password.Once.{changed, verify_password_reset_token-update_password}
use userverse.Users.Password.Service.{
  Context, build_magic_reset_url, build_mail, require_frontend, send_reset, request_password_reset,
  validate_otp_and_change_password, reset_password_with_token,
}
use userverse.Users.Password.Service.Cases.{HasLiveCode, validate_otp-cases}
use userverse.Users.Password.Service.Flow.{
  get_user_by_email-validate_otp, validate_otp-create_password_reset_record,
}
use userverse.Users.Password.Service.Privacy.{response, request_password_reset-response}

abbrev salt : String
salt = "abcdefghijklmnopqrstuvabcdefghijklmnopqrstuvabcdefghijk"

-- A hash that shows the password.
abbrev plain : Bcrypt
plain = record {
  hashpw = λ p s. str_append "$2b$12$" (str_append s p);
  checkpw = λ p h. some (h == str_append "$2b$12$" (str_append salt p));
}

resetting : Unit {0}
unfolding is_bcrypt_hash hash_password verify_password get_user_record_by_email get_user_by_email
    check_given check_password set_password get_user build_password_reset_record set_field
    create_password_reset_record has_token is_live_token verify_password_reset_token
    clear_password_reset_record update_password get_user_record_by_password_reset_token
    build_magic_reset_url build_mail require_frontend send_reset request_password_reset
    validate_otp_and_change_password reset_password_with_token to_read_model set_user lookup put pop
resetting = tt

-- A code that is valid for 60 ticks from 1000.
abbrev with_code : Session
with_code = (create_password_reset_record "ann@x.org" otp "123456" 60 1000 (begin small)).1

code_in_time :
    (validate_otp_and_change_password plain salt "ann@x.org" "123456" "new" 1059
      (begin with_code.live)).0
    ≡ ok (password password_changed)
unfolding resetting
code_in_time = refl

code_too_late :
    (validate_otp_and_change_password plain salt "ann@x.org" "123456" "new" 1060 with_code).0
    ≡ err (app_error 400 (password otp_verification_failed))
unfolding resetting
code_too_late = refl

-- A code is not a link.
code_is_no_link : get_user_record_by_password_reset_token "123456" magic_link with_code.live ≡ none
unfolding resetting
code_is_no_link = refl

link_is_followed :
    let s = (create_password_reset_record "ann@x.org" magic_link "t" 60 1000 (begin small)).1 in
    (reset_password_with_token plain salt "t" "new" 1001 s).0 ≡ ok (password password_changed)
unfolding resetting
link_is_followed = refl

-- Ann's row with the code.
abbrev code_row : User
code_row = set_field "password_reset" (build_password_reset_record otp "123456" 1000 60) ann_row

code_found : find? (λ (u : User). u.email == "ann@x.org") with_code.live.users ≡ some code_row
unfolding resetting
code_found = refl

code_row_open : code_row.closed_at ≡ none
unfolding resetting
code_row_open = refl

new_hash_shape : is_bcrypt_hash (plain.hashpw "new" salt) ≡ true
unfolding resetting
new_hash_shape = refl

ann_found : find? (λ (u : User). u.email == "ann@x.org") small.users ≡ some ann_row
ann_found = refl

abbrev after_change : Session
after_change =
    (validate_otp_and_change_password plain salt "ann@x.org" "123456" "new" 1059
      (begin with_code.live)).1

validate_otp-cases_example :
    ((e : Error) × (validate_otp_and_change_password plain salt "ann@x.org" "123456" "new" 1059
          (begin with_code.live)
        ≡ (err e, begin with_code.live)))
    ⊎ ((u : User) × (hashed : String) × HasLiveCode plain salt "ann@x.org" "123456" 1059
          with_code.live u
        × (hash_password plain salt "new" ≡ ok hashed)
        × (validate_otp_and_change_password plain salt "ann@x.org" "123456" "new" 1059
              (begin with_code.live)
            ≡ (
              ok (password password_changed),
              begin (changed plain salt "ann@x.org" "new" hashed u with_code.live),
            )))
validate_otp-cases_example =
    validate_otp-cases plain salt "ann@x.org" "123456" "new" 1059 with_code.live

get_user_by_email-validate_otp_example :
    ((get_user_by_email plain salt "ann@x.org" (some "new") after_change).0
      ≡ ok (to_read_model (clear_password_reset_record code_row)))
    × (verify_password_reset_token "ann@x.org" otp "123456" 1059 after_change
        ≡ (ok false, after_change))
get_user_by_email-validate_otp_example =
    get_user_by_email-validate_otp plain salt "ann@x.org" "new" "123456" 1059 1059 code_row
      with_code.live code_found code_row_open new_hash_shape refl code_in_time

validate_otp-create_password_reset_record_example :
    (validate_otp_and_change_password plain salt "ann@x.org" "123456" "new" 1059 with_code).0
    ≡ ok (password password_changed)
validate_otp-create_password_reset_record_example =
    validate_otp-create_password_reset_record plain salt "ann@x.org" "new" "123456" 60 1000 1059
      ann_row small ann_found refl refl (omega arith)

abbrev after_update : Session
after_update = (update_password plain salt "ann@x.org" "new" with_code).1

update_returns : (update_password plain salt "ann@x.org" "new" (begin with_code.live)).0 ≡ ok tt
unfolding resetting
update_returns = refl

verify_password_reset_token-update_password_example :
    let s = (update_password plain salt "ann@x.org" "new" (begin with_code.live)).1 in
    verify_password_reset_token "ann@x.org" otp "123456" 1001 s ≡ (ok false, s)
verify_password_reset_token-update_password_example =
    verify_password_reset_token-update_password plain salt "ann@x.org" "new" otp "123456" 1001
      with_code.live update_returns

abbrev site : Context
site = record {
  lower = λ s. s;
  urlencode = λ s. s;
  frontend_url = some "https://x.org";
  expiry = 3600;
}

abbrev nobody : Db
nobody = record small { users = [] }

request_password_reset-response_example :
    let known =
      request_password_reset site otp "123456" "ann@x.org" none
        (0, 0, 0)
        0
        password_reset_limiter
        (begin small) in
    let unknown =
      request_password_reset site otp "654321" "ann@x.org" none
        (0, 0, 0)
        0
        password_reset_limiter
        (begin nobody) in
    (response known.0.0 ≡ response unknown.0.0) × (known.1 ≡ unknown.1)
request_password_reset-response_example =
    request_password_reset-response site otp "123456" "654321" "ann@x.org" none (0, 0, 0) 0
      password_reset_limiter (begin small) (begin nobody)
