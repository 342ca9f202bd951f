-- ===== src/Users/Auth.antt =====
-- app/services/user/basic_auth.py and app/services/user/profile.py: registration, login and the
-- tokens of a session; the profile. Messages that are sent are left out.
pub mod Login
mod Tests
use userverse.Base.{
  ℕ, String, Bool, true, false, not, ◌&&◌, ◌||◌, Option, none, some, ◌==◌, string_Eq, option_Eq,
  is_none, if◌then◌else◌,
}
use userverse.Messages.{user, user_account_inactive, invalid_request_message, user_not_found}
use userverse.Database.{
  UserReadModel, MetaData, app_error, Result, ok, err, Action, pure, raise, lift, ◌>>=◌, ◌>>◌,
  raise_if,
}
use userverse.Users.{
  get_user_by_id, get_refresh_token_version, increment_refresh_token_version, delete_user,
}
use userverse.Users.Hashing.{Bcrypt, hash_password}
use userverse.Users.Emails.{UserFields, UserCreate, get_user_by_email, create_user, update_user}
use userverse.Users.Jwt.{Decoded, status_allowed_for_authenticated_access, decode_token}
use userverse.Users.Tokens.{TokenResponseModel, Timeouts, sign_jwt, refresh_token}

-- `_ensure_user_is_active`: the statuses of `jwt.py`, with another error.
pub ensure_user_is_active : Bool → UserReadModel → Action (Unit {0})
ensure_user_is_active require_email_verification u =
    raise_if (not (status_allowed_for_authenticated_access require_email_verification u.status))
      (app_error 403 (user user_account_inactive))

pub record UserLoginModel : Type 0 where
  pub email : String
  pub password : String

pub record UserCreateModel : Type 0 where
  pub first_name : Option String
  pub last_name : Option String
  pub phone_number : Option String

module _ (bcrypt : Bcrypt) (salt : String) where
  pub create_account :
      (require_email_verification names_constraint : Bool)
      → (id : ℕ) → UserLoginModel
      → UserCreateModel
      → Action UserReadModel
  create_account require_email_verification names_constraint id credentials fields = do
    hashed ← lift (hash_password bcrypt salt credentials.password)
    create_user names_constraint id
        (record {
          first_name = fields.first_name;
          last_name = fields.last_name;
          email = credentials.email;
          phone_number = fields.phone_number;
          password = hashed;
        })
        (if require_email_verification then "Awaiting Verification" else "Active")

  -- A field that is missing or empty is left alone.
  given : Option String → Option String
  given none = none
  given (some s) = if s == "" then none else some s

  hashed_if_given : Option String → Result (Option String)
  hashed_if_given none = ok none
  hashed_if_given (some s) = elim (hash_password bcrypt salt s) [
    | ok h ↦ ok (some h)
    | err e ↦ err e
  ]

  -- `UserProfileService.update_user`
  pub update_profile : (user_id : ℕ) → UserFields → Action UserReadModel
  unfolding given hashed_if_given
  update_profile user_id fields = do
    hashed ← lift (hashed_if_given (given fields.password))
    let written : UserFields = record {
      first_name = given fields.first_name;
      last_name = given fields.last_name;
      phone_number = given fields.phone_number;
      password = hashed;
    }
    raise_if
        (is_none written.first_name
          && is_none written.last_name
          && is_none written.phone_number
          && is_none written.password)
        (app_error 400 (user invalid_request_message))
    update_user user_id written

  -- `UserProfileService.get_user`: an identifier is tried before an email.
  get_profile : (user_id : Option ℕ) → (user_email : Option String) → Action UserReadModel
  unfolding given
  get_profile (some user_id) user_email = get_user_by_id user_id
  get_profile none user_email = elim (given user_email) [
    | some email ↦ get_user_by_email bcrypt salt email none
    | none ↦ raise (app_error 400 (user user_not_found))
  ]

module _ (encode : MetaData → String) (decode : String → Decoded) (int : String → Option ℕ)
    (timeouts : Timeouts) (require_email_verification : Bool) where
  pub user_login : Bcrypt → (salt : String) → UserLoginModel → (now : ℕ) → Action TokenResponseModel
  unfolding ensure_user_is_active
  user_login bcrypt salt credentials now = do
    u ← get_user_by_email bcrypt salt credentials.email (some credentials.password)
    ensure_user_is_active require_email_verification u
    version ← increment_refresh_token_version int u.id
    pure (sign_jwt encode timeouts now u version)

  pub refresh_user_token : (token : String) → (now : ℕ) → Action TokenResponseModel
  unfolding ensure_user_is_active
  refresh_user_token token now = do
    (token_user, token_version) ← lift (decode_token decode int token "refresh")
    current_user ← get_user_by_id token_user.id
    ensure_user_is_active require_email_verification current_user
    version ← get_refresh_token_version int current_user.id
    lift (refresh_token encode decode int timeouts now token current_user version)

  pub revoke_refresh_token : (token : String) → Action (Unit {0})
  revoke_refresh_token token = do
    (token_user, token_version) ← lift (decode_token decode int token "refresh")
    current_user ← get_user_by_id token_user.id
    _ ← increment_refresh_token_version int current_user.id
    pure tt
