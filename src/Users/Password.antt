-- ===== src/Users/Password.antt =====
-- app/repository/user_password.py: `UserPasswordRepository`, and the search for a reset token of
-- `UserRepository`. The clock's reading is an argument of each call.
pub mod Service
pub mod Once
use userverse.Base.{
  ℕ, ◌+◌, String, Bool, false, ◌&&◌, Option, none, some, find?, lookup, pop, ltb, ◌==◌, string_Eq,
  is_none,
}
use userverse.Messages.{user, user_not_found}
use userverse.Database.{
  Json, reset_record, MetaData, User, Db, app_error, Action, pure, gets, lift, ◌>>=◌, ◌>>◌, modify,
  commit, or_raise,
}
use userverse.Bootstrap.{set_user}
use userverse.Users.{set_field}
use userverse.Users.Hashing.{Bcrypt, hash_password}
use userverse.Users.Emails.{set_password}

pub data PasswordResetMethod : Type 0 where
  otp magic_link : PasswordResetMethod

unfoldable pub value : PasswordResetMethod → String
value otp = "otp"
value magic_link = "magic_link"

pub build_password_reset_record :
    PasswordResetMethod → (token : String) → (now expires_in : ℕ) → Json
unfolding value
build_password_reset_record method token now expires_in =
    reset_record (value method) token now (now + expires_in)

-- The user of an email, also of a closed account.
pub get_user : String → Action User
get_user user_email = do
  found ← gets (λ db. find? (λ (u : User). u.email == user_email) db.users)
  or_raise (app_error 404 (user user_not_found)) found

pub create_password_reset_record :
    String → PasswordResetMethod → (token : String) → (expires_in now : ℕ) → Action (Unit {0})
unfolding build_password_reset_record get_user set_field
create_password_reset_record user_email method token expires_in now = do
  u ← get_user user_email
  modify (
      set_user u.id
        (set_field "password_reset" (build_password_reset_record method token now expires_in)))
  commit

-- Whether a record is of the method and the token.
pub has_token : PasswordResetMethod → String → MetaData → Bool
unfolding value
has_token method token metadata = elim (lookup "password_reset" metadata) [
  | some (reset_record m t created_at expires_at) ↦ (m == value method) && (t == token)
  | other ↦ false
]

pub is_live_token : PasswordResetMethod → (token : String) → (now : ℕ) → MetaData → Bool
unfolding value
is_live_token method token now metadata = elim (lookup "password_reset" metadata) [
  | some (reset_record m t created_at expires_at) ↦
      (m == value method) && (t == token) && ltb now expires_at
  | other ↦ false
]

pub verify_password_reset_token :
    String → PasswordResetMethod → (token : String) → (now : ℕ) → Action Bool
unfolding get_user is_live_token
verify_password_reset_token user_email method token now = do
  u ← get_user user_email
  pure (is_live_token method token now u.primary_meta_data)

pub clear_password_reset_record : User → User
clear_password_reset_record u = record u {
  primary_meta_data = pop "password_reset" u.primary_meta_data;
}

pub update_password : Bcrypt → (salt user_email new_password : String) → Action (Unit {0})
unfolding get_user set_password clear_password_reset_record
update_password bcrypt salt user_email new_password = do
  u ← get_user user_email
  hashed ← lift (hash_password bcrypt salt new_password)
  modify (set_user u.id (λ row. clear_password_reset_record (set_password hashed row)))
  commit

-- `get_user_record_by_password_reset_token`: the first open account that has the token.
pub get_user_record_by_password_reset_token : String → PasswordResetMethod → Db → Option User
unfolding has_token
get_user_record_by_password_reset_token token method db =
    find? (λ (u : User). is_none u.closed_at && has_token method token u.primary_meta_data) db.users
