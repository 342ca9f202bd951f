-- ===== src/Users/Emails.antt =====
-- app/repository/user.py: the lookups by email of `UserRepository`, registration and the update of a
-- profile.
pub mod Steps
use userverse.Base.{
  ℕ, String, Bool, false, ◌&&◌, not, Option, none, some, List, [], ◌∷◌, ◌++◌, all, find?, lookup,
  ◌==◌, nat_Eq, string_Eq, is_none, is_some, if◌then◌else◌, put,
}
use userverse.Messages.{
  user, user_not_found, user_already_exists, user_update_failed, invalid_credentials,
}
use userverse.Database.{
  UserReadModel, text, User, Db, app_error, integrity_error, Result, ok, err, Action, pure, raise,
  gets, lift, ◌>>=◌, ◌>>◌, modify, commit, raise_if, write_if, on_integrity_error, select_one,
  or_raise, begin,
}
use userverse.Bootstrap.{set_user}
use userverse.Users.{to_read_model, update_user_status}
use userverse.Users.Hashing.{Bcrypt, hash_password, verify_password}

-- `_active_user_query().filter(User.email == user_email).first()`
unfoldable pub get_user_record_by_email : String → Db → Option User
get_user_record_by_email user_email db =
    find? (λ (u : User). (u.email == user_email) && is_none u.closed_at) db.users

unfoldable pub set_password : String → User → User
set_password hashed u = record u { password = hashed }

-- What a registration or an update writes; a field that is left out keeps its value.
pub record UserFields : Type 0 where
  pub first_name : Option String
  pub last_name : Option String
  pub phone_number : Option String
  pub password : Option String

unfoldable pub keep : Option String → Option String → Option String
keep none old = old
keep (some new) old = some new

unfoldable pub apply_user_update : UserFields → User → User
unfolding keep
apply_user_update fields u = record u {
  first_name = keep fields.first_name u.first_name;
  last_name = keep fields.last_name u.last_name;
  phone_number = keep fields.phone_number u.phone_number;
  password = elim fields.password [ none ↦ u.password | some hashed ↦ hashed ];
}

pub record UserCreate : Type 0 where
  pub first_name : Option String
  pub last_name : Option String
  pub email : String
  pub phone_number : Option String
  pub password : String

unfoldable pub new_user : ℕ → UserCreate → User
new_user id fields = record {
  id = id;
  first_name = fields.first_name;
  last_name = fields.last_name;
  email = fields.email;
  phone_number = fields.phone_number;
  password = fields.password;
  is_superuser = false;
  closed_at = none;
  primary_meta_data = [];
}

-- The primary key and the unique email, of closed rows too.
unfoldable pub is_new_user : ℕ → String → Db → Bool
is_new_user id email db = all (λ (u : User). not (u.id == id) && not (u.email == email)) db.users

unfoldable pub add_user : User → Db → Db
add_user u db = record db { users = db.users ++ u ∷ [] }

unfoldable pub update_user : ℕ → UserFields → Action UserReadModel
update_user user_id fields = do
  found ← select_one (λ db. db.users) (λ (u : User). (u.id == user_id) && is_none u.closed_at)
  u ← or_raise (app_error 400 (user user_update_failed)) found
  modify (set_user u.id (apply_user_update fields))
  commit
  pure (to_read_model (apply_user_update fields u))

-- `create` and the status: two commits. The first argument is whether the text of an
-- `IntegrityError` names the constraint in SQLite's words; another one is raised again.
unfoldable pub create_user : Bool → ℕ → UserCreate → String → Action UserReadModel
unfolding get_user_record_by_email
create_user names_constraint id fields account_status = do
  existing ← gets (get_user_record_by_email fields.email)
  raise_if (is_some existing) (app_error 409 (user user_already_exists))
  on_integrity_error
      (do write_if (is_new_user id fields.email) (add_user (new_user id fields)); commit)
      (if names_constraint then app_error 409 (user user_already_exists) else integrity_error)
  update_user_status id account_status

module _ (bcrypt : Bcrypt) (salt : String) where
  -- A password that is stored as it is, is hashed after it was compared.
  unfoldable pub check_password : String → User → Action (Unit {0})
  unfolding set_password
  check_password password u = elim (verify_password bcrypt password u.password) [
    | some is_valid ↦ raise_if (not is_valid) (app_error 401 (user invalid_credentials))
    | none ↦
        if password == u.password
        then (do
          hashed ← lift (hash_password bcrypt salt password)
          modify (set_user u.id (set_password hashed))
          commit)
        else raise (app_error 401 (user invalid_credentials))
  ]

  unfoldable pub check_given : Option String → User → Action (Unit {0})
  unfolding check_password
  check_given none u = pure tt
  check_given (some password) u = check_password password u

  unfoldable pub get_user_by_email : String → Option String → Action UserReadModel
  unfolding get_user_record_by_email check_given
  get_user_by_email user_email password = do
    found ← gets (get_user_record_by_email user_email)
    u ← or_raise (app_error 404 (user user_not_found)) found
    check_given password u
    pure (to_read_model u)
