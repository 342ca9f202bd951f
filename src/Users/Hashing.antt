-- ===== src/Users/Hashing.antt =====
-- app/utils/hash_password.py. `bcrypt` is a parameter; the salt of `gensalt` is an argument.
use Prim.Native.String.{count}
use text.Mathlib.Text.{starts_with}
use userverse.Base.{String, Bool, ◌&&◌, ◌||◌, Option, none, leb, ◌==◌, string_Eq, if◌then◌else◌}
use userverse.Database.{Result, ok, err, value_error}

-- `checkpw` gives none where it raises `ValueError`.
pub record Bcrypt : Type 0 where
  pub hashpw : (password salt : String) → String
  pub checkpw : (password hashed : String) → Option Bool

unfoldable pub is_bcrypt_hash : String → Bool
is_bcrypt_hash value =
    (starts_with value "$2a$" || starts_with value "$2b$" || starts_with value "$2y$")
    && leb 60 (count value)

module _ (bcrypt : Bcrypt) where
  unfoldable pub hash_password : (salt password : String) → Result String
  hash_password salt password =
      if password == "" then err value_error else ok (bcrypt.hashpw password salt)

  -- None is `UnknownHashError`.
  unfoldable pub verify_password : (password hashed : String) → Option Bool
  unfolding is_bcrypt_hash
  verify_password password hashed =
      if is_bcrypt_hash hashed then bcrypt.checkpw password hashed else none
