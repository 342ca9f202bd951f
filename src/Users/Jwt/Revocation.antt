-- ===== src/Users/Jwt/Revocation.antt =====
-- app/api/security/jwt.py with app/repository/user.py: tokens and the version of refresh tokens.
use userverse.Base.{
  ℕ, ◌+◌, String, ◌≡◌, refl, sym, ap, ◌∙◌, ◌⊎◌, inl, inr, Bool, ◌&&◌, Option, some, arith,
  find?_sound, find?-update_where, put, lookup-put, ◌==◌, nat_Eq, string_Eq, is_none, Option-cases,
  Bool-cases, subst,
}
use userverse.Database.{
  UserReadModel, User, MetaData, number, Db, Session, begin, Error, app_error, Result, ok, err,
  one_or_none-cases,
}
use userverse.Messages.{user, user_not_found}
use userverse.Bootstrap.{int_value, set_user, refresh_token_version}
use userverse.Users.{
  to_read_model, set_field, first_active, get_user_by_id, get_refresh_token_version,
  increment_refresh_token_version,
}
use userverse.Users.Jwt.{
  Decoded, status_allowed_for_authenticated_access, decode_token, get_current_user_from_jwt_token,
}

module _ (int : String → Option ℕ) where
  refresh_token_version-put :
      (n : ℕ) (metadata : MetaData)
      → refresh_token_version int (put "refresh_token_version" (number n) metadata) ≡ n
  unfolding refresh_token_version int_value
  refresh_token_version-put n metadata =
      ap (int_value int)
        (lookup-put "refresh_token_version" "refresh_token_version" (number n) metadata)

  module _ (user_id : ℕ) (db : Db) where
    abbrev pub numbered : ℕ → User → Db
    numbered v u = set_user u.id (set_field "refresh_token_version" (number v)) db

    pub increment_cases :
        (v : ℕ)
        → (increment_refresh_token_version int user_id (begin db)).0 ≡ ok v
        → (u : User) × (first_active user_id db ≡ some u)
          × ((increment_refresh_token_version int user_id (begin db)).1 ≡ begin (numbered v u))
    unfolding increment_refresh_token_version get_refresh_token_version
    increment_cases v e = elim (Option-cases (first_active user_id db)) [
      | inl nobody ↦ absurd (ground (arith, nobody))
      | inr (u, somebody) ↦
          let number_is : refresh_token_version int u.primary_meta_data + 1 ≡ v =
            ground (arith, somebody) in
          (u, somebody, rw (sym number_is) (ground (arith, somebody)))
    ]

    pub version-numbered :
        (v : ℕ) (u : User)
        → first_active user_id db ≡ some u
        → get_refresh_token_version int user_id (begin (numbered v u))
          ≡ (ok v, begin (numbered v u))
    unfolding get_refresh_token_version first_active set_user set_field
    version-numbered v u somebody =
        let is_it = λ (x : User). (x.id == user_id) && is_none x.closed_at in
        let (listed, passes) = find?_sound is_it db.users somebody in
        let same_id : u.id ≡ user_id = ground arith in
        let found =
          find?-update_where is_it (λ (x : User). x.id == u.id)
            (set_field "refresh_token_version" (number v)) db.users (λ y. ground arith)
            (λ y h. ground (arith, same_id)) somebody in
        let stored = refresh_token_version-put v u.primary_meta_data in
        ground (arith, found, stored)

module _ (decode : String → Decoded) (int : String → Option ℕ) (require_verification : Bool)
    (token : String) where
  pub get_user_by_id-cases :
      (id : ℕ) (s : Session)
      → ((e : Error) × (get_user_by_id id s ≡ (err e, s)))
        ⊎ ((u : UserReadModel) × (get_user_by_id id s ≡ (ok u, s)) × (u.id ≡ id))
  unfolding get_user_by_id to_read_model
  get_user_by_id-cases id s =
      elim (one_or_none-cases (λ (u : User). (u.id == id) && is_none u.closed_at) s.live.users) [
        | inl (e, failed) ↦ inl (app_error 404 (user user_not_found), ground (arith, failed))
        | inr (inl (absent, none_passes)) ↦
            inl (app_error 404 (user user_not_found), ground (arith, absent))
        | inr (inr (u, present, listed, passes)) ↦
            inr (to_read_model u, ground (arith, present), ground arith)
      ]

  pub get_refresh_token_version-cases :
      (id : ℕ) (s : Session)
      → ((e : Error) × (get_refresh_token_version int id s ≡ (err e, s)))
        ⊎ ((v : ℕ) × (get_refresh_token_version int id s ≡ (ok v, s)))
  unfolding get_refresh_token_version
  get_refresh_token_version-cases id s = elim (Option-cases (first_active id s.live)) [
    | inl nobody ↦ inl (app_error 404 (user user_not_found), ground (arith, nobody))
    | inr (u, somebody) ↦
        inr (refresh_token_version int u.primary_meta_data, ground (arith, somebody))
  ]

  -- A request is authenticated with the version that is stored for its user.
  version_matches :
      (s : Session) (u : UserReadModel)
      → (get_current_user_from_jwt_token decode int require_verification (some token) s).0 ≡ ok u
      → (tu : UserReadModel) × (v : ℕ) × (decode_token decode int token "access" ≡ ok (tu, v))
        × (get_refresh_token_version int u.id s ≡ (ok v, s))
  unfolding get_current_user_from_jwt_token
  version_matches s u e = by_token (decode_token decode int token "access") refl
    where
      by_token :
          (r : Result (UserReadModel × ℕ))
          → decode_token decode int token "access" ≡ r
          → (tu : UserReadModel) × (v : ℕ) × (decode_token decode int token "access" ≡ ok (tu, v))
            × (get_refresh_token_version int u.id s ≡ (ok v, s))
      by_token (err e') decoded = absurd (ground (arith, decoded))
      by_token (ok (tu, v)) decoded = elim (get_user_by_id-cases tu.id s) [
        | inl (e', raised) ↦ absurd (ground (arith, decoded, raised))
        | inr (cu, found, same_id) ↦ elim (get_refresh_token_version-cases cu.id s) [
          | inl (e', raised) ↦ absurd (ground (arith, decoded, found, raised))
          | inr (w, stored) ↦ elim (Bool-cases (v == w)) [
            | inr other ↦ absurd (ground (arith, decoded, found, stored, other))
            | inl same ↦
                elim (Bool-cases
                  (status_allowed_for_authenticated_access require_verification cu.status)) [
                    | inr inactive ↦ absurd (ground (arith, decoded, found, stored, same, inactive))
                    | inl active ↦
                        let its : cu ≡ u = ground (arith, decoded, found, stored, same, active) in
                        let version : w ≡ v = ground arith in
                        (
                          tu,
                          v,
                          decoded,
                          subst
                              (λ (x : UserReadModel).
                                get_refresh_token_version int x.id s ≡ (ok v, s))
                              its (rw (sym version) stored),
                        )
                  ]
          ]
        ]
      ]

  -- After `increment_refresh_token_version` returned a version for a user, a request is
  -- authenticated as that user only by an access token of exactly that version.
  pub get_current_user-increment_refresh_token_version :
      (user_id v : ℕ) (u : UserReadModel) (db : Db)
      → (increment_refresh_token_version int user_id (begin db)).0 ≡ ok v
      → let s = (increment_refresh_token_version int user_id (begin db)).1 in
        (get_current_user_from_jwt_token decode int require_verification (some token) s).0 ≡ ok u
        → u.id ≡ user_id
        → (tu : UserReadModel) × (decode_token decode int token "access" ≡ ok (tu, v))
  get_current_user-increment_refresh_token_version user_id v u db returned authenticated its_id =
      let (row, somebody, ends) = increment_cases int user_id db v returned in
      let after = numbered int user_id db v row in
      let (tu, w, decoded, stored) = version_matches (begin after) u (rw ends at authenticated) in
      let new = version-numbered int user_id db v row somebody in
      let stored_for : get_refresh_token_version int user_id (begin after) ≡ (ok w, begin after) =
        rw its_id at stored in
      let same : ok w ≡ ok v = ap (λ (o : Result ℕ × Session). o.0) (sym stored_for ∙ new) in
      (tu, subst (λ n. decode_token decode int token "access" ≡ ok (tu, n)) (cc same) decoded)
