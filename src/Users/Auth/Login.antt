-- ===== src/Users/Auth/Login.antt =====
-- app/services/user/basic_auth.py with app/api/security/jwt.py: refresh tokens that were revoked.
use userverse.Base.{
  ℕ, ◌+◌, String, ◌≡◌, refl, sym, ap, ◌∙◌, ◌⊎◌, inl, inr, Bool, true, Option, arith, ◌==◌, nat_Eq,
  Bool-cases, Option-cases,
}
use userverse.Messages.{user, user_account_inactive, security, invalid_token}
use userverse.Database.{
  UserReadModel, MetaData, Db, Session, begin, Error, app_error, Result, ok, err,
}
use userverse.Users.{
  first_active, get_user_by_id, get_refresh_token_version, increment_refresh_token_version,
}
use userverse.Users.Jwt.{Decoded, status_allowed_for_authenticated_access, decode_token}
use userverse.Users.Jwt.Revocation.{
  numbered, increment_cases, version-numbered, get_user_by_id-cases,
  get_refresh_token_version-cases,
}
use userverse.Users.Tokens.{TokenResponseModel, Timeouts, sign_jwt, refresh_token}
use userverse.Users.Auth.{ensure_user_is_active, refresh_user_token, revoke_refresh_token}

module _ (encode : MetaData → String) (decode : String → Decoded) (int : String → Option ℕ)
    (timeouts : Timeouts) (require_email_verification : Bool) (token : String) where
  -- Why a refresh returns tokens.
  pub record IsRefreshed (now : ℕ) (s : Session) (tokens : TokenResponseModel) : Type 0 where
    pub token_user : UserReadModel
    pub version : ℕ
    pub current_user : UserReadModel
    pub decoded : decode_token decode int token "refresh" ≡ ok (token_user, version)
    pub found : get_user_by_id token_user.id s ≡ (ok current_user, s)
    pub same_id : current_user.id ≡ token_user.id
    pub active :
        status_allowed_for_authenticated_access require_email_verification current_user.status
        ≡ true
    pub stored : get_refresh_token_version int current_user.id s ≡ (ok version, s)
    pub signed : tokens ≡ sign_jwt encode timeouts now current_user version

  refresh_ends :
      (now : ℕ) (u cu : UserReadModel) (v w : ℕ)
      → decode_token decode int token "refresh" ≡ ok (u, v)
      → (refresh_token encode decode int timeouts now token cu w
          ≡ err (app_error 401 (security invalid_token)))
        ⊎ ((v ≡ w)
            × (refresh_token encode decode int timeouts now token cu w
                ≡ ok (sign_jwt encode timeouts now cu w)))
  unfolding refresh_token
  refresh_ends now u cu v w decoded = elim (Bool-cases (u.id == cu.id)) [
    | inr other ↦ inl (ground (arith, decoded, other))
    | inl its ↦ elim (Bool-cases (v == w)) [
      | inr other ↦ inl (ground (arith, decoded, its, other))
      | inl same ↦ inr (ground arith, ground (arith, decoded, its, same))
    ]
  ]

  -- A refresh raises or returns, and leaves the session as it was; it returns only new tokens of the
  -- stored version, for an open account with an allowed status, to a refresh token of that account and
  -- version.
  refresh_user_token-cases :
      (now : ℕ) (s : Session)
      → ((e : Error) × (refresh_user_token encode decode int timeouts require_email_verification
              token now s
            ≡ (err e, s)))
        ⊎ ((tokens : TokenResponseModel) × IsRefreshed now s tokens
            × (refresh_user_token encode decode int timeouts require_email_verification token now s
                ≡ (ok tokens, s)))
  unfolding refresh_user_token ensure_user_is_active
  refresh_user_token-cases now s = by_token (decode_token decode int token "refresh") refl
    where
      by_token :
          (r : Result (UserReadModel × ℕ))
          → decode_token decode int token "refresh" ≡ r
          → ((e : Error) × (refresh_user_token encode decode int timeouts require_email_verification
                  token now s
                ≡ (err e, s)))
            ⊎ ((tokens : TokenResponseModel) × IsRefreshed now s tokens
                × (refresh_user_token encode decode int timeouts require_email_verification token
                      now s
                    ≡ (ok tokens, s)))
      by_token (err e) decoded = inl (e, ground (arith, decoded))
      by_token (ok (u, v)) decoded =
          elim (get_user_by_id-cases decode int require_email_verification token u.id s) [
            | inl (e, raised) ↦ inl (e, ground (arith, decoded, raised))
            | inr (cu, found, same_id) ↦
                elim (Bool-cases
                  (status_allowed_for_authenticated_access require_email_verification cu.status)) [
                    | inr inactive ↦ inl (
                      app_error 403 (user user_account_inactive),
                      ground (arith, decoded, found, inactive),
                    )
                    | inl active ↦
                        elim (get_refresh_token_version-cases decode int require_email_verification
                          token cu.id s) [
                            | inl (e, raised) ↦
                                inl (e, ground (arith, decoded, found, active, raised))
                            | inr (w, stored) ↦ elim (refresh_ends now u cu v w decoded) [
                              | inl refused ↦ inl (
                                app_error 401 (security invalid_token),
                                ground (arith, decoded, found, active, stored, refused),
                              )
                              | inr (same, signed) ↦ inr (
                                sign_jwt encode timeouts now cu w,
                                record {
                                  token_user = u;
                                  version = v;
                                  current_user = cu;
                                  decoded = decoded;
                                  found = found;
                                  same_id = same_id;
                                  active = active;
                                  stored = rw same stored;
                                  signed = rw same refl;
                                },
                                ground (arith, decoded, found, active, stored, signed),
                              )
                            ]
                          ]
                  ]
          ]

  increment_number :
      (id v n : ℕ) (db : Db)
      → get_refresh_token_version int id (begin db) ≡ (ok v, begin db)
      → (increment_refresh_token_version int id (begin db)).0 ≡ ok n
      → n ≡ v + 1
  unfolding increment_refresh_token_version
  increment_number id v n db stored returned = elim (Option-cases (first_active id db)) [
    | inl nobody ↦ absurd (ground (arith, nobody))
    | inr (u, somebody) ↦ ground (arith, somebody, stored)
  ]

  revoke_ends :
      (db : Db) (u cu : UserReadModel) (v : ℕ)
      → decode_token decode int token "refresh" ≡ ok (u, v)
      → get_user_by_id u.id (begin db) ≡ (ok cu, begin db)
      → (revoke_refresh_token encode decode int timeouts require_email_verification token
          (begin db)).0
        ≡ ok tt
      → (n : ℕ) × ((increment_refresh_token_version int cu.id (begin db)).0 ≡ ok n)
        × ((revoke_refresh_token encode decode int timeouts require_email_verification token
              (begin db)).1
            ≡ (increment_refresh_token_version int cu.id (begin db)).1)
  unfolding revoke_refresh_token
  revoke_ends db u cu v decoded found revoked =
      by_result (increment_refresh_token_version int cu.id (begin db)) refl
    where
      by_result :
          (r : Result ℕ × Session)
          → increment_refresh_token_version int cu.id (begin db) ≡ r
          → (n : ℕ) × ((increment_refresh_token_version int cu.id (begin db)).0 ≡ ok n)
            × ((revoke_refresh_token encode decode int timeouts require_email_verification token
                  (begin db)).1
                ≡ (increment_refresh_token_version int cu.id (begin db)).1)
      by_result (err e, t) h = absurd (ground (arith, decoded, found, h))
      by_result (ok n, t) h =
          (n, ap (λ (r : Result ℕ × Session). r.0) h, ground (arith, decoded, found, h))

  -- If a refresh token is accepted and then revoked, every later refresh with it raises.
  pub refresh_user_token-revoke_refresh_token :
      (now later : ℕ) (db : Db) (tokens : TokenResponseModel)
      → (refresh_user_token encode decode int timeouts require_email_verification token now
          (begin db)).0
        ≡ ok tokens
      → (revoke_refresh_token encode decode int timeouts require_email_verification token
          (begin db)).0
        ≡ ok tt
      → let s =
          (revoke_refresh_token encode decode int timeouts require_email_verification token
            (begin db)).1 in
        (e : Error) × (refresh_user_token encode decode int timeouts require_email_verification
            token later s
          ≡ (err e, s))
  refresh_user_token-revoke_refresh_token now later db tokens accepted revoked =
      elim (refresh_user_token-cases now (begin db)) [
        | inl (e, raised) ↦ absurd (cc (raised, accepted))
        | inr (given, before, same) ↦
            let (n, numbered_n, ends) =
              revoke_ends db before.token_user before.current_user before.version before.decoded
                before.found revoked in
            let number_is =
              increment_number before.current_user.id before.version n db before.stored
                numbered_n in
            let (row, somebody, after_is) =
              increment_cases int before.current_user.id db n numbered_n in
            let after = numbered int before.current_user.id db n row in
            let stored_now = version-numbered int before.current_user.id db n row somebody in
            rw (ends, after_is)
              (elim (refresh_user_token-cases later (begin after)) [
                | inl raises ↦ raises
                | inr (again, refreshed, same') ↦
                    let one : refreshed.token_user ≡ before.token_user =
                      cc (refreshed.decoded, before.decoded) in
                    let v_is : refreshed.version ≡ before.version =
                      cc (refreshed.decoded, before.decoded) in
                    let its_id : refreshed.current_user.id ≡ before.current_user.id =
                      refreshed.same_id
                      ∙ (ap (λ (x : UserReadModel). x.id) one ∙ sym before.same_id) in
                    let stored_then = rw its_id at refreshed.stored in
                    let twice : ok n ≡ ok refreshed.version =
                      ap (λ (r : Result ℕ × Session). r.0) (sym stored_now ∙ stored_then) in
                    absurd (ground (arith, twice, v_is, number_is))
              ])
      ]
