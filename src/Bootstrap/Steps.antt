-- ===== src/Bootstrap/Steps.antt =====
-- app/services/superuser_bootstrap.py: how a bootstrap ends.
use userverse.Base.{
  ℕ, String, ◌≡◌, ◌⊎◌, inl, inr, true, false, ◌&&◌, Option, none, some, Memᴰ, arith, find?, filter,
  length, leb, Option-cases, Bool-cases, ◌==◌, nat_Eq, string_Eq, option_Eq, is_none,
}
use userverse.Database.{
  User, SuperuserBootstrapControl, Db, Session, begin, Error, superuser_bootstrap_error, no_result,
  ok, err, one_or_none-cases,
}
use userverse.Bootstrap.{
  singleton_id, is_active, set_user, complete_control, set_control, add_event, lock_control,
  make_superuser, normalize_email, get_target, validate_reason, promote, repeat_or_refuse,
  bootstrap,
}

lock_control-cases :
    (s : Session)
    → ((e : Error) × (lock_control s ≡ (err e, s)))
      ⊎ ((c : SuperuserBootstrapControl) × (lock_control s ≡ (ok c, s))
          × Memᴰ c s.live.controls
          × (c.id ≡ singleton_id))
unfolding lock_control
lock_control-cases s =
    elim (Bool-cases (
      length (filter (λ (c : SuperuserBootstrapControl). c.id == singleton_id) s.live.controls)
      == 1)) [
        | inr other ↦ inl (
          superuser_bootstrap_error "Superuser bootstrap control is missing.",
          ground (arith, other),
        )
        | inl one ↦ elim (one_or_none-cases (λ c. c.id == singleton_id) s.live.controls) [
          | inl (e, failed) ↦ inl (e, ground (arith, one, failed))
          | inr (inl (absent, none_passes)) ↦ inl (no_result, ground (arith, one, absent))
          | inr (inr (c, present, listed, passes)) ↦
              inr (c, ground (arith, one, present), listed, ground arith)
        ]
      ]

module _ (strip lower : String → String) where
  -- A target is registered, open and active.
  get_target-cases :
      (email : String) (s : Session)
      → ((e : Error) × (get_target strip lower email s ≡ (err e, s)))
        ⊎ ((u : User) × (get_target strip lower email s ≡ (ok u, s))
            × Memᴰ u s.live.users
            × (u.closed_at ≡ none)
            × (is_active u.primary_meta_data ≡ true))
  unfolding get_target normalize_email
  get_target-cases email s =
      let is_target = λ (u : User). (lower u.email == lower (strip email)) && is_none u.closed_at in
      elim (Bool-cases (lower (strip email) == "")) [
        | inl empty ↦ inl (
          superuser_bootstrap_error "An existing user's email is required.",
          ground (arith, empty),
        )
        | inr given ↦ elim (one_or_none-cases is_target s.live.users) [
          | inl (e, failed) ↦ inl (e, ground (arith, given, failed))
          | inr (inl (absent, none_passes)) ↦ inl (
            superuser_bootstrap_error "No active user exists for the supplied email.",
            ground (arith, given, absent),
          )
          | inr (inr (u, present, listed, passes)) ↦
              elim (Bool-cases (is_active u.primary_meta_data)) [
                | inl active ↦
                    inr (u, ground (arith, given, present, active), listed, ground arith, active)
                | inr inactive ↦ inl (
                  superuser_bootstrap_error "The bootstrap target must be active and verified.",
                  ground (arith, given, present, inactive),
                )
              ]
        ]
      ]

module _ (int : String → Option ℕ) (now : ℕ) (target : User) (reason : String) (db : Db) where
  -- What a promotion commits.
  abbrev pub promoted : Db
  promoted =
      add_event target.id reason
        (set_control (complete_control target.id now) (set_user target.id (make_superuser int) db))

  promote-cases :
      ((e : Error) × (promote int now target reason (begin db) ≡ (err e, begin db)))
      ⊎ ((find? (λ (u : User). u.is_superuser) db.users ≡ none)
          × (promote int now target reason (begin db)
              ≡ (ok (record { user_id = target.id; changed = true }), begin promoted)))
  unfolding promote
  promote-cases = elim (Option-cases (find? (λ (u : User). u.is_superuser) db.users)) [
    | inr (u, present) ↦ inl (
      superuser_bootstrap_error "A superuser already exists, so initial bootstrap is disabled.",
      ground (arith, present),
    )
    | inl absent ↦ inr (absent, ground (arith, absent))
  ]

  repeat_or_refuse-cases :
      (c : SuperuserBootstrapControl)
      → ((e : Error) × (repeat_or_refuse c target (begin db) ≡ (err e, begin db)))
        ⊎ (repeat_or_refuse c target (begin db)
            ≡ (ok (record { user_id = target.id; changed = false }), begin db))
  unfolding repeat_or_refuse
  repeat_or_refuse-cases c =
      elim (Bool-cases ((c.bootstrap_user_id == some target.id) && target.is_superuser)) [
        | inl repeated ↦ inr (ground (arith, repeated))
        | inr refused ↦ inl (
          superuser_bootstrap_error "Initial superuser bootstrap has already been completed.",
          ground (arith, refused),
        )
      ]

-- The state of the database in which a user is promoted.
pub record IsPromoting (target : User) (db : Db) : Type 0 where
  pub control : SuperuserBootstrapControl
  pub control_listed : Memᴰ control db.controls
  pub control_id : control.id ≡ singleton_id
  pub not_completed : control.bootstrap_completed_at ≡ none
  pub no_superuser : find? (λ (u : User). u.is_superuser) db.users ≡ none
  pub target_listed : Memᴰ target db.users
  pub target_open : target.closed_at ≡ none
  pub target_active : is_active target.primary_meta_data ≡ true

module _ (strip lower : String → String) (len : String → ℕ) (int : String → Option ℕ) (now : ℕ)
    (email reason : String) (expected_user_id : ℕ) (db : Db) where
  -- A bootstrap raises, or it returns that nothing was changed, and in both cases the database is as
  -- it was; or it promotes its target and commits that.
  pub bootstrap-cases :
      ((e : Error) × (bootstrap strip lower len int now email reason expected_user_id (begin db)
          ≡ (err e, begin db)))
      ⊎ (((id : ℕ) × (bootstrap strip lower len int now email reason expected_user_id (begin db)
              ≡ (ok (record { user_id = id; changed = false }), begin db)))
          ⊎ ((target : User) × IsPromoting target db
              × (bootstrap strip lower len int now email reason expected_user_id (begin db) ≡ (
                ok (record { user_id = target.id; changed = true }),
                begin (promoted int now target (strip reason) db),
              ))))
  unfolding bootstrap validate_reason
  bootstrap-cases = elim (Bool-cases (strip reason == "")) [
    | inl empty ↦
        inl (superuser_bootstrap_error "A bootstrap reason is required.", ground (arith, empty))
    | inr given ↦ elim (Bool-cases (leb (len (strip reason)) 1024)) [
      | inr long ↦ inl (
        superuser_bootstrap_error "The bootstrap reason cannot exceed 1024 characters.",
        ground (arith, given, long),
      )
      | inl short ↦ elim (lock_control-cases (begin db)) [
        | inl (e, raised) ↦ inl (e, ground (arith, given, short, raised))
        | inr (c, locked, c_listed, c_id) ↦ elim (get_target-cases strip lower email (begin db)) [
          | inl (e, raised) ↦ inl (e, ground (arith, given, short, locked, raised))
          | inr (u, found, u_listed, u_open, u_active) ↦
              elim (Bool-cases (u.id == expected_user_id)) [
                | inr other ↦ inl (
                  superuser_bootstrap_error "The confirmed user ID no longer matches.",
                  ground (arith, given, short, locked, found, other),
                )
                | inl expected ↦ elim (Option-cases c.bootstrap_completed_at) [
                  | inr (t, completed) ↦ elim (repeat_or_refuse-cases int now u reason db c) [
                    | inl (e, raised) ↦ inl (
                      e,
                      ground (arith, given, short, locked, found, expected, completed, raised),
                    )
                    | inr repeated ↦ inr (
                        inl (
                          u.id,
                          ground
                              (arith, given, short, locked, found, expected, completed, repeated),
                        ))
                  ]
                  | inl open_control ↦ elim (promote-cases int now u (strip reason) db) [
                    | inl (e, raised) ↦ inl (
                      e,
                      ground (arith, given, short, locked, found, expected, open_control, raised),
                    )
                    | inr (nobody, returned) ↦ inr (
                        inr (
                          u,
                          record {
                            control = c;
                            control_listed = c_listed;
                            control_id = c_id;
                            not_completed = open_control;
                            no_superuser = nobody;
                            target_listed = u_listed;
                            target_open = u_open;
                            target_active = u_active;
                          },
                          ground (
                            arith, given, short, locked, found, expected, open_control, returned,
                          ),
                        ))
                  ]
                ]
              ]
        ]
      ]
    ]
  ]
