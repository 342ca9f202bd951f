-- ===== src/Bootstrap/Once.antt =====
-- app/services/superuser_bootstrap.py: superusers before and after a bootstrap, and repetitions.
use userverse.Base.{
  ℕ, String, ◌≡◌, refl, sym, ap, ◌∙◌, ◌↔◌, inl, inr, true, false, Option, none, Memᴰ, arith, find?,
  find?-none, mem-update_where_inv, subst, ◌==◌, nat_Eq, Bool-cases, is_some,
}
use userverse.Database.{User, SuperuserBootstrapControl, Db, begin, ok}
use userverse.Bootstrap.{
  SuperuserBootstrapResult, singleton_id, is_active, set_user, complete_control, set_control,
  add_event, make_superuser, bootstrap,
}
use userverse.Bootstrap.Steps.{IsPromoting, promoted, bootstrap-cases}

module _ (int : String → Option ℕ) (now : ℕ) (target : User) (reason : String) (db : Db) where
  controls_completed :
      (c : SuperuserBootstrapControl)
      → Memᴰ c (promoted int now target reason db).controls
      → c.id ≡ singleton_id
      → is_some c.bootstrap_completed_at ≡ true
  unfolding add_event set_control set_user complete_control
  controls_completed c m e =
      let (d, listed, same) =
        mem-update_where_inv (λ (x : SuperuserBootstrapControl). x.id == singleton_id)
          (complete_control target.id now) db.controls m in
      elim (Bool-cases (d.id == singleton_id)) [
        | inl its ↦
            let completed : c ≡ complete_control target.id now d = same ∙ (rw its refl) in
            ap (λ (x : SuperuserBootstrapControl). is_some x.bootstrap_completed_at) completed
        | inr other ↦
            let unchanged : c ≡ d = same ∙ (rw other refl) in
            let its : d.id ≡ singleton_id =
              sym (ap (λ (x : SuperuserBootstrapControl). x.id) unchanged) ∙ e in
            absurd (ground arith)
      ]

  only_target :
      find? (λ (u : User). u.is_superuser) db.users ≡ none
      → (u : User) → Memᴰ u (promoted int now target reason db).users
      → (u.is_superuser ≡ true) ↔ (u.id ≡ target.id)
  unfolding add_event set_control set_user make_superuser
  only_target nobody u m =
      let (v, listed, same) =
        mem-update_where_inv (λ (x : User). x.id == target.id) (make_superuser int) db.users m in
      let plain = find?-none (λ (x : User). x.is_superuser) db.users nobody listed in
      elim (Bool-cases (v.id == target.id)) [
        | inl its ↦
            let changed : u ≡ make_superuser int v = same ∙ (rw its refl) in
            let u_super : u.is_superuser ≡ true = ap (λ (x : User). x.is_superuser) changed in
            let u_id : u.id ≡ v.id = ap (λ (x : User). x.id) changed in
            (λ h. ground arith, λ h. u_super)
        | inr other ↦
            let unchanged : u ≡ v = same ∙ (rw other refl) in
            let u_plain : u.is_superuser ≡ v.is_superuser =
              ap (λ (x : User). x.is_superuser) unchanged in
            let u_id : u.id ≡ v.id = ap (λ (x : User). x.id) unchanged in
            (λ h. absurd (ground arith), λ h. absurd (ground arith))
      ]

module _ (strip lower : String → String) (len : String → ℕ) (int : String → Option ℕ) (now : ℕ)
    (email reason : String) (expected_user_id : ℕ) (db : Db) (r : SuperuserBootstrapResult)
    (returned : (bootstrap strip lower len int now email reason expected_user_id (begin db)).0
      ≡ ok r)
    (changed : r.changed ≡ true) where
  abbrev committed : Db
  committed = (bootstrap strip lower len int now email reason expected_user_id (begin db)).1.saved

  is_promotion :
      (target : User) × IsPromoting target db
      × (r.user_id ≡ target.id)
      × (committed ≡ promoted int now target (strip reason) db)
  is_promotion = elim (bootstrap-cases strip lower len int now email reason expected_user_id db) [
    | inl (e, raised) ↦ absurd (ground (arith, raised))
    | inr (inl (id, repeated)) ↦ absurd (ground (arith, repeated))
    | inr (inr (target, promoting, ends)) ↦
        (target, promoting, ground (arith, ends), ground (arith, ends))
  ]

  -- If a bootstrap returned that it changed the database, there was no superuser before, and
  -- afterwards exactly the rows with the identifier that it returned are superusers. Its target was
  -- an open and active user.
  pub bootstrap-superusers :
      ((u : User) → Memᴰ u db.users → u.is_superuser ≡ false)
      × ((u : User) → Memᴰ u committed.users → (u.is_superuser ≡ true) ↔ (u.id ≡ r.user_id))
      × ((u : User) × Memᴰ u db.users
          × (u.id ≡ r.user_id)
          × (u.closed_at ≡ none)
          × (is_active u.primary_meta_data ≡ true))
  bootstrap-superusers =
      let (target, promoting, same_id, same) = is_promotion in
      (
        λ u m. find?-none (λ (x : User). x.is_superuser) db.users promoting.no_superuser m,
        rw (same, same_id) (only_target int now target (strip reason) db promoting.no_superuser),
        (
          target,
          promoting.target_listed,
          sym same_id,
          promoting.target_open,
          promoting.target_active,
        ),
      )

  -- After a bootstrap that returned that it changed the database, no further bootstrap, whatever
  -- its arguments, changes what is committed or what the session sees.
  pub bootstrap-bootstrap :
      (now' : ℕ) (email' reason' : String) (expected' : ℕ)
      → (bootstrap strip lower len int now' email' reason' expected' (begin committed)).1
        ≡ begin committed
  bootstrap-bootstrap now' email' reason' expected' =
      let (target, promoting, same_id, same) = is_promotion in
      elim (bootstrap-cases strip lower len int now' email' reason' expected' committed) [
        | inl (e, raised) ↦ rw raised refl
        | inr (inl (id, repeated)) ↦ rw repeated refl
        | inr (inr (target', promoting', ends)) ↦
            let completed =
              controls_completed int now target (strip reason) db promoting'.control
                (subst (λ (x : Db). Memᴰ promoting'.control x.controls) same
                  promoting'.control_listed)
                promoting'.control_id in
            absurd (let still_open = promoting'.not_completed in ground arith)
      ]
