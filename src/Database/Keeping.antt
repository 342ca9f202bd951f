-- ===== src/Database/Keeping.antt =====
-- What actions keep of a database, as committed and as the session sees it.
use userverse.Base.{◌≡◌, ap, subst, Bool, true, inl, inr, Bool-cases, Option, none, some}
use userverse.Database.Tables.{Db}
use userverse.Database.Actions.{
  Error, integrity_error, Session, Result, ok, err, Action, ◌>>=◌, modify, write_if, commit,
  on_integrity_error, or_raise,
}
use userverse.Database.Binds.{bind_rule}

module _ {κ} (P : Db → Type κ) where
  abbrev pub Holds : Session → Type κ
  Holds s = P s.saved × P s.live

  -- Whether it returns or raises.
  abbrev pub Keeps {ℓ} : {A : Type ℓ} → Action A → Type κ
  Keeps m = (s : Session) → Holds s → Holds (m s).1

  pub Keeps-bind {ℓ υ} :
      {A : Type ℓ} {B : Type υ} (m : Action A) (f : A → Action B)
      → Keeps m
      → ((a : A) → Keeps (f a))
      → Keeps (m >>= f)
  Keeps-bind {A} {B} m f first then_ s h =
      bind_rule (λ (r : Result B × Session). Holds r.1) m f s
        (λ e t ends. subst Holds (ap (λ (r : Result A × Session). r.1) ends) (first s h))
        (λ a t ends.
          then_ a t (subst Holds (ap (λ (r : Result A × Session). r.1) ends) (first s h)))

  pub Keeps-modify : (f : Db → Db) → ((db : Db) → P db → P (f db)) → Keeps (modify f)
  Keeps-modify f keeps s h = (h.0, keeps s.live h.1)

  pub Keeps-write_if :
      (test : Db → Bool) (f : Db → Db)
      → ((db : Db) → test db ≡ true → P db → P (f db))
      → Keeps (write_if test f)
  Keeps-write_if test f keeps s h = elim (Bool-cases (test s.live)) [
    | inl holds ↦ rw (holds, write_if) (h.0, keeps s.live holds h.1)
    | inr breaks ↦ rw (breaks, write_if) h
  ]

  pub Keeps-commit : Keeps commit
  Keeps-commit s h = (h.1, h.1)

  pub Keeps-or_raise {ℓ} : {A : Type ℓ} (e : Error) (found : Option A) → Keeps (or_raise e found)
  Keeps-or_raise e none s h = h
  Keeps-or_raise e (some a) s h = h

  pub Keeps-on_integrity_error {ℓ} :
      {A : Type ℓ} (m : Action A) (e : Error) → Keeps m → Keeps (on_integrity_error m e)
  Keeps-on_integrity_error {A} m e keeps s h = cases (m s) (keeps s h)
    where
      cases :
          (r : Result A × Session)
          → Holds r.1
          → Holds
              (let both : Result A × Session = elim r.0 [
                | ok a ↦ (ok a, r.1)
                | err integrity_error ↦ (err e, record r.1 { live = r.1.saved })
                | err other ↦ (err other, r.1)
              ] in
                both).1
      cases (ok a, t) k = k
      cases (err integrity_error, t) k = (k.0, k.0)
      cases (err other, t) k = k
