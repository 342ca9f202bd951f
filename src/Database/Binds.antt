-- ===== src/Database/Binds.antt =====
-- What holds after two actions in a row.
use userverse.Base.{◌≡◌, refl, ap}
use userverse.Database.Actions.{Error, Session, Result, ok, err, Action, raise, ◌>>=◌}

module _ {ℓ κ υ} {A : Type ℓ} {B : Type κ} (P : Result B × Session → Type υ) (m : Action A)
    (f : A → Action B) (s : Session) where
  -- The first raises, or it returns and the second starts where it ended.
  pub bind_rule :
      ((e : Error) (t : Session) → m s ≡ (err e, t) → P (err e, t))
      → ((a : A) (t : Session) → m s ≡ (ok a, t) → P (f a t))
      → P ((m >>= f) s)
  bind_rule raises returns = cases (m s) refl
    where
      cases :
          (ended : Result A × Session)
          → m s ≡ ended
          → P (elim ended.0 [ ok a ↦ f a ended.1 | err e ↦ raise e ended.1 ])
      cases (err e, t) h = raises e t h
      cases (ok a, t) h = returns a t h

-- What the first raises, both raise.
pub bind_err {ℓ κ} :
    {A : Type ℓ} {B : Type κ} (m : Action A) (f : A → Action B) (s : Session) {e : Error}
    {t : Session}
    → m s ≡ (err e, t)
    → (m >>= f) s ≡ (err e, t)
bind_err {A} {B} m f s h =
    ap
      (λ (ended : Result A × Session).
        let both : Result B × Session = elim ended.0 [
          | ok a ↦ f a ended.1
          | err e ↦ raise e ended.1
        ] in
        both)
      h
