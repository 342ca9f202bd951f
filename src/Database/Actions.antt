-- ===== src/Database/Actions.antt =====
-- A SQLAlchemy session with its transaction: `saved` is what is committed, `live` what the session
-- sees. A method is an action that returns or raises, and what it wrote before a raise stays in
-- `live`. A statement that breaks a constraint raises `IntegrityError` and writes nothing.
use userverse.Base.{
  ℕ, String, Bool, true, false, Option, none, some, List, [], ◌∷◌, filter, if◌then◌else◌,
}
use userverse.Messages.{Message}
use userverse.Database.Tables.{Db}

-- `AppError(status_code, message)` without its `error` detail, and the other exceptions.
pub data Error : Type 0 where
  app_error : ℕ → Message → Error
  integrity_error : Error
  multiple_results : Error
  no_result : Error
  value_error : Error
  key_error : Error
  superuser_bootstrap_error : String → Error

pub data Result {ℓ} (A : Type ℓ) : Type ℓ where
  ok : A → Result A
  err : Error → Result A

pub record Session : Type 0 where
  pub saved : Db
  pub live : Db

-- A request's session: what it sees is what is committed.
abbrev pub begin : Db → Session
begin db = record { saved = db; live = db }

abbrev pub Action {ℓ} : Type ℓ → Type ℓ
Action A = Session → Result A × Session

module _ {ℓ} {A : Type ℓ} where
  abbrev pub pure : A → Action A
  pure a s = (ok a, s)

  abbrev pub raise : Error → Action A
  raise e s = (err e, s)

  -- A query reads what the session sees.
  abbrev pub gets : (Db → A) → Action A
  gets f s = (ok (f s.live), s)

  abbrev pub lift : Result A → Action A
  lift r s = (r, s)

infixl 5 ◌>>=◌ ◌>>◌
abbrev pub ◌>>=◌ {ℓ κ} : {A : Type ℓ} {B : Type κ} → Action A → (A → Action B) → Action B
◌>>=◌ m f s = let (r, s') = m s in elim r [ ok a ↦ f a s' | err e ↦ raise e s' ]

abbrev pub ◌>>◌ {ℓ κ} : {A : Type ℓ} {B : Type κ} → Action A → Action B → Action B
m >> k = m >>= λ _. k

abbrev pub modify : (Db → Db) → Action (Unit {0})
modify f s = (ok tt, record s { live = f s.live })

abbrev pub commit : Action (Unit {0})
commit s = (ok tt, record s { saved = s.live })

abbrev pub rollback : Action (Unit {0})
rollback s = (ok tt, record s { live = s.saved })

abbrev pub raise_if : Bool → Error → Action (Unit {0})
raise_if c e s = (if c then err e else ok tt, s)

-- A flushed INSERT or UPDATE under the constraints of its table.
abbrev pub write_if : (Db → Bool) → (Db → Db) → Action (Unit {0})
write_if holds f s = elim (holds s.live) [
  | true ↦ (ok tt, record s { live = f s.live })
  | false ↦ (err integrity_error, s)
]

-- `except IntegrityError: rollback(); raise …`
abbrev pub on_integrity_error {ℓ} : {A : Type ℓ} → Action A → Error → Action A
on_integrity_error m e s =
    let (r, s') = m s in
    elim r [
      | ok a ↦ (ok a, s')
      | err integrity_error ↦ (err e, record s' { live = s'.saved })
      | err other ↦ (err other, s')
    ]

-- `except Exception: rollback(); raise …`
abbrev pub on_exception {ℓ} : {A : Type ℓ} → Action A → (Error → Error) → Action A
on_exception m e s =
    let (r, s') = m s in
    elim r [ ok a ↦ (ok a, s') | err other ↦ (err (e other), record s' { live = s'.saved }) ]

-- `except Exception: raise …`, without a rollback
abbrev pub on_any_error {ℓ} : {A : Type ℓ} → Action A → Error → Action A
on_any_error m e s = let (r, s') = m s in elim r [ ok a ↦ (ok a, s') | err other ↦ (err e, s') ]

module _ {ℓ} {A : Type ℓ} where
  unfoldable pub at_most_one : List A → Result (Option A)
  at_most_one [] = ok none
  at_most_one (x ∷ []) = ok (some x)
  at_most_one (x ∷ y ∷ rest) = err multiple_results

  -- `query(…).filter(p).one_or_none()`
  unfoldable pub one_or_none : (A → Bool) → List A → Result (Option A)
  unfolding at_most_one
  one_or_none p rows = at_most_one (filter p rows)

  -- `if x is None: raise e`
  abbrev pub or_raise : Error → Option A → Action A
  or_raise e none = raise e
  or_raise e (some a) = pure a

  -- `query(model).filter(p).one_or_none()`
  abbrev pub select_one : (Db → List A) → (A → Bool) → Action (Option A)
  select_one table p s = (one_or_none p (table s.live), s)
