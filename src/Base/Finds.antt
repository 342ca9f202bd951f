-- ===== src/Base/Finds.antt =====
-- The first row of a table that passes a test, as the table changes.
use mathlib.Core.Path.{◌≡◌, refl, subst}
use mathlib.Core.Logic.{inl, inr}
use mathlib.Core.Bool.{Bool, true, ◌&&◌}
use mathlib.Core.Option.{none, some}
use mathlib.Core.List.{List, [], ◌∷◌}
use native.Mathlib.Omega.{arith}
use userverse.Base.Tests.{if◌then◌else◌, Bool-cases}
use userverse.Base.Lists.{find?, update_where}

module _ {ℓ} {A : Type ℓ} (p : A → Bool) where
  -- Rows are changed so that the test keeps its value: the first row that passes stays the first.
  pub find?-update :
      (q : A → Bool) (f : A → A) {x : A} (xs : List A)
      → ((y : A) → p (f y) ≡ p y)
      → find? p xs ≡ some x
      → find? p (update_where q f xs) ≡ some (if q x then f x else x)
  find?-update q f [] same e = absurd (cc e)
  find?-update q f {x} (y ∷ xs) same e = elim (Bool-cases (p y)) [
    | inl here ↦
        let its : some y ≡ some x = rw here at e in
        let y_is : y ≡ x = cc its in
        subst (λ z. find? p (update_where q f (y ∷ xs)) ≡ some (if q z then f z else z)) y_is
          (elim (Bool-cases (q y)) [
            | inl changed ↦ rw (changed, same y, here) refl
            | inr kept ↦ rw (kept, here) refl
          ])
    | inr not_here ↦
        let later : find? p xs ≡ some x = rw not_here at e in
        let found = find?-update q f xs same later in
        elim (Bool-cases (q y)) [
          | inl changed ↦ rw (changed, same y, not_here) found
          | inr kept ↦ rw (kept, not_here) found
        ]
  ]

  pub find?-none_update :
      (q : A → Bool) (f : A → A) (xs : List A)
      → ((y : A) → p (f y) ≡ p y)
      → find? p xs ≡ none
      → find? p (update_where q f xs) ≡ none
  find?-none_update q f [] same e = refl
  find?-none_update q f (y ∷ xs) same e = ground (arith, same y, find?-none_update q f xs same)

  -- The first row that passes one test and passes another is the first to pass both.
  pub find?-and :
      (q : A → Bool) {x : A} (xs : List A)
      → find? p xs ≡ some x
      → q x ≡ true
      → find? (λ y. p y && q y) xs ≡ some x
  find?-and q [] e h = absurd (cc e)
  find?-and q {x} (y ∷ xs) e h = elim (Bool-cases (p y)) [
    | inl here ↦
        let its : some y ≡ some x = rw here at e in
        let y_is : y ≡ x = cc its in rw (here, y_is, h) refl
    | inr not_here ↦
        let later : find? p xs ≡ some x = rw not_here at e in rw not_here (find?-and q xs later h)
  ]

  -- Where a row passes two tests, a row passes one.
  pub find?-weaker :
      (q : A → Bool) {x : A} (xs : List A)
      → find? (λ y. p y && q y) xs ≡ some x
      → (z : A) × (find? p xs ≡ some z)
  find?-weaker q [] e = absurd (cc e)
  find?-weaker q {x} (y ∷ xs) e = elim (Bool-cases (p y)) [
    | inl here ↦ (y, rw here refl)
    | inr not_here ↦
        let later : find? (λ z. p z && q z) xs ≡ some x = rw not_here at e in
        let (z, found) = find?-weaker q xs later in (z, rw not_here found)
  ]
