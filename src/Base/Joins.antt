-- ===== src/Base/Joins.antt =====
-- What filters and joins keep of changed tables.
use mathlib.Core.Path.{◌≡◌, refl, sym, ap, ◌∙◌, subst}
use mathlib.Core.Bool.{Bool, true, false, not}
use mathlib.Core.List.{List, [], ◌∷◌, ◌++◌, Memᴰ}
use mathlib.Core.Logic.{inl, inr}
use native.Mathlib.Omega.{arith}
use userverse.Base.Tests.{Bool-cases}
use userverse.Base.Lists.{filter, update_where, join, join_row}
use userverse.Base.Members.{HasNoConflicts, all_mem, mem-append_cases, mem-cons_cases}

module _ {ℓ} {A : Type ℓ} where
  -- Two listed rows that conflict are one.
  pub eq_of_conflict :
      (conflict : A → A → Bool) (rows : List A) {x y : A}
      → HasNoConflicts conflict rows
      → Memᴰ x rows
      → Memᴰ y rows
      → conflict x y ≡ true
      → conflict y x ≡ true
      → x ≡ y
  eq_of_conflict conflict [] h m n e e' = elim m [ ]
  eq_of_conflict conflict (z ∷ rows) h (Memᴰ.head a) (Memᴰ.head b) e e' = a ∙ sym b
  eq_of_conflict conflict (z ∷ rows) {x} {y} h (Memᴰ.head a) (Memᴰ.tail n) e e' =
      let apart = all_mem (λ w. not (conflict z w)) h.0 n in
      absurd (ground (arith, ap (λ w. conflict w y) a))
  eq_of_conflict conflict (z ∷ rows) {x} {y} h (Memᴰ.tail m) (Memᴰ.head b) e e' =
      let apart = all_mem (λ w. not (conflict z w)) h.0 m in
      absurd (ground (arith, ap (λ w. conflict w x) b))
  eq_of_conflict conflict (z ∷ rows) h (Memᴰ.tail m) (Memᴰ.tail n) e e' =
      eq_of_conflict conflict rows h.1 m n e e'

module _ {ℓ} {A : Type ℓ} (q : A → Bool) where
  pub filter-append_dropped :
      (xs : List A) (y : A) → q y ≡ false → filter q (xs ++ y ∷ []) ≡ filter q xs
  filter-append_dropped [] y h = ground arith
  filter-append_dropped (x ∷ xs) y h = ground (arith, filter-append_dropped xs y)

  pub filter-filter :
      (p : A → Bool) (xs : List A)
      → ((x : A) → Memᴰ x xs → q x ≡ true → p x ≡ true)
      → filter q (filter p xs) ≡ filter q xs
  filter-filter p [] h = refl
  filter-filter p (x ∷ xs) h =
      let later = filter-filter p xs (λ y m. h y (Memᴰ.tail m)) in
      ground (arith, h x (Memᴰ.head refl))

  pub filter-update_where :
      (p : A → Bool) (f : A → A) (xs : List A)
      → ((x : A) → Memᴰ x xs → p x ≡ true → (q x ≡ false) × (q (f x) ≡ false))
      → filter q (update_where p f xs) ≡ filter q xs
  filter-update_where p f [] h = refl
  filter-update_where p f (x ∷ xs) h =
      let later = filter-update_where p f xs (λ y m. h y (Memᴰ.tail m)) in
      ground (arith, h x (Memᴰ.head refl))

module _ {ℓ κ} {A : Type ℓ} {B : Type κ} where
  join_row-filter :
      (p q : B → Bool) (a : A) (bs : List B)
      → ((b : B) → p b ≡ true → q b ≡ true)
      → join_row p a (filter q bs) ≡ join_row p a bs
  join_row-filter p q a [] h = refl
  join_row-filter p q a (b ∷ bs) h = ground (arith, h b, join_row-filter p q a bs h)

  pub join-filter_right :
      (p : A → B → Bool) (q : B → Bool) (as' : List A) (bs : List B)
      → ((a : A) (b : B) → p a b ≡ true → q b ≡ true)
      → join p as' (filter q bs) ≡ join p as' bs
  join-filter_right p q [] bs h = refl
  join-filter_right p q (a ∷ as') bs h =
      rw (join_row-filter (p a) q a bs (h a), join-filter_right p q as' bs h) refl

  join_row_none :
      (p : B → Bool) (a : A) (bs : List B) → ((b : B) → p b ≡ false) → join_row p a bs ≡ []
  join_row_none p a [] h = refl
  join_row_none p a (b ∷ bs) h = ground (arith, h b, join_row_none p a bs h)

  pub join-filter_left :
      (p : A → B → Bool) (q : A → Bool) (as' : List A) (bs : List B)
      → ((a : A) (b : B) → p a b ≡ true → q a ≡ true)
      → join p (filter q as') bs ≡ join p as' bs
  join-filter_left p q [] bs h = refl
  join-filter_left p q (a ∷ as') bs h = elim (Bool-cases (q a)) [
    | inl kept ↦ rw (kept, join-filter_left p q as' bs h) refl
    | inr dropped ↦
        let empty = join_row_none (p a) a bs (λ b. ground (arith, h a b)) in
        rw (dropped, join-filter_left p q as' bs h, empty) refl
  ]

  mem-join_row_inv :
      (p : B → Bool) (a : A) {x : A × B} (bs : List B)
      → Memᴰ x (join_row p a bs)
      → (x.0 ≡ a) × Memᴰ x.1 bs × (p x.1 ≡ true)
  mem-join_row_inv p a [] m = elim m [ ]
  mem-join_row_inv p a {x} (b ∷ bs) m = elim (Bool-cases (p b)) [
    | inl kept ↦ elim (mem-cons_cases (rw kept at m)) [
      | inl e ↦ (
        ap (λ y. y.0) e,
        Memᴰ.head (ap (λ y. y.1) e),
        subst (λ y. p y ≡ true) (sym (ap (λ (y : A × B). y.1) e)) kept,
      )
      | inr later ↦
          let (same, listed, h) = mem-join_row_inv p a bs later in (same, Memᴰ.tail listed, h)
    ]
    | inr dropped ↦
        let (same, listed, h) = mem-join_row_inv p a bs (rw dropped at m) in
        (same, Memᴰ.tail listed, h)
  ]

  -- A row of a join is made of a row of each table, and passes the test.
  pub mem-join_inv :
      (p : A → B → Bool) {x : A × B} (as' : List A) (bs : List B)
      → Memᴰ x (join p as' bs)
      → Memᴰ x.0 as' × Memᴰ x.1 bs × (p x.0 x.1 ≡ true)
  mem-join_inv p [] bs m = elim m [ ]
  mem-join_inv p {x} (a ∷ as') bs m = elim (mem-append_cases (join_row (p a) a bs) m) [
    | inl here ↦
        let (same, listed, h) = mem-join_row_inv (p a) a bs here in
        (Memᴰ.head same, listed, subst (λ y. p y x.1 ≡ true) (sym same) h)
    | inr later ↦ let (left, right, h) = mem-join_inv p as' bs later in (Memᴰ.tail left, right, h)
  ]
