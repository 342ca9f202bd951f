-- ===== src/Base/Members.antt =====
-- Which rows a table holds after an insertion, an update or a deletion.
use mathlib.Core.Path.{◌≡◌, refl, sym, ap, subst}
use mathlib.Core.Logic.{◌⊎◌, inl, inr}
use mathlib.Core.Bool.{Bool, true, not}
use mathlib.Core.List.{List, [], ◌∷◌, ◌++◌, map, Memᴰ}
use native.Mathlib.Omega.{arith}
use userverse.Base.Tests.{if◌then◌else◌, Bool-cases}
use userverse.Base.Lists.{filter, update_where, all}

module _ {ℓ} {A : Type ℓ} where
  pub mem-append_left : {x : A} {xs : List A} (ys : List A) → Memᴰ x xs → Memᴰ x (xs ++ ys)
  mem-append_left ys (Memᴰ.head e) = Memᴰ.head e
  mem-append_left ys (Memᴰ.tail m) = Memᴰ.tail (mem-append_left ys m)

  pub mem-append_right : {x : A} (xs : List A) {ys : List A} → Memᴰ x ys → Memᴰ x (xs ++ ys)
  mem-append_right [] m = m
  mem-append_right (y ∷ xs) m = Memᴰ.tail (mem-append_right xs m)

  pub mem-append_cases :
      {x : A} (xs : List A) {ys : List A} → Memᴰ x (xs ++ ys) → Memᴰ x xs ⊎ Memᴰ x ys
  mem-append_cases [] m = inr m
  mem-append_cases (y ∷ xs) (Memᴰ.head e) = inl (Memᴰ.head e)
  mem-append_cases (y ∷ xs) (Memᴰ.tail m) = elim (mem-append_cases xs m) [
    | inl l ↦ inl (Memᴰ.tail l)
    | inr r ↦ inr r
  ]

  pub mem-cons_cases : {x y : A} {xs : List A} → Memᴰ x (y ∷ xs) → (x ≡ y) ⊎ Memᴰ x xs
  mem-cons_cases (Memᴰ.head e) = inl e
  mem-cons_cases (Memᴰ.tail m) = inr m

  -- The only row of a one-row table.
  pub mem-one : {x y : A} → Memᴰ x (y ∷ []) → x ≡ y
  mem-one (Memᴰ.head e) = e
  mem-one (Memᴰ.tail m) = elim m [ ]

module _ {ℓ} {A : Type ℓ} (p : A → Bool) where
  pub mem-filter : {x : A} {xs : List A} → Memᴰ x xs → p x ≡ true → Memᴰ x (filter p xs)
  mem-filter {x} (Memᴰ.head {x = y} {xs} e) h =
      let same : p y ≡ true = subst (λ z. p z ≡ true) e h in rw same (Memᴰ.head e)
  mem-filter {x} (Memᴰ.tail {x = y} m) h = elim (Bool-cases (p y)) [
    | inl kept ↦ rw kept (Memᴰ.tail (mem-filter m h))
    | inr dropped ↦ rw dropped (mem-filter m h)
  ]

  pub mem-filter_inv : {x : A} (xs : List A) → Memᴰ x (filter p xs) → Memᴰ x xs × (p x ≡ true)
  mem-filter_inv [] m = elim m [ ]
  mem-filter_inv {x} (y ∷ xs) m = elim (Bool-cases (p y)) [
    | inl kept ↦ kept_case kept (mem-filter_inv xs) (rw kept at m)
    | inr dropped ↦ let (later, h) = mem-filter_inv xs (rw dropped at m) in (Memᴰ.tail later, h)
  ]
    where
      kept_case :
          p y ≡ true
          → (Memᴰ x (filter p xs) → Memᴰ x xs × (p x ≡ true))
          → Memᴰ x (y ∷ filter p xs)
          → Memᴰ x (y ∷ xs) × (p x ≡ true)
      kept_case kept rec (Memᴰ.head e) = (Memᴰ.head e, subst (λ z. p z ≡ true) (sym e) kept)
      kept_case kept rec (Memᴰ.tail later) = let (l, h) = rec later in (Memᴰ.tail l, h)

  module _ (f : A → A) where
    pub mem-update_where :
        {x : A} {xs : List A} → Memᴰ x xs → Memᴰ (if p x then f x else x) (update_where p f xs)
    mem-update_where (Memᴰ.head e) = Memᴰ.head (ap (λ z. if p z then f z else z) e)
    mem-update_where (Memᴰ.tail m) = Memᴰ.tail (mem-update_where m)

    pub mem-update_where_inv :
        {y : A} (xs : List A)
        → Memᴰ y (update_where p f xs)
        → (x : A) × Memᴰ x xs × (y ≡ (if p x then f x else x))
    mem-update_where_inv [] m = elim m [ ]
    mem-update_where_inv (x ∷ xs) (Memᴰ.head e) = (x, Memᴰ.head refl, e)
    mem-update_where_inv (x ∷ xs) (Memᴰ.tail m) =
        let (z, later, e) = mem-update_where_inv xs m in (z, Memᴰ.tail later, e)

module _ {ℓ} {A : Type ℓ} where
  pub all_mem : (p : A → Bool) {x : A} {xs : List A} → all p xs ≡ true → Memᴰ x xs → p x ≡ true
  all_mem p {x} h (Memᴰ.head {x = y} e) = rw e (ground arith)
  all_mem p h (Memᴰ.tail m) = all_mem p (ground arith) m

  -- No row is listed behind another that it conflicts with.
  abbrev pub HasNoConflicts : (A → A → Bool) → List A → Type 0
  HasNoConflicts conflict [] = Unit
  HasNoConflicts conflict (x ∷ xs) =
      (all (λ y. not (conflict x y)) xs ≡ true) × HasNoConflicts conflict xs

  all-filter : (q p : A → Bool) (xs : List A) → all q xs ≡ true → all q (filter p xs) ≡ true
  all-filter q p [] h = refl
  all-filter q p (x ∷ xs) h = ground (arith, all-filter q p xs)

  module _ (conflict : A → A → Bool) where
    pub HasNoConflicts-filter :
        (p : A → Bool) (xs : List A)
        → HasNoConflicts conflict xs
        → HasNoConflicts conflict (filter p xs)
    HasNoConflicts-filter p [] h = tt
    HasNoConflicts-filter p (x ∷ xs) h = elim (Bool-cases (p x)) [
      | inl kept ↦
          rw kept (all-filter (λ y. not (conflict x y)) p xs h.0, HasNoConflicts-filter p xs h.1)
      | inr dropped ↦ rw dropped (HasNoConflicts-filter p xs h.1)
    ]

    all-append_one :
        (q : A → Bool) (xs : List A) (y : A)
        → all q xs ≡ true
        → q y ≡ true
        → all q (xs ++ y ∷ []) ≡ true
    all-append_one q [] y h k = ground arith
    all-append_one q (x ∷ xs) y h k = ground (arith, all-append_one q xs y)

    pub HasNoConflicts-append_one :
        (xs : List A) (y : A)
        → HasNoConflicts conflict xs
        → all (λ x. not (conflict x y)) xs ≡ true
        → HasNoConflicts conflict (xs ++ y ∷ [])
    HasNoConflicts-append_one [] y h k = (refl, tt)
    HasNoConflicts-append_one (x ∷ xs) y h k = (
      all-append_one (λ z. not (conflict x z)) xs y h.0 (ground arith),
      HasNoConflicts-append_one xs y h.1 (ground arith),
    )

module _ {ℓ} {A : Type ℓ} (p : A → Bool) where
  pub all_of_mem : (xs : List A) → ((x : A) → Memᴰ x xs → p x ≡ true) → all p xs ≡ true
  all_of_mem [] h = refl
  all_of_mem (x ∷ xs) h =
      let here = h x (Memᴰ.head refl) in
      let later = all_of_mem xs (λ y m. h y (Memᴰ.tail m)) in ground arith

  -- If none of the rows passes the test, a new row that passes it is all that a filter keeps, and
  -- all that the opposite filter drops.
  pub filter-append_one :
      (xs : List A) (y : A)
      → all (λ x. not (p x)) xs ≡ true
      → p y ≡ true
      → filter p (xs ++ y ∷ []) ≡ y ∷ []
  filter-append_one [] y h k = ground arith
  filter-append_one (x ∷ xs) y h k = ground (arith, filter-append_one xs y)

  pub filter-append_one_inv :
      (xs : List A) (y : A)
      → all (λ x. not (p x)) xs ≡ true
      → p y ≡ true
      → filter (λ x. not (p x)) (xs ++ y ∷ []) ≡ xs
  filter-append_one_inv [] y h k = ground arith
  filter-append_one_inv (x ∷ xs) y h k = ground (arith, filter-append_one_inv xs y)

pub mem-map_inv {ℓ κ} :
    {A : Type ℓ} {B : Type κ} (f : A → B) {y : B} (xs : List A)
    → Memᴰ y (map f xs)
    → (x : A) × Memᴰ x xs × (y ≡ f x)
mem-map_inv f [] m = elim m [ ]
mem-map_inv f (x ∷ xs) (Memᴰ.head e) = (x, Memᴰ.head refl, e)
mem-map_inv f (x ∷ xs) (Memᴰ.tail m) =
    let (z, later, e) = mem-map_inv f xs m in (z, Memᴰ.tail later, e)
