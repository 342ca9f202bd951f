-- ===== src/Base/Lists.antt =====
-- Lists as the program uses them: measured by native numbers, filtered and searched by tests.
use Prim.Native.Nat.{ℕ, zero, suc, ◌+◌, ◌-◌, ◌≤◌, min}
use mathlib.Core.Path.{◌≡◌, refl, sym, ap, subst}
use mathlib.Core.Logic.{inl, inr}
use mathlib.Core.Bool.{Bool, true, false, ◌||◌, ◌&&◌}
use mathlib.Core.List.{List, [], ◌∷◌, ◌++◌, map, Memᴰ}
use mathlib.Core.Option.{Option, none, some}
use native.Mathlib.Omega.{arith}
use native.Mathlib.Nat.{zero-add, add-zero, suc-add}
use userverse.Base.Tests.{if◌then◌else◌, Bool-cases}

module _ {ℓ} {A : Type ℓ} where
  abbrev pub length : List A → ℕ
  length [] = 0
  length (x ∷ xs) = suc (length xs)

  abbrev pub take : ℕ → List A → List A
  take zero xs = []
  take (suc n) [] = []
  take (suc n) (x ∷ xs) = x ∷ take n xs

  abbrev pub drop : ℕ → List A → List A
  drop zero xs = xs
  drop (suc n) [] = []
  drop (suc n) (x ∷ xs) = drop n xs

  abbrev pub any : (A → Bool) → List A → Bool
  any p [] = false
  any p (x ∷ xs) = p x || any p xs

  abbrev pub all : (A → Bool) → List A → Bool
  all p [] = true
  all p (x ∷ xs) = p x && all p xs

  -- `[x for x in xs if p(x)]`
  abbrev pub filter : (A → Bool) → List A → List A
  filter p [] = []
  filter p (x ∷ xs) = let rest = filter p xs in if p x then x ∷ rest else rest

  abbrev pub find? : (A → Bool) → List A → Option A
  find? p [] = none
  find? p (x ∷ xs) = let rest = find? p xs in if p x then some x else rest

  -- Every row that passes the test is replaced.
  abbrev pub update_where : (A → Bool) → (A → A) → List A → List A
  update_where p f = map (λ x. if p x then f x else x)

  -- The rows of a join of two tables.
  abbrev pub join_row {κ} : {B : Type κ} → (B → Bool) → A → List B → List (A × B)
  join_row p a [] = []
  join_row p a (b ∷ bs) = let rest = join_row p a bs in if p b then (a, b) ∷ rest else rest

  abbrev pub join {κ} : {B : Type κ} → (A → B → Bool) → List A → List B → List (A × B)
  join p [] bs = []
  join p (a ∷ as') bs = join_row (p a) a bs ++ join p as' bs

  -- `sorted` by an order: the new value goes behind those that are not above it.
  abbrev pub insert_sorted : (A → A → Bool) → A → List A → List A
  insert_sorted le x [] = x ∷ []
  insert_sorted le x (y ∷ ys) =
      let later = insert_sorted le x ys in if le y x then y ∷ later else x ∷ y ∷ ys

  abbrev pub sort_onto : (A → A → Bool) → List A → List A → List A
  sort_onto le sorted [] = sorted
  sort_onto le sorted (x ∷ xs) = sort_onto le (insert_sorted le x sorted) xs

  abbrev pub sort_by : (A → A → Bool) → List A → List A
  sort_by le xs = sort_onto le [] xs

  pub length-append : (xs ys : List A) → length (xs ++ ys) ≡ length xs + length ys
  length-append [] ys = omega arith
  length-append (x ∷ xs) ys = omega (arith, length-append xs ys)

  pub length-take : (n : ℕ) (xs : List A) → length (take n xs) ≡ min n (length xs)
  length-take zero xs = omega arith
  length-take (suc n) [] = omega arith
  length-take (suc n) (x ∷ xs) = omega (arith, length-take n xs)

  pub length-drop : (n : ℕ) (xs : List A) → length (drop n xs) ≡ length xs - n
  length-drop zero xs = omega arith
  length-drop (suc n) [] = omega arith
  length-drop (suc n) (x ∷ xs) = omega (arith, length-drop n xs)

  pub take-append-drop : (n : ℕ) (xs : List A) → take n xs ++ drop n xs ≡ xs
  take-append-drop zero xs = refl
  take-append-drop (suc n) [] = refl
  take-append-drop (suc n) (x ∷ xs) = rw (take-append-drop n xs)

module _ {ℓ} {A : Type ℓ} (p : A → Bool) where
  -- `any` finds a listed value that passes the test.
  pub any_sound : (xs : List A) → any p xs ≡ true → (x : A) × Memᴰ x xs × (p x ≡ true)
  any_sound [] h = absurd (cc h)
  any_sound (x ∷ xs) h = elim (Bool-cases (p x)) [
    | inl here ↦ (x, Memᴰ.head refl, here)
    | inr not_here ↦ let (y, m, e) = any_sound xs (rw not_here at h) in (y, Memᴰ.tail m, e)
  ]

  pub any_complete : {x : A} {xs : List A} → Memᴰ x xs → p x ≡ true → any p xs ≡ true
  any_complete (Memᴰ.head {xs} e) h = subst (λ y. (p y || any p xs) ≡ true) e (rw h refl)
  any_complete (Memᴰ.tail m) h = ground (arith, any_complete m h)

module _ {ℓ} {A : Type ℓ} where
  pub take-add : (m n : ℕ) (xs : List A) → take (m + n) xs ≡ take m xs ++ take n (drop m xs)
  take-add zero n xs = rw zero-add
  take-add (suc m) zero [] = simp add-zero
  take-add (suc m) (suc n) [] = rw suc-add
  take-add (suc m) n (x ∷ xs) = rw suc-add (ap (λ t. x ∷ t) (take-add m n xs))

  pub take_all : (n : ℕ) (xs : List A) → length xs ≤ n → take n xs ≡ xs
  take_all zero [] h = refl
  take_all zero (x ∷ xs) h = absurd (omega arith)
  take_all (suc n) [] h = refl
  take_all (suc n) (x ∷ xs) h = ap (λ t. x ∷ t) (take_all n xs (omega arith))

module _ {ℓ} {A : Type ℓ} (p : A → Bool) where
  pub find?_sound : {x : A} (xs : List A) → find? p xs ≡ some x → Memᴰ x xs × (p x ≡ true)
  find?_sound [] e = absurd (cc e)
  find?_sound {x} (y ∷ xs) e = elim (Bool-cases (p y)) [
    | inl here ↦
        let same : some y ≡ some x = rw here at e in
        (Memᴰ.head (cc same), subst (λ z. p z ≡ true) (cc same) here)
    | inr not_here ↦
        let (listed, passes) = find?_sound xs (rw not_here at e) in (Memᴰ.tail listed, passes)
  ]

  pub find?-none : {x : A} (xs : List A) → find? p xs ≡ none → Memᴰ x xs → p x ≡ false
  find?-none [] e m = elim m [ ]
  find?-none {x} (y ∷ xs) e m = elim (Bool-cases (p y)) [
    | inl here ↦ absurd (let found : some y ≡ none = rw here at e in cc found)
    | inr not_here ↦ absent (find?-none xs (rw not_here at e)) m not_here
  ]
    where
      absent : (Memᴰ x xs → p x ≡ false) → Memᴰ x (y ∷ xs) → p y ≡ false → p x ≡ false
      absent later (Memᴰ.head same) not_here = subst (λ z. p z ≡ false) (sym same) not_here
      absent later (Memᴰ.tail m) not_here = later m

  -- The first row that passes, in a table whose rows are changed, is the changed first row.
  pub find?-update_where :
      (q : A → Bool) (f : A → A) {x : A} (xs : List A)
      → ((y : A) → p (if q y then f y else y) ≡ p y)
      → ((y : A) → p y ≡ true → q y ≡ true)
      → find? p xs ≡ some x
      → find? p (update_where q f xs) ≡ some (f x)
  find?-update_where q f [] same all_changed e = absurd (cc e)
  find?-update_where q f {x} (y ∷ xs) same all_changed e = elim (Bool-cases (p y)) [
    | inl here ↦
        let its : some y ≡ some x = rw here at e in
        let still : p (f y) ≡ true = ground (arith, same y, all_changed y) in
        rw (all_changed y here, still) (cc its)
    | inr not_here ↦
        let later : find? p xs ≡ some x = rw not_here at e in
        rw (same y, not_here) (find?-update_where q f xs same all_changed later)
  ]
