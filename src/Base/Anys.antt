-- ===== src/Base/Anys.antt =====
-- `any` on the lists that queries give: sorted, mapped, appended and joined.
use mathlib.Core.Path.{◌≡◌, refl, ap, ◌∙◌}
use mathlib.Core.Bool.{Bool, ◌||◌, ◌&&◌}
use mathlib.Core.List.{List, [], ◌∷◌, ◌++◌, map}
use native.Mathlib.Omega.{arith}
use userverse.Base.Lists.{any, insert_sorted, sort_onto, sort_by, join, join_row}

module _ {ℓ} {A : Type ℓ} (p : A → Bool) where
  pub any-append : (xs ys : List A) → any p (xs ++ ys) ≡ (any p xs || any p ys)
  any-append [] ys = refl
  any-append (x ∷ xs) ys = ground (arith, any-append xs ys)

  any-insert_sorted :
      (le : A → A → Bool) (x : A) (xs : List A) → any p (insert_sorted le x xs) ≡ (p x || any p xs)
  any-insert_sorted le x [] = refl
  any-insert_sorted le x (y ∷ ys) = ground (arith, any-insert_sorted le x ys)

  any-sort_onto :
      (le : A → A → Bool) (sorted xs : List A)
      → any p (sort_onto le sorted xs) ≡ (any p sorted || any p xs)
  any-sort_onto le sorted [] = ground arith
  any-sort_onto le sorted (x ∷ xs) =
      let later = any-sort_onto le (insert_sorted le x sorted) xs in
      ground (arith, later, any-insert_sorted le x sorted)

  -- Sorting neither adds nor drops a value that passes a test.
  pub any-sort_by : (le : A → A → Bool) (xs : List A) → any p (sort_by le xs) ≡ any p xs
  any-sort_by le xs = any-sort_onto le [] xs

  pub any-map {κ} :
      {B : Type κ} (f : B → A) (xs : List B) → any p (map f xs) ≡ any (λ x. p (f x)) xs
  any-map f [] = refl
  any-map f (x ∷ xs) = ap (λ b. p (f x) || b) (any-map f xs)

module _ {ℓ κ} {A : Type ℓ} {B : Type κ} (on : A → B → Bool) (p : A × B → Bool) where
  any-join_row :
      (a : A) (bs : List B) → any p (join_row (on a) a bs) ≡ any (λ b. on a b && p (a, b)) bs
  any-join_row a [] = refl
  any-join_row a (b ∷ bs) = ground (arith, any-join_row a bs)

  -- A row of a join that passes a test is made of two rows that fit together and pass it.
  pub any-join :
      (as' : List A) (bs : List B)
      → any p (join on as' bs) ≡ any (λ a. any (λ b. on a b && p (a, b)) bs) as'
  any-join [] bs = refl
  any-join (a ∷ as') bs =
      any-append p (join_row (on a) a bs) (join on as' bs)
      ∙ (ground (arith, any-join_row a bs, any-join as' bs))

-- Tests that agree find the same.
pub any-same {ℓ} :
    {A : Type ℓ} {p q : A → Bool} (xs : List A) → ((x : A) → p x ≡ q x) → any p xs ≡ any q xs
any-same [] same = refl
any-same (x ∷ xs) same = rw (same x, any-same xs same) refl
