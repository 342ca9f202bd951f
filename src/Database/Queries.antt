-- ===== src/Database/Queries.antt =====
-- What `one_or_none` finds.
use userverse.Base.{
  ◌≡◌, refl, ◌⊎◌, Bool, true, false, Option, none, some, inl, inr, List, [], ◌∷◌, Memᴰ, arith,
  filter, mem-filter, mem-filter_inv, Bool-cases, all, all_of_mem, not,
}
use userverse.Database.Actions.{
  Error, Session, Result, ok, err, at_most_one, one_or_none, select_one, or_raise, ◌>>=◌,
}
use userverse.Database.Tables.{Db}

pub at_most_one-some {ℓ} :
    {A : Type ℓ} {x : A} (found : List A)
    → ◌≡◌ {A = Result (Option A)} (at_most_one found) (ok (some x))
    → Memᴰ x found
unfolding at_most_one
at_most_one-some [] e = absurd (cc e)
at_most_one-some (y ∷ []) e = Memᴰ.head (cc e)
at_most_one-some (y ∷ z ∷ rest) e = absurd (cc e)

module _ {ℓ} {A : Type ℓ} (p : A → Bool) where
  -- A row that is found is in the table and passes the filter.
  pub one_or_none-some :
      {x : A} (rows : List A) → one_or_none p rows ≡ ok (some x) → Memᴰ x rows × (p x ≡ true)
  unfolding one_or_none
  one_or_none-some {x} rows e = mem-filter_inv p rows (at_most_one-some (filter p rows) e)

  -- If none is found, no row of the table passes the filter.
  pub one_or_none-none :
      {x : A} {rows : List A} → one_or_none p rows ≡ ok none → Memᴰ x rows → p x ≡ false
  unfolding one_or_none
  one_or_none-none {x} {rows} e m = elim (Bool-cases (p x)) [
    | inl h ↦ absurd (empty (filter p rows) e (mem-filter p m h))
    | inr h ↦ h
  ]
    where
      empty :
          (found : List A)
          → ◌≡◌ {A = Result (Option A)} (at_most_one found) (ok none)
          → Memᴰ x found
          → ⊥
      empty [] e m = elim m [ ]
      empty (y ∷ []) e m = cc e
      empty (y ∷ z ∷ rest) e m = cc e

  -- How a query ends that allows for one row: no row passes the filter, or one is found, or more
  -- rows than one pass.
  pub one_or_none-cases :
      (rows : List A)
      → ((e : Error) × (one_or_none p rows ≡ err e))
        ⊎ (((one_or_none p rows ≡ ok none) × (all (λ x. not (p x)) rows ≡ true))
            ⊎ ((x : A) × (one_or_none p rows ≡ ok (some x)) × Memᴰ x rows × (p x ≡ true)))
  one_or_none-cases rows = cases (one_or_none p rows) refl
    where
      cases :
          (r : Result (Option A))
          → one_or_none p rows ≡ r
          → ((e : Error) × (one_or_none p rows ≡ err e))
            ⊎ (((one_or_none p rows ≡ ok none) × (all (λ x. not (p x)) rows ≡ true))
                ⊎ ((x : A) × (one_or_none p rows ≡ ok (some x)) × Memᴰ x rows × (p x ≡ true)))
      cases (err e) h = inl (e, h)
      cases (ok none) h =
          inr (inl (h, all_of_mem (λ x. not (p x)) rows (λ x m. rw (one_or_none-none h m))))
      cases (ok (some x)) h =
          (let (listed, passes) = one_or_none-some rows h in inr (inr (x, h, listed, passes)))

module _ {ℓ} {A : Type ℓ} (table : Db → List A) (p : A → Bool) (e : Error) (s : Session) where
  found_cases :
      (r : Result (Option A))
      → one_or_none p (table s.live) ≡ r
      → ((e' : Error) × ((select_one table p >>= or_raise e) s ≡ (err e', s)))
        ⊎ ((x : A) × ((select_one table p >>= or_raise e) s ≡ (ok x, s))
            × Memᴰ x (table s.live)
            × (p x ≡ true))
  found_cases (err e') h = inl (e', ground arith)
  found_cases (ok none) h = inl (e, ground arith)
  found_cases (ok (some x)) h =
      let (listed, passes) = one_or_none-some p (table s.live) h in
      inr (x, ground arith, listed, passes)

  -- A lookup that raises where nothing is found leaves the session as it was, and what it returns
  -- is a row of the table that passes the filter.
  pub or_raise-cases :
      ((e' : Error) × ((select_one table p >>= or_raise e) s ≡ (err e', s)))
      ⊎ ((x : A) × ((select_one table p >>= or_raise e) s ≡ (ok x, s))
          × Memᴰ x (table s.live)
          × (p x ≡ true))
  or_raise-cases = found_cases (one_or_none p (table s.live)) refl
