-- ===== src/Pagination/Laws.antt =====
-- app/models/generic_pagination.py: the pages of a query are the query, cut without loss.
use userverse.Base.{
  ℕ, zero, suc, ◌+◌, ◌-◌, ◌*◌, ◌≤◌, ◌<◌, ◌≡◌, sym, ◌∙◌, ◌↔◌, true, List, [], ◌++◌, arith, length,
  take, drop, take-add, take_all, length-take, length-drop,
}
use native.Mathlib.Nat.{zero-mul}
use userverse.Pagination.{
  PaginationParams, is_valid_params, get_total_pages, apply_pagination, paginate,
}

-- The first `n` pages, one after another.
pub pages_upto {ℓ} : {A : Type ℓ} → List A → ℕ → ℕ → List A
pages_upto rows limit zero = []
pages_upto rows limit (suc n) = pages_upto rows limit n ++ apply_pagination rows (suc n) limit

pages_upto_lem {ℓ} :
    {A : Type ℓ} (rows : List A) (limit n : ℕ) → pages_upto rows limit n ≡ take (n * limit) rows
unfolding pages_upto apply_pagination
pages_upto_lem rows limit zero = rw zero-mul
pages_upto_lem rows limit (suc n) =
    let next : suc n * limit ≡ n * limit + limit = grind arith in
    let before : suc n - 1 ≡ n = omega arith in
    rw (pages_upto_lem rows limit n, next, before) (sym (take-add (n * limit) limit rows))

total_pages_covers : (total limit : ℕ) → 1 ≤ limit → total ≤ get_total_pages total limit * limit
unfolding get_total_pages
total_pages_covers total limit h = grind arith

-- `get_total_pages` is the least number of pages of `limit` rows that hold all the rows.
total_pages_least :
    (total limit n : ℕ) → 1 ≤ limit → (get_total_pages total limit ≤ n) ↔ (total ≤ n * limit)
unfolding get_total_pages
total_pages_least total limit n h = (λ k. grind arith, λ k. grind arith)

-- For a limit of at least 1, the pages 1 to `get_total_pages`, one after another, are the rows of
-- the query: no row is lost, repeated or moved.
pub pages_upto-total_pages {ℓ} :
    {A : Type ℓ} (rows : List A) (limit : ℕ)
    → 1 ≤ limit
    → pages_upto rows limit (get_total_pages (length rows) limit) ≡ rows
pages_upto-total_pages rows limit h =
    pages_upto_lem rows limit (get_total_pages (length rows) limit)
    ∙ take_all _ rows (total_pages_covers (length rows) limit h)

-- For valid parameters `paginate` returns at most `limit` records, and it returns none exactly if
-- the page lies beyond the `total_pages` that it reports.
pub paginate_bounds {ℓ} :
    {A : Type ℓ} (query : List A) (params : PaginationParams)
    → is_valid_params params ≡ true
    → let r = paginate query params in
      (length r.records ≤ params.limit)
      × ((length r.records ≡ 0) ↔ (r.pagination.total_pages < params.page))
unfolding paginate is_valid_params
paginate_bounds query params h =
    let some_rows : 1 ≤ params.limit = ground arith in
    let some_page : 1 ≤ params.page = ground arith in
    let size = length-take params.limit (drop ((params.page - 1) * params.limit) query) in
    let left = length-drop ((params.page - 1) * params.limit) query in
    let least = total_pages_least (length query) params.limit (params.page - 1) some_rows in
    (
      omega (arith, size),
      (
        λ e.
            let none_left : length query ≤ (params.page - 1) * params.limit =
              omega (arith, size, left) in
            omega (arith, least.1 none_left),
        λ l. omega (arith, size, left, least.0 (omega arith)),
      ),
    )
