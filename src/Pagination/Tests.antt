-- ===== src/Pagination/Tests.antt =====
-- app/models/generic_pagination.py on small queries.
use userverse.Base.{ℕ, ◌≡◌, refl, ◌≤◌, ◌<◌, ◌↔◌, List, [], ◌∷◌, arith, length}
use userverse.Pagination.{PaginationParams, get_total_pages, paginate, is_valid_params}
use userverse.Pagination.Laws.{pages_upto, pages_upto-total_pages, paginate_bounds}

abbrev rows : List ℕ
rows = 11 ∷ 12 ∷ 13 ∷ 14 ∷ 15 ∷ []

abbrev second : PaginationParams
second = record { limit = 2; page = 2 }

second_page : (paginate rows second).records ≡ 13 ∷ 14 ∷ []
unfolding paginate
second_page = refl

three_pages : (paginate rows second).pagination.total_pages ≡ 3
unfolding paginate
three_pages = refl

pages_upto-total_pages_example : pages_upto rows 2 (get_total_pages 5 2) ≡ rows
pages_upto-total_pages_example = pages_upto-total_pages rows 2 (omega arith)

paginate_bounds_example :
    (length (paginate rows second).records ≤ 2)
    × ((length (paginate rows second).records ≡ 0)
        ↔ ((paginate rows second).pagination.total_pages < 2))
unfolding is_valid_params
paginate_bounds_example = paginate_bounds rows second refl
