-- ===== src/Pagination.antt =====
-- app/models/generic_pagination.py, and the paging of app/repository/base.py. A query in its
-- order is a list of rows; `limit` and `page` passed `PaginationParams`, so both are at least 1.
pub mod Laws
mod Tests
use userverse.Base.{ℕ, ◌+◌, ◌-◌, ◌*◌, ◌/◌, Bool, ◌&&◌, List, leb, length, take, drop}

pub record PaginationParams : Type 0 where
  pub limit : ℕ
  pub page : ℕ

-- The bounds that the fields declare: `ge=1, le=100` and `ge=1`.
pub is_valid_params : PaginationParams → Bool
is_valid_params p = leb 1 p.limit && leb p.limit 100 && leb 1 p.page

pub record PaginationMeta : Type 0 where
  pub total_records : ℕ
  pub limit : ℕ
  pub current_page : ℕ
  pub total_pages : ℕ

get_page_offset : ℕ → ℕ → ℕ
get_page_offset page limit = (page - 1) * limit

pub get_total_pages : ℕ → ℕ → ℕ
get_total_pages total_records limit = (total_records + limit - 1) / limit

build_pagination_meta : ℕ → ℕ → ℕ → PaginationMeta
unfolding get_total_pages
build_pagination_meta total_records limit page = record {
  total_records = total_records;
  limit = limit;
  current_page = page;
  total_pages = get_total_pages total_records limit;
}

-- `.offset(…).limit(…)` on the rows of an ordered query.
pub apply_pagination {ℓ} : {A : Type ℓ} → List A → ℕ → ℕ → List A
unfolding get_page_offset
apply_pagination rows page limit = take limit (drop (get_page_offset page limit) rows)

pub record PaginatedResponse {ℓ} (A : Type ℓ) : Type ℓ where
  pub records : List A
  pub pagination : PaginationMeta

-- `BaseSQLRepository.paginate`
pub paginate {ℓ} : {A : Type ℓ} → List A → PaginationParams → PaginatedResponse A
unfolding apply_pagination build_pagination_meta
paginate query params = record {
  records = apply_pagination query params.page params.limit;
  pagination = build_pagination_meta (length query) params.limit params.page;
}
