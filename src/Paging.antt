-- ===== src/Paging.antt =====
-- src/utils.rs: pages of list endpoints. A `usize` is 64 bits wide. What the query string says of
-- `limit` and `offset` is an argument: the number, or none where it is missing or malformed.
pub mod Window
pub mod Walk
use janux.Common.{
  Bool, List, Option, drop, false, if◌then◌else◌, length, ltb, map, min, none, some, take, true, ℕ,
  ◌%◌, ◌+◌, ◌-◌, ◌^◌,
}

abbrev pub default_page_limit : ℕ
default_page_limit = 50

abbrev pub max_page_limit : ℕ
max_page_limit = 200

abbrev pub i64_max_usize : ℕ
i64_max_usize = 2 ^ 63 - 1

abbrev pub usize_max : ℕ
usize_max = 2 ^ 64 - 1

abbrev pub saturating_add : ℕ → ℕ → ℕ
saturating_add a b = min (a + b) usize_max

abbrev pub unwrap_or : ℕ → Option ℕ → ℕ
unwrap_or d none = d
unwrap_or d (some n) = n

abbrev pub clamp : ℕ → ℕ → ℕ → ℕ
clamp lo hi n = if ltb n lo then lo else if ltb hi n then hi else n

unfoldable pub page_params : Option ℕ → Option ℕ → ℕ × ℕ
page_params limit offset = (
  clamp 1 max_page_limit (unwrap_or default_page_limit limit),
  min (unwrap_or 0 offset) i64_max_usize,
)

unfoldable pub page_bounds : ℕ → ℕ → ℕ × ℕ
page_bounds limit offset = (min (saturating_add limit 1) i64_max_usize, min offset i64_max_usize)

pub record Page {ℓ} (A : Type ℓ) : Type ℓ where
  pub items : List A
  pub limit : ℕ
  pub offset : ℕ
  pub next_offset : Option ℕ

abbrev pub then_some : Bool → ℕ → Option ℕ
then_some true n = some n
then_some false n = none

-- `offset + limit` wraps beyond 64 bits.
unfoldable pub from_rows {ℓ} : {A : Type ℓ} → List A → ℕ → ℕ → Page A
from_rows rows limit offset =
    let has_more = ltb limit (length rows) in
    record {
      items = if has_more then take limit rows else rows;
      limit = limit;
      offset = offset;
      next_offset = then_some has_more ((offset + limit) % 2 ^ 64);
    }

unfoldable pub from_all {ℓ} : {A : Type ℓ} → List A → ℕ → ℕ → Page A
from_all rows limit offset =
    let end = saturating_add offset limit in
    record {
      items = take limit (drop offset rows);
      limit = limit;
      offset = offset;
      next_offset = then_some (ltb end (length rows)) end;
    }

unfoldable pub map_page {ℓ κ} : {A : Type ℓ} {B : Type κ} → (A → B) → Page A → Page B
map_page f p = record {
  items = map f p.items;
  limit = p.limit;
  offset = p.offset;
  next_offset = p.next_offset;
}

-- A query with the bounds of `page_bounds`: so many rows after so many.
abbrev pub fetch {ℓ} : {A : Type ℓ} → List A → ℕ × ℕ → List A
fetch rows (limit, offset) = take limit (drop offset rows)
