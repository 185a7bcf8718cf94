-- ===== src/Gateway/Paging.antt =====
-- `paginate` of internal/service/service.go and `ParsePagination` of pkg/httpx/httpx.go, with the
-- wrap-around of Go's `int` and the panic of a slice expression that is out of range.
pub mod Pages
pub mod Sizes
use adaptive_api_routing_gat.Base.{ℕ, ◌-◌, Bool, ◌||◌, List, [], length, take, drop, if◌then◌else◌}
use adaptive_api_routing_gat.Base.Int.{ℤ, pos, pos_part, ◌+ℤ◌, ◌-ℤ◌, ◌*ℤ◌, ltb_ℤ, leb_ℤ, wrap}

-- The items and the total, or the panic.
pub data Page (A : Type 0) : Type 0 where
  page : List A → ℕ → Page A
  panic : Page A

-- `page < 1`, `size < 1`
abbrev pub page_or_first : ℤ → ℤ
page_or_first p = if ltb_ℤ p (pos 1) then pos 1 else p

abbrev pub size_or_default : ℤ → ℤ → ℤ
size_or_default default_size s = if ltb_ℤ s (pos 1) then default_size else s

-- `(page - 1) * size`
unfoldable pub start_of : ℤ → ℤ → ℤ
start_of p size = wrap (wrap (page_or_first p -ℤ pos 1) *ℤ size)

-- `start + size`, and the total if that is less.
unfoldable pub end_of : ℤ → ℤ → ℤ → ℤ
end_of total start size = let end = wrap (start +ℤ size) in if ltb_ℤ total end then total else end

module _ {A : Type 0} where
  -- `list[start:end]`, where `end` is at most the length.
  unfoldable pub slice : List A → ℤ → ℤ → Page A
  slice list start end =
      if ltb_ℤ start (pos 0) || ltb_ℤ end start
      then panic
      else page (take (pos_part end - pos_part start) (drop (pos_part start) list)) (length list)

  unfoldable pub from_start : List A → ℤ → ℤ → Page A
  from_start list size start =
      let total = pos (length list) in
      if leb_ℤ total start
      then page [] (length list)
      else slice list start (end_of total start size)

  unfoldable pub paginate : List A → ℤ → ℤ → Page A
  paginate list p s =
      let size = size_or_default (pos 20) s in from_start list size (start_of p size)

-- `PageParams`
pub record PageParams : Type 0 where
  pub page_number : ℤ
  pub page_size : ℤ

-- `page` and `size` are what `strconv.Atoi` makes of the query: on a number that is too large the
-- nearest `int`, on other bad text 0.
unfoldable pub parse_pagination : (p s : ℤ) → (default_size max_size : ℤ) → PageParams
parse_pagination p s default_size max_size =
    let size = size_or_default default_size s in
    record {
      page_number = page_or_first p;
      page_size = if ltb_ℤ max_size size then max_size else size;
    }
