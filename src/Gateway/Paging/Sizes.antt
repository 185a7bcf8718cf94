-- ===== src/Gateway/Paging/Sizes.antt =====
-- How many items a page holds at most.
use adaptive_api_routing_gat.Base.{ℕ, ◌+◌, ◌-◌, ◌≤◌, ◌≡◌, List, length, length-take, drop, arith}
use adaptive_api_routing_gat.Base.Int.{ℤ, pos, pos_part, neg_part, wrap, ◌+ℤ◌, ◌≤ℤ◌}
use adaptive_api_routing_gat.Gateway.Paging.{
  Page, page, panic, parse_pagination, paginate, from_start, slice, start_of, end_of,
  size_or_default,
}

-- The items of a page; a panic has none.
abbrev pub count : {A : Type 0} → Page A → ℕ
count (page items total) = length items
count panic = 0

wrap-le : (z : ℤ) → neg_part z ≡ 0 → pos_part (wrap z) ≤ pos_part z
unfolding wrap
wrap-le (pos n) h = ground arith
wrap-le (ℤ.negsuc n) h = absurd (ground arith)

end_of-le :
    (total : ℤ) (start size : ℕ) → pos_part (end_of total (pos start) (pos size)) ≤ start + size
unfolding end_of ◌+ℤ◌
end_of-le total start size =
    let sum = wrap-le (pos start +ℤ pos size) (ground arith) in ground arith

module _ {A : Type 0} (list : List A) where
  slice-count : (start end : ℤ) → count (slice list start end) ≤ pos_part end - pos_part start
  unfolding slice
  slice-count start end =
      ground (arith, length-take (pos_part end - pos_part start) (drop (pos_part start) list))

  slice-negative : (n : ℕ) (end : ℤ) → count (slice list (ℤ.negsuc n) end) ≡ 0
  unfolding slice
  slice-negative n end = ground arith

  from_start-count : (start : ℤ) (size : ℕ) → count (from_start list (pos size) start) ≤ size
  unfolding from_start
  from_start-count (ℤ.pos start) size =
      let end = end_of (pos (length list)) (pos start) (pos size) in
      ground (arith, slice-count (pos start) end, end_of-le (pos (length list)) start size)
  from_start-count (ℤ.negsuc n) size =
      let end = end_of (pos (length list)) (ℤ.negsuc n) (pos size) in
      ground (arith, slice-negative n end)

  paginate-count : (p : ℤ) (size : ℕ) → 1 ≤ size → count (paginate list p (pos size)) ≤ size
  unfolding paginate
  paginate-count p size one =
      let given : size_or_default (pos 20) (pos size) ≡ pos size = ground arith in
      rw given (from_start-count (start_of p (pos size)) size)

  paginate-count_pos : (p size : ℤ) → pos 1 ≤ℤ size → pos (count (paginate list p size)) ≤ℤ size
  paginate-count_pos p (ℤ.pos size) one = omega (arith, paginate-count p size (omega arith))
  paginate-count_pos p (ℤ.negsuc n) one = absurd (omega arith)

  -- No page is longer than the largest size that is allowed.
  pub paginate-count_le :
      (p s max_size : ℤ)
      → pos 1 ≤ℤ max_size
      → pos (
          count (
            paginate list
              (parse_pagination p s (pos 20) max_size).page_number
              (parse_pagination p s (pos 20) max_size).page_size))
        ≤ℤ max_size
  unfolding parse_pagination
  paginate-count_le p s max_size one =
      let params = parse_pagination p s (pos 20) max_size in
      let positive : pos 1 ≤ℤ params.page_size = ground arith in
      let bounded : params.page_size ≤ℤ max_size = ground arith in
      omega (arith, paginate-count_pos params.page_number params.page_size positive)
