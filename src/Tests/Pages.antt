-- ===== src/Tests/Pages.antt =====
-- Pages of a list.
use adaptive_api_routing_gat.Base.{ℕ, ◌≡◌, [], ◌∷◌, arith}
use adaptive_api_routing_gat.Base.Int.{pos}
use adaptive_api_routing_gat.Gateway.Paging.{page, panic, paginate}
use adaptive_api_routing_gat.Gateway.Paging.Pages.{paginate-page, paginate-overflow}

paginate-page_example :
    paginate {A = ℕ} (10 ∷ 11 ∷ 12 ∷ 13 ∷ 14 ∷ []) (pos 3) (pos 2) ≡ page (14 ∷ []) 5
paginate-page_example = paginate-page (10 ∷ 11 ∷ 12 ∷ 13 ∷ 14 ∷ []) 2 2 (omega arith) (omega arith)

-- `?page=9223372036854775807&size=20` would start at -40.
paginate-overflow_example :
    paginate {A = ℕ} (10 ∷ []) (pos 9_223_372_036_854_775_807) (pos 20) ≡ panic
paginate-overflow_example =
    paginate-overflow (10 ∷ []) 9_223_372_036_854_775_806 20 (omega arith) (omega arith)
      (omega arith)
