-- ===== src/Tests/Configs.antt =====
-- The configuration that is loaded from an environment.
use adaptive_api_routing_gat.Base.{Text, codes, same, some, if◌then◌else◌, [], ◌≡◌, refl}
use adaptive_api_routing_gat.Base.Int.{pos, negsuc}
use adaptive_api_routing_gat.Config.{load, env_or, env_int_or}

-- The page size is set to a number that is not positive.
abbrev environment : Text → Text
environment key = if same key (codes "MAX_PAGE_SIZE") then codes "-1" else []

page_size_ignored : (load environment (λ _. some (negsuc 0))).max_page_size ≡ pos 100
unfolding load same env_or env_int_or
page_size_ignored = refl
