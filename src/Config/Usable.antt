-- ===== src/Config/Usable.antt =====
-- What holds of every configuration that is loaded.
use adaptive_api_routing_gat.Base.{◌≡◌, refl, false, Text, codes, is_empty, Option, arith}
use adaptive_api_routing_gat.Base.Int.{ℤ, pos, ◌≤ℤ◌}
use adaptive_api_routing_gat.Config.{Config, env_or, env_int_or, load}

-- The server can be run with it: it has an address and an administrator's token, and its sizes
-- and intervals are positive.
pub record IsUsable (c : Config) : Type 0 where
  pub has_addr : is_empty c.addr ≡ false
  pub has_token : is_empty c.admin_token ≡ false
  pub page_size_positive : pos 1 ≤ℤ c.max_page_size
  pub interval_positive : pos 1 ≤ℤ c.health_check_interval

module _ (getenv : Text → Text) (atoi : Text → Option ℤ) where
  env_int_or-positive :
      (key : Text) (default_value : ℤ)
      → pos 1 ≤ℤ default_value
      → pos 1 ≤ℤ env_int_or getenv atoi key default_value
  unfolding env_int_or
  env_int_or-positive key default_value h = ground arith

  env_or-not_empty :
      (key default_value : Text)
      → is_empty default_value ≡ false
      → is_empty (env_or getenv key default_value) ≡ false
  unfolding env_or
  env_or-not_empty key default_value h = ground arith

  -- Whatever the environment holds, the configuration that is loaded has an address and an
  -- administrator's token, and its page size and its interval are at least 1.
  load-IsUsable : IsUsable (load getenv atoi)
  unfolding load
  load-IsUsable = record {
    has_addr = ground arith;
    has_token = env_or-not_empty (codes "ADMIN_TOKEN") (codes "admin-secret") refl;
    page_size_positive = env_int_or-positive (codes "MAX_PAGE_SIZE") (pos 100) (omega arith);
    interval_positive = env_int_or-positive (codes "HEALTH_CHECK_INTERVAL") (pos 30) (omega arith);
  }
