-- ===== src/Config.antt =====
-- internal/config/config.go. `getenv` is `os.Getenv`, the empty text if a variable is not set, and
-- `atoi` is `strconv.Atoi`, nothing if it answers an error.
pub mod Usable
use adaptive_api_routing_gat.Base.{Text, codes, is_empty, ◌++◌, Option, none, some, if◌then◌else◌}
use adaptive_api_routing_gat.Base.Int.{ℤ, pos, leb_ℤ}

pub record Config : Type 0 where
  pub addr : Text
  pub max_page_size : ℤ
  pub admin_token : Text
  pub health_check_interval : ℤ

-- `getenv`, the function of the package.
unfoldable pub env_or : (getenv : Text → Text) → (key default_value : Text) → Text
env_or getenv key default_value = let v = getenv key in if is_empty v then default_value else v

unfoldable pub env_int_or :
    (getenv : Text → Text) (atoi : Text → Option ℤ) → (key : Text) → (default_value : ℤ) → ℤ
env_int_or getenv atoi key default_value =
    let v = getenv key in
    if is_empty v then default_value else elim (atoi v) [
      | none ↦ default_value
      | some n ↦ if leb_ℤ n (pos 0) then default_value else n
    ]

unfoldable pub load : (getenv : Text → Text) (atoi : Text → Option ℤ) → Config
unfolding env_or env_int_or
load getenv atoi =
    let v = getenv (codes "ADDR") in
    let addr = codes ":" ++ env_or getenv (codes "PORT") (codes "8080") in
    record {
      addr = if is_empty v then addr else v;
      max_page_size = env_int_or getenv atoi (codes "MAX_PAGE_SIZE") (pos 100);
      admin_token = env_or getenv (codes "ADMIN_TOKEN") (codes "admin-secret");
      health_check_interval = env_int_or getenv atoi (codes "HEALTH_CHECK_INTERVAL") (pos 30);
    }

-- `String`, where `print_int` is what `fmt` makes of an `int`. The token is not printed.
unfoldable pub config_text : (print_int : ℤ → Text) → Config → Text
config_text print_int c =
    codes "addr="
    ++ (c.addr
        ++ (codes " max_page_size="
            ++ (print_int c.max_page_size
                ++ (codes " health_check_interval=" ++ print_int c.health_check_interval))))
