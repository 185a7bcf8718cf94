-- ===== src/Logger.antt =====
-- pkg/logger/logger.go: what the levels let through. The formatting of a message is the `log`
-- package's: a method gets the text that its arguments make. Its mutex makes each method one step.
pub mod Levels
use adaptive_api_routing_gat.Base.{Text, codes, same, List, [], ◌∷◌, ◌++◌, if◌then◌else◌}
use adaptive_api_routing_gat.Base.Int.{ℤ, pos, eq_ℤ, leb_ℤ}

-- `Level`, an `int` with four named values.
abbrev pub Level : Type 0
Level = ℤ

abbrev pub level_debug : Level
level_debug = pos 0

abbrev pub level_info : Level
level_info = pos 1

abbrev pub level_warn : Level
level_warn = pos 2

abbrev pub level_error : Level
level_error = pos 3

unfoldable pub parse_level : Text → Level
parse_level s =
    if same s (codes "debug")
    then level_debug
    else if same s (codes "warn")
    then level_warn
    else if same s (codes "error")
    then level_error
    else level_info

-- `Level.String`
unfoldable pub level_text : Level → Text
level_text l =
    if eq_ℤ l level_debug
    then codes "debug"
    else if eq_ℤ l level_warn
    then codes "warn"
    else if eq_ℤ l level_error
    then codes "error"
    else codes "info"

-- What was written to the standard error output: the prefix and the message of each line, in order.
pub record Logger : Type 0 where
  pub level : Level
  pub lines : List (Text × Text)

unfoldable pub new_level : Level → Logger
new_level level = record { level = level; lines = [] }

unfoldable pub new_logger : Logger
new_logger = record { level = level_info; lines = [] }

unfoldable pub set_level : Level → Logger → Logger
set_level level l = record l { level = level }

abbrev print : Text → Text → Logger → Logger
print prefix message l = record l { lines = l.lines ++ (prefix, message) ∷ [] }

unfoldable pub debugf : Text → Logger → Logger
debugf message l = if leb_ℤ l.level level_debug then print (codes "[DEBUG] ") message l else l

unfoldable pub infof : Text → Logger → Logger
infof message l = if leb_ℤ l.level level_info then print (codes "[INFO ] ") message l else l

unfoldable pub warnf : Text → Logger → Logger
warnf message l = if leb_ℤ l.level level_warn then print (codes "[WARN ] ") message l else l

unfoldable pub errorf : Text → Logger → Logger
errorf message l = if leb_ℤ l.level level_error then print (codes "[ERROR] ") message l else l

-- `Printf`
unfoldable pub printf : Text → Logger → Logger
unfolding infof
printf message l = infof message l
