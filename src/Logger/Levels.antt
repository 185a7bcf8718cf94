-- ===== src/Logger/Levels.antt =====
-- Which messages are written.
use mathlib.Core.List.{append_assoc, append-nil}
use adaptive_api_routing_gat.Base.{
  ◌≡◌, refl, sym, ap, ◌∙◌, Bool-cases, inl, inr, Text, codes, same, List, [], ◌∷◌, ◌++◌, map,
  select, if◌then◌else◌,
}
use adaptive_api_routing_gat.Base.Int.{leb_ℤ}
use adaptive_api_routing_gat.Logger.{
  Level, level_debug, level_info, level_warn, level_error, parse_level, level_text, Logger, debugf,
  infof, warnf, errorf, printf,
}

-- A call of one of the five methods.
pub data Call : Type 0 where
  to_debug to_info to_warn to_error to_print : Text → Call

-- What a call does.
unfoldable pub run_call : Call → Logger → Logger
run_call (to_debug t) l = debugf t l
run_call (to_info t) l = infof t l
run_call (to_warn t) l = warnf t l
run_call (to_error t) l = errorf t l
run_call (to_print t) l = printf t l

unfoldable pub run_calls : List Call → Logger → Logger
run_calls [] l = l
run_calls (c ∷ cs) l = run_calls cs (run_call c l)

-- How severe a call is, and the line that it writes where it is severe enough.
abbrev pub severity : Call → Level
severity (to_debug t) = level_debug
severity (to_info t) = level_info
severity (to_warn t) = level_warn
severity (to_error t) = level_error
severity (to_print t) = level_info

abbrev pub line : Call → Text × Text
line (to_debug t) = (codes "[DEBUG] ", t)
line (to_info t) = (codes "[INFO ] ", t)
line (to_warn t) = (codes "[WARN ] ", t)
line (to_error t) = (codes "[ERROR] ", t)
line (to_print t) = (codes "[INFO ] ", t)

abbrev written_by : Call → Logger → Logger
written_by c l =
    if leb_ℤ l.level (severity c) then record l { lines = l.lines ++ line c ∷ [] } else l

run_call_lem : (c : Call) (l : Logger) → run_call c l ≡ written_by c l
unfolding run_call debugf infof warnf errorf printf
run_call_lem (to_debug t) l = refl
run_call_lem (to_info t) l = refl
run_call_lem (to_warn t) l = refl
run_call_lem (to_error t) l = refl
run_call_lem (to_print t) l = refl

-- A sequence of calls writes the lines of those that are at least as severe as the level, in their
-- order, behind the lines that were there.
pub run_calls-lines :
    (cs : List Call) (l : Logger)
    → run_calls cs l
      ≡ record l { lines = l.lines ++ map line (select (λ c. leb_ℤ l.level (severity c)) cs) }
unfolding run_calls
run_calls-lines [] l = ap (λ ls. record l { lines = ls }) (sym (append-nil l.lines))
run_calls-lines (c ∷ cs) l = elim (Bool-cases (leb_ℤ l.level (severity c))) [
  | inl severe ↦
      let rest = map line (select (λ d. leb_ℤ l.level (severity d)) cs) in
      rw (run_call_lem c l, severe)
        (run_calls-lines cs (record l { lines = l.lines ++ line c ∷ [] })
          ∙ ap (λ ls. record l { lines = ls }) (append_assoc l.lines (line c ∷ []) rest))
  | inr quiet ↦ rw (run_call_lem c l, quiet) (run_calls-lines cs l)
]

-- Each of the four levels is read back from its text, and a text that names none is read as `info`.
pub parse_level-level_text :
    (parse_level (level_text level_debug) ≡ level_debug)
    × (parse_level (level_text level_info) ≡ level_info)
    × (parse_level (level_text level_warn) ≡ level_warn)
    × (parse_level (level_text level_error) ≡ level_error)
unfolding parse_level level_text same
parse_level-level_text = (refl, refl, refl, refl)
