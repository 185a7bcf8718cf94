-- ===== src/Handler/Proxy/ClientIp.antt =====
-- `clientIP` of internal/handler/gateway_handler.go.
use adaptive_api_routing_gat.Base.{
  ℕ, Option, none, some, [], ◌∷◌, Text, is_empty, trim_space, ◌==◌, if◌then◌else◌,
}

-- `strings.Split(s, sep)[0]`, for a separator of one character.
unfoldable pub first_part : ℕ → Text → Text
first_part sep [] = []
first_part sep (c ∷ s) = let rest = first_part sep s in if c == sep then [] else c ∷ rest

-- `s[:strings.LastIndex(s, sep)]`, if the separator occurs.
unfoldable pub before_last : ℕ → Text → Option Text
before_last sep [] = none
before_last sep (c ∷ s) = elim (before_last sep s) [
  | some rest ↦ some (c ∷ rest)
  | none ↦ if c == sep then some [] else none
]

unfoldable pub client_ip : (forwarded_for remote_addr : Text) → Text
unfolding first_part before_last
client_ip forwarded_for remote_addr =
    if is_empty forwarded_for
    then (elim (before_last b':' remote_addr) [ some host ↦ host | none ↦ remote_addr ])
    else trim_space (first_part b',' forwarded_for)
