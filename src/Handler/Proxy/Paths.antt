-- ===== src/Handler/Proxy/Paths.antt =====
-- The path that a request is forwarded to: the reverse proxy of `net/http/httputil` joins it to
-- the path of the base URL, and the director of `proxyRequest` strips the route's prefix from the
-- result. (Of URLs with no escaped path.)
use mathlib.Core.List.{reverse}
use adaptive_api_routing_gat.Base.{
  ◌++◌, Bool, ◌&&◌, ◌||◌, Text, codes, is_empty, has_prefix, trim_prefix, if◌then◌else◌,
}
use adaptive_api_routing_gat.Model.Routes.{Route}

-- `strings.HasSuffix(s, "/")`
abbrev ends_in_slash : Text → Bool
ends_in_slash s = has_prefix (reverse s) (codes "/")

-- `singleJoiningSlash` of the library.
unfoldable pub single_joining_slash : Text → Text → Text
single_joining_slash a b =
    if ends_in_slash a && has_prefix b (codes "/")
    then a ++ trim_prefix b (codes "/")
    else if ends_in_slash a || has_prefix b (codes "/")
    then a ++ b
    else a ++ (codes "/" ++ b)

abbrev pub or_root : Text → Text
or_root s = if is_empty s then codes "/" else s

unfoldable pub upstream_path : Route → (base_path path : Text) → Text
unfolding single_joining_slash
upstream_path route base_path path =
    let joined = single_joining_slash base_path path in
    if route.strip_prefix && has_prefix joined route.path
    then or_root (trim_prefix joined route.path)
    else joined
