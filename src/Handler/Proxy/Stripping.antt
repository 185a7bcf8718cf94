-- ===== src/Handler/Proxy/Stripping.antt =====
-- What becomes of the prefix of a route.
use adaptive_api_routing_gat.Base.{
  ◌++◌, ◌≡◌, refl, true, [], ◌∷◌, Text, codes, has_prefix, trim_prefix-append, has_prefix-append,
}
use adaptive_api_routing_gat.Model.Routes.{Route}
use adaptive_api_routing_gat.Handler.Proxy.Paths.{single_joining_slash, or_root, upstream_path}

-- For a service whose base URL has no path, a route that strips its prefix, which starts with a
-- slash, forwards what the request's path has behind the prefix, and a slash if that is nothing.
pub upstream_path-stripped :
    (route : Route) (prefix rest : Text)
    → route.path ≡ b'/' ∷ prefix
    → route.strip_prefix ≡ true
    → upstream_path route [] (route.path ++ rest) ≡ or_root rest
unfolding single_joining_slash upstream_path
upstream_path-stripped route prefix rest slash strips =
    let starts : has_prefix (route.path ++ rest) (codes "/") ≡ true =
      rw slash (unfold has_prefix in refl) in
    let joined : single_joining_slash [] (route.path ++ rest) ≡ route.path ++ rest =
      rw (starts, single_joining_slash) (unfold has_prefix in refl) in
    rw (
      joined,
      strips,
      has_prefix-append route.path rest,
      trim_prefix-append route.path rest,
      upstream_path,
    )
