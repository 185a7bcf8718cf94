-- ===== src/Handler/Middleware.antt =====
-- internal/middleware: the checks in front of a handler. The state and the answer of the handler
-- are what `next` makes of them; `of_reply` is the answer that writes a reply.
pub mod Passes
use adaptive_api_routing_gat.Base.{
  ℕ, Bool, true, false, not, ◌||◌, Text, codes, same, is_empty, if◌then◌else◌,
}
use adaptive_api_routing_gat.Base.Time.{Time}
use adaptive_api_routing_gat.Base.Float.{Float}
use adaptive_api_routing_gat.RateLimit
use adaptive_api_routing_gat.RateLimit.{TokenBucket}
use adaptive_api_routing_gat.Handler.Replies.{Reply, error_reply, unauthorized}

abbrev pub HttpHandler : (S A : Type 0) → Type 0
HttpHandler S A = S → S × A

-- `token` is the header `X-Admin-Token`, the empty text if there is none.
unfoldable pub admin_auth :
    {S A : Type 0}
    → (of_reply : Reply → A) → (admin_token token : Text) → HttpHandler S A
    → HttpHandler S A
admin_auth of_reply admin_token token next s =
    if is_empty admin_token || not (same token admin_token)
    then (s, of_reply (unauthorized (codes "无效的管理员令牌")))
    else next s

-- The bucket is part of the state.
unfoldable pub rate_limit :
    {R : Type 0} ⦃f : Float R⦄ {S A : Type 0}
    → (of_reply : Reply → A) → Time
    → HttpHandler S A
    → HttpHandler (TokenBucket R × S) A
rate_limit of_reply now next (b, s) =
    let (b', granted) = RateLimit.allow now b in
    elim granted [
      | false ↦ ((b', s), of_reply (error_reply 429 429 (codes "请求过于频繁，请稍后重试")))
      | true ↦ let (s', answer) = next s in ((b', s'), answer)
    ]
