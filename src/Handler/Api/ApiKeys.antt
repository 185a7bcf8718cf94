-- ===== src/Handler/Api/ApiKeys.antt =====
-- internal/handler/app_handler.go: the handlers of keys. `parse_time` is `time.Parse` with
-- `time.RFC3339`, nothing if it answers an error.
use adaptive_api_routing_gat.Base.{Text, codes, is_empty, Option, none, some, if◌then◌else◌}
use adaptive_api_routing_gat.Base.Int.{ℤ}
use adaptive_api_routing_gat.Base.Time.{Time}
use adaptive_api_routing_gat.Gateway.Admin.Apps
use adaptive_api_routing_gat.Handler.Replies.{bad_request}
use adaptive_api_routing_gat.Handler.Api.{
  key_item, one, plain, Decoded, Query, ApiHandler, ok_answer, created, no_content, page_params,
  list_answer, respond, decoding,
}

pub record ApiKeyRequest : Type 0 where
  pub app_id : Text
  pub secret : Text
  pub expires_at : Text

pub record ApiKeyStatusRequest : Type 0 where
  pub status : Text

-- The identifier, the hexadecimal text and the two times that a creation draws.
pub record KeyDraws : Type 0 where
  pub id : Text
  pub hex : Text
  pub created_at : Time
  pub validated_at : Time

-- An empty text stands for no expiry, the zero time.
unfoldable pub expiry : (parse_time : Text → Option Time) → Text → Option Time
expiry parse_time text = if is_empty text then some 0 else parse_time text

module _ {R : Type 0} where
  unfoldable pub create_api_key :
      (parse_time : Text → Option Time) → Decoded ApiKeyRequest → KeyDraws → ApiHandler R
  unfolding decoding respond expiry
  create_api_key parse_time body draws = decoding body λ req g.
      elim (expiry parse_time req.expires_at) [
        | none ↦ (g, plain (bad_request (codes "expires_at 格式应为 RFC3339")))
        | some expires ↦
            respond (λ k. created (one (key_item k)))
              (Apps.create_api_key draws.id draws.hex req.app_id req.secret expires draws.created_at
                draws.validated_at)
              g
      ]

  unfoldable pub list_api_keys : Query → (max_size : ℤ) → ApiHandler R
  unfolding page_params list_answer
  list_api_keys q max_size g =
      let params = page_params q max_size in
      (
        g,
        list_answer key_item params (
            Apps.list_api_keys (q.get (codes "app_id")) params.page_number params.page_size
              g.store),
      )

  unfoldable pub get_api_key : (id : Text) → ApiHandler R
  unfolding respond
  get_api_key id = respond (λ k. ok_answer (one (key_item k))) (Apps.get_api_key id)

  unfoldable pub update_api_key_status : Decoded ApiKeyStatusRequest → (id : Text) → ApiHandler R
  unfolding decoding respond
  update_api_key_status body id =
      decoding body λ req.
        respond (λ k. ok_answer (one (key_item k))) (Apps.update_api_key_status id req.status)

  unfoldable pub delete_api_key : (id : Text) → ApiHandler R
  unfolding respond
  delete_api_key id = respond (λ _. no_content) (Apps.delete_api_key id)
