-- ===== src/Handler/Api/Rules.antt =====
-- internal/handler/rate_limit_rule_handler.go
use adaptive_api_routing_gat.Base.{Text, [], ok, err}
use adaptive_api_routing_gat.Base.Int.{ℤ}
use adaptive_api_routing_gat.Base.Time.{Time}
use adaptive_api_routing_gat.Model.Rules.{RateLimitRule}
use adaptive_api_routing_gat.Gateway.Admin.Rules
use adaptive_api_routing_gat.Handler.Replies.{write_service_error}
use adaptive_api_routing_gat.Handler.Api.{
  rule_item, one, plain, Decoded, Query, ApiHandler, ok_answer, created, no_content, page_params,
  list_answer, respond, decoding,
}

pub record RateLimitRuleRequest : Type 0 where
  pub name : Text
  pub limit : ℤ
  pub window : ℤ

abbrev pub requested : RateLimitRuleRequest → RateLimitRule
requested req = record {
  id = [];
  name = req.name;
  limit = req.limit;
  window = req.window;
  created_at = 0;
  updated_at = 0;
}

module _ {R : Type 0} where
  unfoldable pub create_rate_limit_rule :
      Decoded RateLimitRuleRequest → (id : Text) → Time → ApiHandler R
  unfolding decoding respond
  create_rate_limit_rule body id now = decoding body λ req.
      respond (λ v. created (one (rule_item v)))
        (Rules.create_rate_limit_rule id now (requested req))

  unfoldable pub list_rate_limit_rules : Query → (max_size : ℤ) → ApiHandler R
  unfolding page_params list_answer
  list_rate_limit_rules q max_size g =
      let params = page_params q max_size in
      (
        g,
        list_answer rule_item params
            (Rules.list_rate_limit_rules params.page_number params.page_size g.store),
      )

  unfoldable pub get_rate_limit_rule : (id : Text) → ApiHandler R
  unfolding respond
  get_rate_limit_rule id =
      respond (λ v. ok_answer (one (rule_item v))) (Rules.get_rate_limit_rule id)

  -- The operation also empties the buckets, which are not in the store.
  unfoldable pub update_rate_limit_rule :
      Decoded RateLimitRuleRequest → (id : Text) → Time → ApiHandler R
  unfolding decoding
  update_rate_limit_rule body id now = decoding body λ req g.
      let (g', result) = Rules.update_rate_limit_rule id now (requested req) g in
      (
        g',
        elim result [
          | ok v ↦ ok_answer (one (rule_item v))
          | err e ↦ plain (write_service_error e)
        ],
      )

  unfoldable pub delete_rate_limit_rule : (id : Text) → ApiHandler R
  unfolding respond
  delete_rate_limit_rule id = respond (λ _. no_content) (Rules.delete_rate_limit_rule id)
