-- ===== src/Tests/Domain.antt =====
-- The usage, the policies and the helpers at concrete values.
use local_proxy.Base.{
  ◌≤◌, true, none, some, [], ◌∷◌, ◌≡◌, refl, codes, Text, text_eq, text_lt, arith, is_whitespace,
  strip_prefix, ◌↔◌, trim_start, contains_text,
}
use local_proxy.Account.{pick_selection, default_or_min, min_text, min_onto, pick_selection-mem}
use local_proxy.Cache.{
  apply_policy, by_policy, mark_all, mark_tools, mark_system, mark_messages, mark_message,
  mark_content, mark_text_block, mark_object, update_key, update_field, update_array, update_last,
  update_end, later_or, has_cache_control,
}
use local_proxy.Cache.Marks.{markers}
use local_proxy.Cache.Policy.{apply_policy-markers, apply_policy-apply_policy}
use local_proxy.Cache.Outcome.{CacheObservation, changes_from, changes_from_iff}
use local_proxy.Config.{ProviderFormat, PromptCachePolicy}
use local_proxy.Error.{
  ApiError, api_error, from_upstream, to_anthropic_error, to_openai_error, body_snippet, snippet,
  from_upstream-to_anthropic_error, from_upstream-to_openai_error,
}
use local_proxy.Exec.{parse_args, push_chars, push_char, last_arg, split_command, after_token}
use local_proxy.Exec.Quoting.{quote_all, parse_args-quote_all}
use local_proxy.Json.{
  Value, no_fields, get, get_field, insert_field, remove_field, null, string, object, obj, arr,
  and_then,
}
use local_proxy.Request.{
  prepare_responses_request, prepare_responses, set_if_absent, set_key, normalize_anthropic_request,
}
use local_proxy.Request.Prepared.{get-normalize_anthropic_request, get-prepare_responses_request}
use local_proxy.Usage.{
  Floats, TokenUsage, no_usage, parse_usage, parse_fields, merge_usage, anthropic_usage,
  openai_usage, responses_usage, cost_from_usage,
}
use local_proxy.Usage.Laws.{
  anthropic_view, openai_view, parse_usage-anthropic_usage, parse_usage-openai_usage,
}

domain : Unit {0}
unfolding codes text_eq text_lt is_whitespace strip_prefix trim_start contains_text get_field
    insert_field remove_field pick_selection default_or_min min_text min_onto apply_policy by_policy
    mark_all mark_tools mark_system mark_messages mark_message mark_content mark_text_block
    mark_object update_key update_field update_array update_last update_end later_or
    has_cache_control markers changes_from from_upstream to_anthropic_error to_openai_error
    body_snippet snippet parse_args push_chars push_char last_arg split_command after_token
    prepare_responses_request prepare_responses set_if_absent set_key normalize_anthropic_request
    parse_usage parse_fields merge_usage anthropic_usage openai_usage responses_usage
    cost_from_usage
domain = tt

abbrev body : Value
body = obj (
    (codes "tools", arr (obj ((codes "name", string (codes "read")) ∷ []) ∷ []))
    ∷ (codes "system", string (codes "be brief"))
    ∷ (
      codes "messages",
      arr (
          obj
            ((codes "role", string (codes "user")) ∷ (codes "content", string (codes "hello")) ∷ [])
          ∷ []),
    )
    ∷ [])

three_markers :
    markers (apply_policy ProviderFormat.anthropic PromptCachePolicy.anthropic_1h body) ≡ 3
unfolding domain
three_markers = refl

apply_policy-markers_example :
    markers (apply_policy ProviderFormat.anthropic PromptCachePolicy.anthropic_1h body) ≤ 3
unfolding domain
apply_policy-markers_example =
    apply_policy-markers ProviderFormat.anthropic PromptCachePolicy.anthropic_1h body

apply_policy-apply_policy_example :
    apply_policy ProviderFormat.anthropic PromptCachePolicy.anthropic_5m
      (apply_policy ProviderFormat.anthropic PromptCachePolicy.anthropic_5m body)
    ≡ apply_policy ProviderFormat.anthropic PromptCachePolicy.anthropic_5m body
apply_policy-apply_policy_example =
    apply_policy-apply_policy ProviderFormat.anthropic PromptCachePolicy.anthropic_5m body

abbrev seen : Text → CacheObservation
seen account = record {
  provider = codes "p";
  model = codes "m";
  account = account;
  prefix_digest = codes "d";
  key_digest = none;
}

changes_from_iff_example :
    (changes_from (seen (codes "a")) (seen (codes "b")) ≡ [])
    ↔ (seen (codes "a") ≡ seen (codes "b"))
changes_from_iff_example = changes_from_iff (seen (codes "a")) (seen (codes "b"))

parse_args-quote_all_example :
    parse_args (quote_all (codes "a b" ∷ [] ∷ [])) ≡ codes "a b" ∷ [] ∷ []
unfolding domain
parse_args-quote_all_example =
    parse_args-quote_all (codes "a b" ∷ [] ∷ []) ((refl, (refl, (refl, tt))), (tt, tt))

pick_selection-mem_example : contains_text (codes "b" ∷ codes "a" ∷ []) (codes "a") ≡ true
unfolding domain
pick_selection-mem_example =
    pick_selection-mem (codes "b" ∷ codes "a" ∷ []) (some (codes "gone")) (codes "a") refl

abbrev print : Value → Text
print v = codes "{}"

abbrev slow_down : ApiError
slow_down = api_error 429 (codes "rate_limit_error") (codes "slow down")

from_upstream-to_anthropic_error_example :
    from_upstream print 429 (to_anthropic_error slow_down)
    ≡ record slow_down { upstream_body = some (to_anthropic_error slow_down) }
unfolding domain
from_upstream-to_anthropic_error_example = from_upstream-to_anthropic_error print slow_down refl

from_upstream-to_openai_error_example :
    from_upstream print 429 (to_openai_error slow_down)
    ≡ record slow_down { upstream_body = some (to_openai_error slow_down) }
unfolding domain
from_upstream-to_openai_error_example = from_upstream-to_openai_error print slow_down refl

get-normalize_anthropic_request_example :
    get (codes "effort") (normalize_anthropic_request (obj ((codes "effort", null) ∷ []))) ≡ none
unfolding domain
get-normalize_anthropic_request_example =
    get-normalize_anthropic_request (codes "effort") (obj ((codes "effort", null) ∷ []))

get-prepare_responses_request_example :
    and_then
      (prepare_responses_request ProviderFormat.openai_responses
        (object no_fields)
        none
        (codes "s1"))
      (get (codes "prompt_cache_key"))
    ≡ some (string (codes "s1"))
unfolding domain
get-prepare_responses_request_example =
    get-prepare_responses_request no_fields none (codes "s1") (codes "prompt_cache_key")

abbrev floats : Floats
floats = record { to_f64 = λ n. 0; add = λ a b. 0 }

abbrev used : TokenUsage
used = record no_usage { input = 10; output = 5; cache_read = some 4; cache_write = 3 }

parse_usage-anthropic_usage_example :
    parse_usage floats (anthropic_usage used) ≡ anthropic_view used
unfolding domain
parse_usage-anthropic_usage_example =
    parse_usage-anthropic_usage floats used (omega arith) (omega arith)

parse_usage-openai_usage_example : parse_usage floats (openai_usage used) ≡ openai_view used
parse_usage-openai_usage_example = parse_usage-openai_usage floats used
