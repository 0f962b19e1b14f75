-- ===== src/Request.antt =====
-- src/domain/request.rs: what the proxy sets in a request before it goes upstream, and the bits
-- that it reads. `body["key"] = v` panics unless the body is an object or null.
use local_proxy.Base.{
  ℕ, ◌+◌, ◌/◌, ◌*◌, ◌≤◌, ◌<◌, Bool, true, false, not, ◌&&◌, ◌||◌, Option, none, some, List, [], ◌∷◌,
  ◌≡◌, refl, ◌==◌, if◌then◌else◌, Text, text_eq, text_eq_refl, is_empty, is_some, codes, length,
  arith, Bool-cases, Option-cases, inl, inr,
}
use local_proxy.Config.{ProviderFormat}
use local_proxy.Ir.Types.{Format}
use local_proxy.Json.{
  Value, Items, Fields, null, object, string, array, bool, no_items, item, no_fields, get,
  get_field, insert_field, remove_field, get_field-insert_field, get_field-remove_field, as_bool,
  as_array, obj, and_then, get_or,
}
pub mod Prepared

unfoldable pub wants_stream : Value → Bool
wants_stream body = get_or (and_then (get (codes "stream") body) as_bool) false

-- `body[key] = v`; none is a panic.
unfoldable pub set_key : Text → Value → Value → Option Value
set_key k v (object fs) = some (object (insert_field k v fs))
set_key k v null = some (object (insert_field k v no_fields))
set_key k v _ = none

unfoldable pub set_if_absent : Bool → Text → Value → Value → Option Value
set_if_absent wanted k v body =
    if wanted && not (is_some (get k body)) then set_key k v body else some body

unfoldable pub enable_usage : Value → Option Value
enable_usage body =
    set_if_absent true (codes "stream_options") (obj ((codes "include_usage", bool true) ∷ [])) body

abbrev pub effort_text : Option Text → Text
effort_text none = []
effort_text (some e) = e

unfoldable pub prepare_responses : (effort : Option Text) (session_id : Text) → Value → Option Value
prepare_responses effort session_id body =
    and_then
      (and_then
        (set_if_absent (not (is_empty session_id)) (codes "prompt_cache_key") (string session_id)
          body)
        (set_if_absent (not (is_empty (effort_text effort))) (codes "reasoning")
          (obj ((codes "effort", string (effort_text effort)) ∷ []))))
      (set_key (codes "stream") (bool true))

unfoldable pub prepare_responses_request :
    ProviderFormat → Value → (effort : Option Text) (session_id : Text) → Option Value
prepare_responses_request ProviderFormat.openai_responses body effort session_id =
    prepare_responses effort session_id body
prepare_responses_request ProviderFormat.openai body effort session_id = some body
prepare_responses_request ProviderFormat.anthropic body effort session_id = some body

-- `remove` and `normalize_anthropic_request` of src/domain/translate.rs.
abbrev pub remove_key : Text → Value → Value
remove_key k (object fs) = object (remove_field k fs)
remove_key k v = v

abbrev pub remove_keys : List Text → Value → Value
remove_keys [] v = v
remove_keys (k ∷ ks) v = remove_keys ks (remove_key k v)

abbrev pub rejected_keys : List Text
rejected_keys =
    codes "thinking"
    ∷ codes "reasoning"
    ∷ codes "reasoning_effort"
    ∷ codes "effort"
    ∷ codes "level"
    ∷ codes "depth"
    ∷ codes "output_config"
    ∷ codes "context_management"
    ∷ []

unfoldable pub normalize_anthropic_request : Value → Value
normalize_anthropic_request body = remove_keys rejected_keys body

unfoldable pub same_format_request : Format → Value → Option Value
same_format_request Format.anthropic body = some (normalize_anthropic_request body)
same_format_request Format.openai body = some body
same_format_request Format.responses body = set_if_absent true (codes "store") (bool false) body

module _ (print_json : Value → Text) where
  mutual
    pub text_len : Value → ℕ
    text_len (string s) = length s
    text_len (array vs) = text_lens vs
    text_len null = 0
    text_len v = length (print_json v)

    pub text_lens : Items → ℕ
    text_lens no_items = 0
    text_lens (item v vs) = text_len v + text_lens vs

  abbrev pub content_len : Option Value → ℕ
  content_len none = 0
  content_len (some v) = text_len v

  abbrev pub message_lens : Items → ℕ
  message_lens no_items = 0
  message_lens (item m ms) = content_len (get (codes "content") m) + message_lens ms

  -- `div_ceil(4)`.
  unfoldable pub estimate_tokens : Value → ℕ
  estimate_tokens body =
      (content_len (get (codes "system") body)
        + message_lens (get_or (and_then (get (codes "messages") body) as_array) no_items)
        + 3)
      / 4
