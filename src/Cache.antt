-- ===== src/Cache.antt =====
-- The prompt-cache policy of src/domain/cache.rs: where it puts its breakpoints, and what it
-- reports of a request and its outcome. The digests of SHA-256 are a parameter.
use local_proxy.Base.{
  ℕ, ◌+◌, Bool, true, false, ◌||◌, ◌&&◌, not, Option, none, some, List, [], ◌∷◌, ◌++◌, ◌==◌,
  if◌then◌else◌, Text, text_eq, is_empty, is_some, codes, ltb, leb,
}
use local_proxy.Config.{ProviderFormat, PromptCachePolicy}
use local_proxy.Json.{
  Value, Items, Fields, item, no_items, field, no_fields, object, array, string, get, get_field,
  insert_field, as_str, as_array, obj, arr, get_or, and_then, str_of, is_object, items,
}
use local_proxy.Usage.{TokenUsage}
pub mod Marks
pub mod Policy
pub mod Outcome

pub data CacheDiagnostic : Type 0 where
  missing_cache_control missing_session_key stable_prefix_changed model_changed account_changed :
      CacheDiagnostic
  cache_key_changed telemetry_unavailable cache_miss_unknown cache_warming upstream_error :
      CacheDiagnostic

abbrev pub cache_control : Text
cache_control = codes "cache_control"

unfoldable mutual
  pub has_cache_control : Value → Bool
  has_cache_control (object fs) = is_some (get_field cache_control fs) || any_field fs
  has_cache_control (array vs) = any_item vs
  has_cache_control _ = false

  pub any_item : Items → Bool
  any_item no_items = false
  any_item (item v vs) = has_cache_control v || any_item vs

  pub any_field : Fields → Bool
  any_field no_fields = false
  any_field (field k v fs) = has_cache_control v || any_field fs

-- A mutation in place is an option: none if it does not apply.
abbrev pub map_option {ℓ κ} : {A : Type ℓ} {B : Type κ} → (A → B) → Option A → Option B
map_option f none = none
map_option f (some a) = some (f a)

unfoldable pub later_or : Value → Items → Option Items → Option Value → Option Items
later_or v vs (some ws) w = some (item v ws)
later_or v vs none w = map_option (λ u. item u vs) w

-- `iter_mut().rev()` up to the first element to which `f` applies.
unfoldable pub update_last : (Value → Option Value) → Items → Option Items
update_last f no_items = none
update_last f (item v vs) = later_or v vs (update_last f vs) (f v)

-- `last_mut()`.
unfoldable pub update_end : (Value → Option Value) → Items → Option Items
update_end f no_items = none
update_end f (item v no_items) = map_option (λ u. item u no_items) (f v)
update_end f (item v (item w vs)) = map_option (item v) (update_end f (item w vs))

unfoldable pub update_field : Text → (Value → Option Value) → Fields → Option Fields
update_field k f no_fields = none
update_field k f (field j v fs) =
    let rest = map_option (field j v) (update_field k f fs) in
    if text_eq j k then map_option (λ u. field j u fs) (f v) else rest

-- `get_mut(key)`.
unfoldable pub update_key : Text → (Value → Option Value) → Value → Option Value
update_key k f (object fs) = map_option object (update_field k f fs)
update_key k f _ = none

unfoldable pub update_array : (Items → Option Items) → Value → Option Value
update_array f (array vs) = map_option array (f vs)
update_array f _ = none

abbrev pub marker_of : Text → Value
marker_of ttl = obj ((codes "type", string (codes "ephemeral")) ∷ (codes "ttl", string ttl) ∷ [])

-- `v["cache_control"] = marker` on an object.
unfoldable pub mark_object : Text → Value → Option Value
mark_object ttl (object fs) = some (object (insert_field cache_control (marker_of ttl) fs))
mark_object ttl _ = none

abbrev pub field_is : Value → Text → Text → Bool
field_is v k s = text_eq (str_of v k) s

unfoldable pub mark_text_block : Text → Value → Option Value
mark_text_block ttl v = if field_is v (codes "type") (codes "text") then mark_object ttl v else none

abbrev pub text_block : Text → Text → Value
text_block ttl words = arr (
    obj (
      (codes "type", string (codes "text"))
      ∷ (codes "text", string words)
      ∷ (cache_control, marker_of ttl)
      ∷ [])
    ∷ [])

-- A text that is not empty becomes a marked block; of blocks, the last text block is marked.
unfoldable pub mark_content : Text → Value → Option Value
mark_content ttl (string words) = if is_empty words then none else some (text_block ttl words)
mark_content ttl (array vs) = map_option array (update_last (mark_text_block ttl) vs)
mark_content ttl _ = none

unfoldable pub mark_message : Text → Value → Option Value
mark_message ttl m =
    if field_is m (codes "role") (codes "user")
    then update_key (codes "content") (mark_content ttl) m
    else none

unfoldable pub mark_tools : Text → Value → Option Value
mark_tools ttl = update_key (codes "tools") (update_array (update_end (mark_object ttl)))

unfoldable pub mark_system : Text → Value → Option Value
mark_system ttl = update_key (codes "system") (mark_content ttl)

unfoldable pub mark_messages : Text → Value → Option Value
mark_messages ttl = update_key (codes "messages") (update_array (update_last (mark_message ttl)))

abbrev pub try_mark : (Value → Option Value) → Value → Value
try_mark f v = get_or (f v) v

unfoldable pub mark_all : Text → Value → Value
mark_all ttl body =
    try_mark (mark_messages ttl) (try_mark (mark_system ttl) (try_mark (mark_tools ttl) body))

unfoldable pub by_policy : PromptCachePolicy → Value → Value
by_policy PromptCachePolicy.preserve body = body
by_policy PromptCachePolicy.anthropic_5m body = mark_all (codes "5m") body
by_policy PromptCachePolicy.anthropic_1h body = mark_all (codes "1h") body

unfoldable pub apply_policy : ProviderFormat → PromptCachePolicy → Value → Value
apply_policy ProviderFormat.anthropic policy body =
    if has_cache_control body then body else by_policy policy body
apply_policy ProviderFormat.openai policy body = body
apply_policy ProviderFormat.openai_responses policy body = body
