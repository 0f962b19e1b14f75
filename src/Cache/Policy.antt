-- ===== src/Cache/Policy.antt =====
-- `apply_policy` of src/domain/cache.rs: how many breakpoints it adds, and its second run.
use local_proxy.Base.{
  ◌+◌, ◌≤◌, true, Option, some, ◌≡◌, refl, ◌⊎◌, inl, inr, sym, ◌∙◌, arith, Text, text_eq, text_lt,
  is_empty, codes, some_inj, Bool-cases, Option-cases,
}
use local_proxy.Cache.{
  has_cache_control, update_last, update_end, update_key, update_array, mark_object,
  mark_text_block, text_block, mark_content, mark_message, mark_tools, mark_system, mark_messages,
  try_mark, mark_all, by_policy, apply_policy, map_option,
}
use local_proxy.Config.{ProviderFormat, PromptCachePolicy}
use local_proxy.Json.{
  Value, Items, object, array, string, null, bool, number, get_field, insert_field,
}
use local_proxy.Cache.Marks.{
  Marks, update_last-Marks, update_end-Marks, update_key-Marks, update_array-Marks,
  mark_object-Marks, if-Marks, markers,
}

mark_text_block-Marks : (ttl : Text) → Marks (mark_text_block ttl)
unfolding mark_text_block
mark_text_block-Marks ttl = if-Marks _ (mark_object ttl) (mark_object-Marks ttl)

mark_array-Marks :
    (ttl : Text) (vs : Items) (w : Value)
    → map_option array (update_last (mark_text_block ttl) vs) ≡ some w
    → (has_cache_control w ≡ true) × (markers w ≤ 1 + markers (array vs))
unfolding update_array
mark_array-Marks ttl vs =
    update_array-Marks (update_last (mark_text_block ttl))
      (update_last-Marks (mark_text_block ttl) (mark_text_block-Marks ttl)) (array vs)

text_block-markers :
    (ttl words : Text)
    → (has_cache_control (text_block ttl words) ≡ true) × (markers (text_block ttl words) ≡ 1)
unfolding markers insert_field text_eq codes text_lt has_cache_control get_field
text_block-markers ttl words = (refl, refl)

mark_content-Marks : (ttl : Text) → Marks (mark_content ttl)
unfolding mark_content markers
mark_content-Marks ttl (string words) w h = elim (Bool-cases (is_empty words)) [
  | inl e ↦ (ground arith, ground arith)
  | inr e ↦
      let (a, b) = text_block-markers ttl words in
      let q : some (text_block ttl words) ≡ some w = ground arith in
      rw (sym (some_inj q)) (a, omega (arith, b))
]
mark_content-Marks ttl (array vs) w h = mark_array-Marks ttl vs w h
mark_content-Marks ttl null w h = (ground arith, ground arith)
mark_content-Marks ttl (bool b) w h = (ground arith, ground arith)
mark_content-Marks ttl (number n) w h = (ground arith, ground arith)
mark_content-Marks ttl (object fs) w h = (ground arith, ground arith)

mark_message-Marks : (ttl : Text) → Marks (mark_message ttl)
unfolding mark_message
mark_message-Marks ttl =
    if-Marks _ (update_key (codes "content") (mark_content ttl))
      (update_key-Marks (mark_content ttl) (mark_content-Marks ttl) (codes "content"))

mark_tools-Marks : (ttl : Text) → Marks (mark_tools ttl)
unfolding mark_tools
mark_tools-Marks ttl =
    update_key-Marks (update_array (update_end (mark_object ttl)))
      (update_array-Marks (update_end (mark_object ttl))
        (update_end-Marks (mark_object ttl) (mark_object-Marks ttl)))
      (codes "tools")

mark_system-Marks : (ttl : Text) → Marks (mark_system ttl)
unfolding mark_system
mark_system-Marks ttl =
    update_key-Marks (mark_content ttl) (mark_content-Marks ttl) (codes "system")

mark_messages-Marks : (ttl : Text) → Marks (mark_messages ttl)
unfolding mark_messages
mark_messages-Marks ttl =
    update_key-Marks (update_array (update_last (mark_message ttl)))
      (update_array-Marks (update_last (mark_message ttl))
        (update_last-Marks (mark_message ttl) (mark_message-Marks ttl)))
      (codes "messages")

-- A stage changes nothing, or leaves a marker.
try_mark-or :
    (f : Value → Option Value)
    → Marks f
    → (v : Value)
    → ((try_mark f v ≡ v) ⊎ (has_cache_control (try_mark f v) ≡ true))
      × (markers (try_mark f v) ≤ 1 + markers v)
try_mark-or f m v = elim (Option-cases (f v)) [
  | inl e ↦ rw (e) (inl refl, omega arith)
  | inr (w, e) ↦ let (a, b) = m v w e in rw (e) (inr a, b)
]

mark_all-or :
    (ttl : Text) (v : Value)
    → ((mark_all ttl v ≡ v) ⊎ (has_cache_control (mark_all ttl v) ≡ true))
      × (markers (mark_all ttl v) ≤ 3 + markers v)
unfolding mark_all
mark_all-or ttl v =
    let v1 = try_mark (mark_tools ttl) v in
    let v2 = try_mark (mark_system ttl) v1 in
    let (p, a) = try_mark-or (mark_tools ttl) (mark_tools-Marks ttl) v in
    let (q, b) = try_mark-or (mark_system ttl) (mark_system-Marks ttl) v1 in
    let (r, c) = try_mark-or (mark_messages ttl) (mark_messages-Marks ttl) v2 in
    (chain p (chain q r), omega (arith, a, b, c))
  where
    chain :
        {x y z : Value}
        → ((y ≡ x) ⊎ (has_cache_control y ≡ true))
        → ((z ≡ y) ⊎ (has_cache_control z ≡ true))
        → (z ≡ x) ⊎ (has_cache_control z ≡ true)
    chain p (inr h) = inr h
    chain (inl e) (inl f) = inl (f ∙ e)
    chain (inr h) (inl f) = inr (rw (f) h)

by_policy-or :
    (policy : PromptCachePolicy) (v : Value)
    → ((by_policy policy v ≡ v) ⊎ (has_cache_control (by_policy policy v) ≡ true))
      × (markers (by_policy policy v) ≤ 3 + markers v)
unfolding by_policy
by_policy-or PromptCachePolicy.preserve v = (inl refl, omega arith)
by_policy-or PromptCachePolicy.anthropic_5m v = mark_all-or (codes "5m") v
by_policy-or PromptCachePolicy.anthropic_1h v = mark_all-or (codes "1h") v

-- The policy adds at most three breakpoints.
pub apply_policy-markers :
    (format : ProviderFormat) (policy : PromptCachePolicy) (body : Value)
    → markers (apply_policy format policy body) ≤ 3 + markers body
unfolding apply_policy
apply_policy-markers ProviderFormat.anthropic policy body =
    elim (Bool-cases (has_cache_control body)) [
      | inl e ↦ rw (e) (omega arith)
      | inr e ↦ rw (e) ((by_policy-or policy body).1)
    ]
apply_policy-markers ProviderFormat.openai policy body = omega arith
apply_policy-markers ProviderFormat.openai_responses policy body = omega arith

-- A second run of the policy changes nothing.
pub apply_policy-apply_policy :
    (format : ProviderFormat) (policy : PromptCachePolicy) (body : Value)
    → apply_policy format policy (apply_policy format policy body) ≡ apply_policy format policy body
unfolding apply_policy
apply_policy-apply_policy ProviderFormat.anthropic policy body =
    elim (Bool-cases (has_cache_control body)) [
      | inl e ↦ rw (e, e) refl
      | inr e ↦ elim ((by_policy-or policy body).0) [
        | inl f ↦ rw (e, f, e, f) refl
        | inr g ↦ rw (e, g) refl
      ]
    ]
apply_policy-apply_policy ProviderFormat.openai policy body = refl
apply_policy-apply_policy ProviderFormat.openai_responses policy body = refl
