-- ===== src/Request/Prepared.antt =====
-- The fields of a request that src/domain/request.rs and src/domain/translate.rs have prepared.
use local_proxy.Base.{
  ◌||◌, Bool, true, not, ◌&&◌, Option, none, some, List, [], ◌∷◌, ◌≡◌, refl, if◌then◌else◌, Text,
  text_eq, text_eq_iff, is_empty, is_some, codes, contains_text, arith, Bool-cases, inl, inr,
}
use local_proxy.Config.{ProviderFormat}
use local_proxy.Json.{
  Value, Fields, null, object, string, array, bool, number, and_then, or_none, obj, get, get_field,
  insert_field, get_field-insert_field, get_field-remove_field,
}
use local_proxy.Request.{
  set_key, set_if_absent, effort_text, prepare_responses, prepare_responses_request, remove_key,
  remove_keys, rejected_keys, normalize_anthropic_request,
}

get-remove_key :
    (j k : Text) (v : Value) → get j (remove_key k v) ≡ (if text_eq k j then none else get j v)
get-remove_key j k (object fs) = get_field-remove_field k j fs
get-remove_key j k null = ground arith
get-remove_key j k (bool b) = ground arith
get-remove_key j k (number n) = ground arith
get-remove_key j k (string s) = ground arith
get-remove_key j k (array vs) = ground arith

get-remove_keys :
    (j : Text) (ks : List Text) (v : Value)
    → get j (remove_keys ks v) ≡ (if contains_text ks j then none else get j v)
unfolding contains_text
get-remove_keys j [] v = refl
get-remove_keys j (k ∷ ks) v =
    ground (arith, get-remove_keys j ks (remove_key k v), get-remove_key j k v)

-- The knobs of reasoning and of the output, by the names that clients give them.
abbrev pub knob : Text → Bool
knob j =
    text_eq (codes "thinking") j
    || text_eq (codes "reasoning") j
    || text_eq (codes "reasoning_effort") j
    || text_eq (codes "effort") j
    || text_eq (codes "level") j
    || text_eq (codes "depth") j
    || text_eq (codes "output_config") j

-- The fields thinking, reasoning, reasoning_effort, effort, level, depth, output_config and
-- context_management are gone; every other field is as the client sent it.
pub get-normalize_anthropic_request :
    (j : Text) (body : Value)
    → get j (normalize_anthropic_request body)
      ≡ (if knob j || text_eq (codes "context_management") j then none else get j body)
unfolding normalize_anthropic_request contains_text
get-normalize_anthropic_request j body = ground (arith, get-remove_keys j rejected_keys body)

abbrev add_absent : Bool → Text → Value → Fields → Fields
add_absent wanted k v fs =
    if wanted && not (is_some (get_field k fs)) then insert_field k v fs else fs

set_if_absent-object :
    (wanted : Bool) (k : Text) (v : Value) (fs : Fields)
    → set_if_absent wanted k v (object fs) ≡ some (object (add_absent wanted k v fs))
unfolding set_if_absent set_key
set_if_absent-object wanted k v fs = elim (Bool-cases (wanted && not (is_some (get_field k fs)))) [
  | inl e ↦ rw (e) refl
  | inr e ↦ rw (e) refl
]

get_field-add_absent :
    (wanted : Bool) (k j : Text) (v : Value) (fs : Fields)
    → get_field j (add_absent wanted k v fs)
      ≡ or_none (get_field j fs) (if wanted && text_eq k j then some v else none)
get_field-add_absent wanted k j v fs = elim (Bool-cases (text_eq k j)) [
  | inl e ↦ let q = (text_eq_iff k j).0 e in ground (arith, get_field-insert_field k j v fs)
  | inr e ↦ ground (arith, get_field-insert_field k j v fs)
]

-- For a Responses upstream each field of the request is what the client sent, else what the session
-- and the route give; and the request streams.
pub get-prepare_responses_request :
    (fs : Fields) (effort : Option Text) (session_id j : Text)
    → and_then
        (prepare_responses_request ProviderFormat.openai_responses (object fs) effort session_id)
        (get j)
      ≡ (if text_eq (codes "stream") j
          then some (bool true)
          else or_none
              (or_none (get_field j fs) (
                if not (is_empty session_id) && text_eq (codes "prompt_cache_key") j
                then some (string session_id)
                else none))
              (if not (is_empty (effort_text effort)) && text_eq (codes "reasoning") j
                then some (obj ((codes "effort", string (effort_text effort)) ∷ []))
                else none))
unfolding prepare_responses_request prepare_responses set_key
get-prepare_responses_request fs effort session_id j =
    let w1 = not (is_empty session_id) in
    let w2 = not (is_empty (effort_text effort)) in
    let v2 = obj ((codes "effort", string (effort_text effort)) ∷ []) in
    let f1 = add_absent w1 (codes "prompt_cache_key") (string session_id) fs in
    let f2 = add_absent w2 (codes "reasoning") v2 f1 in
    rw
      (
        set_if_absent-object w1 (codes "prompt_cache_key") (string session_id) fs,
        set_if_absent-object w2 (codes "reasoning") v2 f1,
        get_field-insert_field (codes "stream") j (bool true) f2,
        get_field-add_absent w2 (codes "reasoning") j v2 f1,
        get_field-add_absent w1 (codes "prompt_cache_key") j (string session_id) fs,
      )
      refl
