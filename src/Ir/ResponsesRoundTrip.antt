-- ===== src/Ir/ResponsesRoundTrip.antt =====
-- `encode_response` and then `decode_response` of src/domain/ir/responses.rs: what a response keeps
-- and what it loses on the way.
use local_proxy.Base.{
  ℕ, false, Option, none, some, List, [], ◌∷◌, ◌++◌, ◌≡◌, refl, sym, if◌then◌else◌, Text, text_eq,
  text_lt, is_empty, codes, lookup, insert, All, Bool-cases, inl, inr, append-nil, append_assoc,
}
use local_proxy.Ir.Fold.{parse_args}
use local_proxy.Ir.Responses.{call_id}
use local_proxy.Ir.ResponsesBody.{
  args_string, output_text, any_call, keep_field, args_value, decode_item, decode_items,
  decode_response, joined_text, set_error, call_items, text_items, encode_response,
}
use local_proxy.Ir.ResponsesEncoder.{message_item, function_item, envelope}
use local_proxy.Ir.Types.{Part, ToolCall, Response, StopReason}
use local_proxy.Json.{Value, items, to_items, string, get_field, insert_field, get_or}
use local_proxy.Usage.{Floats}
use local_proxy.Usage.Laws.{openai_view, parse_usage-responses_usage}

items-to_items : (vs : List Value) → items (to_items vs) ≡ vs
items-to_items [] = refl
items-to_items (v ∷ vs) = rw (items-to_items vs) refl

abbrev pub calls : List Part → List Part
calls [] = []
calls (Part.tool_call c ∷ ps) = Part.tool_call c ∷ calls ps
calls (_ ∷ ps) = calls ps

-- What the format carries of the parts: one text, then the calls.
abbrev pub kept : List Part → List Part
kept ps = (if is_empty (joined_text ps) then [] else Part.text (joined_text ps) ∷ []) ++ calls ps

module _ (parse_json : Text → Option Value) (print_json : Value → Text) where
  -- A call with the arguments that are read back from its printed ones.
  abbrev pub restored : Part → Part
  restored (Part.tool_call c) =
      Part.tool_call
        (record c { arguments = parse_args parse_json (args_string print_json c.arguments) })
  restored p = p

  decode_items-append :
      (xs ys : List Value)
      → decode_items parse_json (xs ++ ys)
        ≡ decode_items parse_json xs ++ decode_items parse_json ys
  unfolding decode_items
  decode_items-append [] ys = refl
  decode_items-append (x ∷ xs) ys = rw (decode_items-append xs ys) (
      sym (
        append_assoc (decode_item parse_json x) (decode_items parse_json xs)
          (decode_items parse_json ys)))

  decode_item-message_item :
      (id words : Text)
      → is_empty words ≡ false
      → decode_item parse_json (message_item id words) ≡ Part.text words ∷ []
  unfolding decode_item message_item output_text get_field insert_field text_eq text_lt codes
  decode_item-message_item id words h = rw (append-nil words, h) refl

  decode_item-function_item :
      (c : ToolCall)
      → decode_item parse_json (function_item c.id c.name (args_string print_json c.arguments))
        ≡ restored (Part.tool_call c) ∷ []
  unfolding decode_item function_item args_value call_id get_field insert_field text_eq text_lt
      codes
  decode_item-function_item c = refl

  decode_items-text_items :
      (words : Text)
      → decode_items parse_json (text_items print_json words)
        ≡ (if is_empty words then [] else Part.text words ∷ [])
  unfolding decode_items text_items
  decode_items-text_items words = elim (Bool-cases (is_empty words)) [
    | inl e ↦ rw (e) refl
    | inr e ↦ rw (e) (rw (decode_item-message_item (codes "msg_0") words e) refl)
  ]

  decode_items-call_items :
      (ps : List Part)
      → All (λ p. restored p ≡ p) ps
      → decode_items parse_json (call_items print_json ps) ≡ calls ps
  unfolding decode_items call_items
  decode_items-call_items [] h = refl
  decode_items-call_items (Part.text t ∷ ps) (e, h) = decode_items-call_items ps h
  decode_items-call_items (Part.image i ∷ ps) (e, h) = decode_items-call_items ps h
  decode_items-call_items (Part.tool_result r ∷ ps) (e, h) = decode_items-call_items ps h
  decode_items-call_items (Part.reasoning t s ∷ ps) (e, h) = decode_items-call_items ps h
  decode_items-call_items (Part.tool_call c ∷ ps) (e, h) =
      rw (decode_item-function_item c, decode_items-call_items ps h, e) refl

  decoded-kept :
      (ps : List Part)
      → All (λ p. restored p ≡ p) ps
      → decode_items parse_json
          (items (to_items (text_items print_json (joined_text ps) ++ call_items print_json ps)))
        ≡ kept ps
  decoded-kept ps h =
      rw
        (
          items-to_items (text_items print_json (joined_text ps) ++ call_items print_json ps),
          decode_items-append (text_items print_json (joined_text ps)) (call_items print_json ps),
          decode_items-text_items (joined_text ps),
          decode_items-call_items ps h,
        )
        refl

  -- A response with an identifier, that neither failed nor has another status, keeps its identifier
  -- and model, its creation time or else the time of encoding, its texts as one, its calls, if their
  -- arguments are read back from how they are printed, and the counts of input, output, reasoning
  -- and cached tokens. It loses its other parts, the cache writes and the cost; its stop is a use of
  -- tools if it has a call, else the end of the turn.
  pub decode_response-encode_response :
      (fl : Floats) (uuid : Text) (now : ℕ) (resp : Response)
      → is_empty resp.id ≡ false
      → lookup (codes "responses:error") resp.ext ≡ none
      → lookup (codes "responses:status") resp.ext ≡ none
      → All (λ p. restored p ≡ p) resp.content
      → decode_response parse_json fl (encode_response print_json uuid now resp) ≡ record {
        id = resp.id;
        model = resp.model;
        content = kept resp.content;
        stop = if any_call (kept resp.content) then StopReason.tool_use else StopReason.end_turn;
        created = some (get_or resp.created now);
        usage = openai_view resp.usage;
        ext = (codes "responses:status", string (codes "completed")) ∷ [];
      }
  unfolding decode_response encode_response set_error envelope keep_field insert get_field
      insert_field text_eq text_lt codes
  decode_response-encode_response fl uuid now resp n e s h =
      rw (e, s, n, parse_usage-responses_usage fl resp.usage, decoded-kept resp.content h) refl
