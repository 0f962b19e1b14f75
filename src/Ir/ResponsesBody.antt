-- ===== src/Ir/ResponsesBody.antt =====
-- `decode_response` and `encode_response` of src/domain/ir/responses.rs, with the helpers of
-- src/domain/ir/mod.rs that they call. `uuid` and `now` are what the library would draw.
use local_proxy.Base.{
  ℕ, Bool, true, false, ◌||◌, Option, none, some, List, [], ◌∷◌, ◌++◌, if◌then◌else◌, Text, text_eq,
  is_empty, codes, lookup, insert,
}
use local_proxy.Ir.AnthropicEncoder.{new_id}
use local_proxy.Ir.Fold.{parse_args}
use local_proxy.Ir.Responses.{call_id}
use local_proxy.Ir.ResponsesEncoder.{message_item, function_item, envelope}
use local_proxy.Ir.Types.{Part, Response, StopReason, Ext}
use local_proxy.Json.{
  Value, null, string, array, object, obj, items, insert_field, get, as_str, is_null, str_of,
  nat_of, elements_of, and_then, get_or,
}
use local_proxy.Usage.{Floats, parse_usage, responses_usage}

-- `text_of`.
abbrev pub texts : List Value → Text
texts [] = []
texts (v ∷ vs) = get_or (and_then (get (codes "text") v) as_str) [] ++ texts vs

unfoldable pub text_of : Value → Text
text_of (string s) = s
text_of (array vs) = texts (items vs)
text_of _ = []

unfoldable pub args_string : (Value → Text) → Value → Text
args_string print_json (string s) = s
args_string print_json v = print_json v

-- The text of a message's content.
unfoldable pub output_text : List Value → Text
output_text [] = []
output_text (p ∷ ps) =
    let rest = output_text ps in
    if text_eq (str_of p (codes "type")) (codes "output_text")
    then str_of p (codes "text") ++ rest
    else rest

abbrev pub is_call : Part → Bool
is_call (Part.tool_call c) = true
is_call _ = false

abbrev pub any_call : List Part → Bool
any_call [] = false
any_call (p ∷ ps) = is_call p || any_call ps

-- A field that is there and not null, kept under the namespace.
unfoldable pub keep_field : Value → Text → Ext → Ext
keep_field body key ext = elim (get key body) [
  | none ↦ ext
  | some v ↦ if is_null v then ext else insert (codes "responses:" ++ key) v ext
]

module _ (parse_json : Text → Option Value) where
  unfoldable pub args_value : Option Value → Value
  args_value none = obj []
  args_value (some (string s)) = parse_args parse_json s
  args_value (some v) = v

  unfoldable pub decode_item : Value → List Part
  decode_item item =
      let type = str_of item (codes "type") in
      let text = output_text (elements_of item (codes "content")) in
      let summary = text_of (get_or (get (codes "summary") item) null) in
      if text_eq type (codes "message")
      then if is_empty text then [] else Part.text text ∷ []
      else if text_eq type (codes "function_call")
      then Part.tool_call (record {
        id = call_id item;
        name = str_of item (codes "name");
        arguments = args_value (get (codes "arguments") item);
      })
        ∷ []
      else if text_eq type (codes "reasoning")
      then if is_empty summary then [] else Part.reasoning summary none ∷ []
      else []

  unfoldable pub decode_items : List Value → List Part
  decode_items [] = []
  decode_items (v ∷ vs) = decode_item v ++ decode_items vs

  unfoldable pub decode_response : Floats → Value → Response
  decode_response fl body =
      let content = decode_items (elements_of body (codes "output")) in
      record {
        id = str_of body (codes "id");
        model = str_of body (codes "model");
        content = content;
        stop =
            if text_eq (str_of body (codes "status")) (codes "incomplete")
            then StopReason.max_tokens
            else if any_call content
            then StopReason.tool_use
            else StopReason.end_turn;
        created = nat_of body (codes "created_at");
        usage = parse_usage fl (get_or (get (codes "usage") body) null);
        ext = keep_field body (codes "error") (keep_field body (codes "status") []);
      }

unfoldable pub joined_text : List Part → Text
joined_text [] = []
joined_text (Part.text t ∷ ps) = t ++ joined_text ps
joined_text (Part.image i ∷ ps) = joined_text ps
joined_text (Part.tool_call c ∷ ps) = joined_text ps
joined_text (Part.tool_result r ∷ ps) = joined_text ps
joined_text (Part.reasoning t s ∷ ps) = joined_text ps

unfoldable pub set_error : Option Value → Value → Value
set_error (some e) (object fs) = object (insert_field (codes "error") e fs)
set_error _ v = v

module _ (print_json : Value → Text) where
  unfoldable pub call_items : List Part → List Value
  call_items [] = []
  call_items (Part.tool_call c ∷ ps) =
      function_item c.id c.name (args_string print_json c.arguments) ∷ call_items ps
  call_items (Part.text t ∷ ps) = call_items ps
  call_items (Part.image i ∷ ps) = call_items ps
  call_items (Part.tool_result r ∷ ps) = call_items ps
  call_items (Part.reasoning t s ∷ ps) = call_items ps

  unfoldable pub text_items : Text → List Value
  text_items text = if is_empty text then [] else message_item (codes "msg_0") text ∷ []

  unfoldable pub encode_response : (uuid : Text) (now : ℕ) → Response → Value
  encode_response uuid now resp = set_error (lookup (codes "responses:error") resp.ext) (
      envelope (if is_empty resp.id then new_id (codes "resp") uuid else resp.id) resp.model
        (get_or resp.created now)
        (get_or (and_then (lookup (codes "responses:status") resp.ext) as_str) (codes "completed"))
        (text_items (joined_text resp.content) ++ call_items resp.content)
        (responses_usage resp.usage))
