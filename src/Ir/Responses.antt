-- ===== src/Ir/Responses.antt =====
-- `Decoder` of src/domain/ir/responses.rs: events of the Responses interface to the representation's.
-- Text and reasoning are implicit, as for OpenAI; a call is named by its item's id, or by the place
-- of the item in the output.
use local_proxy.Base.{
  ℕ, Bool, true, false, Option, none, some, List, [], ◌∷◌, ◌++◌, ◌||◌, if◌then◌else◌, Text, text_eq,
  is_empty, codes, show_nat,
}
use local_proxy.Ir.Emitter.{
  Emitter, new_emitter, start, open_block, push_delta, report, finish, and_push,
}
use local_proxy.Ir.Openai.{close_option}
use local_proxy.Ir.Types.{Event, BlockKind, StopReason}
use local_proxy.Json.{Value, null, get, as_str, is_null, str_of, nat_of, and_then, or_none, get_or}
use local_proxy.Sse.Frame.{SseFrame, is_done, json}
use local_proxy.Usage.{Floats, parse_usage}

pub record Decoder : Type 0 where
  pub em : Emitter
  pub text : Option ℕ
  pub reasoning : Option ℕ
  pub tools : List (Text × ℕ)
  pub incomplete : Bool

abbrev pub new_decoder : Decoder
new_decoder = record {
  em = new_emitter;
  text = none;
  reasoning = none;
  tools = [];
  incomplete = false;
}

unfoldable pub call_id : Value → Text
call_id item =
    get_or (and_then (or_none (get (codes "call_id") item) (get (codes "id") item)) as_str) []

unfoldable pub item_key : Value → Text → Text
item_key v id =
    if is_empty id then codes "#" ++ show_nat (get_or (nat_of v (codes "output_index")) 0) else id

unfoldable pub tool_index : Text → List (Text × ℕ) → Option ℕ
tool_index key [] = none
tool_index key ((k, i) ∷ rest) = if text_eq k key then some i else tool_index key rest

unfoldable pub close_at : Option ℕ → Decoder → Decoder × List Event
close_at o d = let (em, out) = close_option d.em o in (record d { em = em }, out)

unfoldable pub take_text : Decoder → Decoder × List Event
take_text d = let (em, out) = close_option d.em d.text in (record d { em = em; text = none }, out)

unfoldable pub take_reasoning : Decoder → Decoder × List Event
take_reasoning d =
    let (em, out) = close_option d.em d.reasoning in (record d { em = em; reasoning = none }, out)

unfoldable pub close_prose : Decoder → Decoder × List Event
close_prose d = and_push (take_text d) take_reasoning

-- `open_tool` once the prose is closed; the index of the call is `d.em.next`.
unfoldable pub push_tool : Text → Value → Decoder → Decoder × List Event
push_tool key item d =
    let kind = BlockKind.tool_call (call_id item) (str_of item (codes "name")) in
    let (em, out) = open_block d.em kind in
    (record d { em = em; tools = d.tools ++ (key, d.em.next) ∷ [] }, out)

unfoldable pub open_tool : Text → Value → Decoder → Decoder × List Event
open_tool key item d = and_push (close_prose d) (push_tool key item)

-- Opening the prose, whose index is `d.em.next`, with its first text.
unfoldable pub open_prose : (reasoning : Bool) → Text → Decoder → Decoder × List Event
open_prose true words d =
    let (em, out) = open_block d.em BlockKind.reasoning in
    (
      record d { em = em; reasoning = some d.em.next; text = none },
      out ++ push_delta d.em.next words,
    )
open_prose false words d =
    let (em, out) = open_block d.em BlockKind.text in
    (
      record d { em = em; text = some d.em.next; reasoning = none },
      out ++ push_delta d.em.next words,
    )

-- `prose` and the delta that follows it, from the block of this kind and the one of the other.
unfoldable pub prose_at :
    (reasoning : Bool) (mine other : Option ℕ) → Text → Decoder → Decoder × List Event
prose_at reasoning (some i) other words d = (d, push_delta i words)
prose_at reasoning none other words d = and_push (close_at other d) (open_prose reasoning words)

unfoldable pub prose : (reasoning : Bool) → Text → Decoder → Decoder × List Event
prose true words d = prose_at true d.reasoning d.text words d
prose false words d = prose_at false d.text d.reasoning words d

unfoldable pub arguments_at : Option ℕ → Text → Decoder → Decoder × List Event
arguments_at none words d = (d, [])
arguments_at (some i) words d = (d, push_delta i words)

-- A call that arrives only as a finished item: it opens, takes its arguments and closes.
unfoldable pub whole_call : Text → Value → Decoder → Decoder × List Event
whole_call key item d = and_push (push_tool key item d) (λ d1.
    and_push (d1, push_delta d.em.next (str_of item (codes "arguments")))
      (close_at (some d.em.next)))

unfoldable pub call_done : Text → Value → Option ℕ → Decoder → Decoder × List Event
call_done key item (some i) d = close_at (some i) d
call_done key item none d = and_push (close_prose d) (whole_call key item)

unfoldable pub item_done : Value → Value → Decoder → Decoder × List Event
item_done v item d =
    let type = str_of item (codes "type") in
    let key = item_key v (str_of item (codes "id")) in
    if text_eq type (codes "function_call")
    then call_done key item (tool_index key d.tools) d
    else if text_eq type (codes "message")
    then take_text d
    else if text_eq type (codes "reasoning")
    then take_reasoning d
    else (d, [])

unfoldable pub item_added : Value → Value → Decoder → Decoder × List Event
item_added v item d =
    if text_eq (str_of item (codes "type")) (codes "function_call")
    then open_tool (item_key v (str_of item (codes "id"))) item d
    else (d, [])

unfoldable pub on_type : Value → Value → Decoder → Decoder × List Event
on_type v item d =
    let type = str_of v (codes "type") in
    let words = str_of v (codes "delta") in
    if text_eq type (codes "response.output_item.added")
    then item_added v item d
    else if text_eq type (codes "response.output_text.delta")
    then prose false words d
    else if text_eq type (codes "response.reasoning_summary_text.delta")
        || text_eq type (codes "response.reasoning_text.delta")
    then prose true words d
    else if text_eq type (codes "response.function_call_arguments.delta")
    then arguments_at (tool_index (item_key v (str_of v (codes "item_id"))) d.tools) words d
    else if text_eq type (codes "response.output_item.done")
    then item_done v item d
    else (d, [])

unfoldable pub start_with : Value → Decoder → Decoder × List Event
start_with r d =
    let (em, out) = start d.em (str_of r (codes "id")) (str_of r (codes "model")) in
    (record d { em = em }, out)

abbrev pub stop_of : Decoder → Option StopReason
stop_of d = if d.incomplete then some StopReason.max_tokens else none

-- `finish` of the stream decoder.
abbrev pub end_stream : Decoder → Decoder × List Event
end_stream d = let (em, out) = finish d.em (stop_of d) in (record d { em = em }, out)

module _ (fl : Floats) (parse_json : Text → Option Value) where
  unfoldable pub note_usage : Option Value → Decoder → Decoder × List Event
  note_usage none d = (d, [])
  note_usage (some u) d =
      (if is_null u then d else record d { em = report d.em (parse_usage fl u) }, [])

  unfoldable pub note_status : Text → Decoder → Decoder × List Event
  note_status status d =
      (if text_eq status (codes "incomplete") then record d { incomplete = true } else d, [])

  unfoldable pub on_response : Option Value → Decoder → Decoder × List Event
  on_response none d = (d, [])
  on_response (some r) d =
      and_push (and_push (start_with r d) (note_usage (get (codes "usage") r)))
        (note_status (str_of r (codes "status")))

  -- `value`, of a payload that is JSON.
  unfoldable pub value : Value → Decoder → Decoder × List Event
  value v d =
      and_push (on_response (get (codes "response") v) d)
        (on_type v (get_or (get (codes "item") v) null))

  unfoldable pub on_value : Option Value → Decoder → Decoder × List Event
  on_value none d = (d, [])
  on_value (some v) d = value v d

  unfoldable pub frame : SseFrame → Decoder → Decoder × List Event
  frame f d = if is_done f then (d, []) else on_value (json parse_json f) d

  -- The frames of a stream, in order, then its end.
  unfoldable pub frames : List SseFrame → Decoder → Decoder × List Event
  frames [] d = end_stream d
  frames (f ∷ fs) d = and_push (frame f d) (frames fs)
