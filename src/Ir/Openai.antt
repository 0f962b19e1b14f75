-- ===== src/Ir/Openai.antt =====
-- `Decoder` of src/domain/ir/openai.rs: OpenAI chunks to events. Blocks are implicit in this format:
-- text and reasoning close when another kind starts, tool calls stay open until the end.
use local_proxy.Base.{
  ℕ, Option, none, some, List, [], ◌∷◌, ◌++◌, ◌==◌, ◌||◌, if◌then◌else◌, Text, text_eq, is_empty,
  codes, show_nat,
}
use local_proxy.Ir.Emitter.{
  Emitter, new_emitter, start, open_block, push_delta, close, report, finish, and_push,
}
use local_proxy.Ir.Types.{Event, BlockKind, StopReason}
use local_proxy.Json.{
  Value, null, get, as_str, is_null, str_of, nat_of, elements_of, first_of, and_then, or_none,
  get_or,
}
use local_proxy.Sse.Frame.{SseFrame, is_done, json}
use local_proxy.Usage.{Floats, parse_usage}

-- `tools` maps an upstream call's index to the index of its block.
pub record Decoder : Type 0 where
  pub em : Emitter
  pub text : Option ℕ
  pub reasoning : Option ℕ
  pub tools : List (ℕ × ℕ)
  pub stop : Option StopReason

abbrev pub new_decoder : Decoder
new_decoder = record { em = new_emitter; text = none; reasoning = none; tools = []; stop = none }

unfoldable pub stop_from : Text → Option StopReason
stop_from s =
    if text_eq s (codes "tool_calls")
      || (text_eq s (codes "tool_call") || text_eq s (codes "function_call"))
    then some StopReason.tool_use
    else if text_eq s (codes "length") || text_eq s (codes "max_tokens")
    then some StopReason.max_tokens
    else if text_eq s (codes "stop") || is_empty s
    then none
    else some StopReason.end_turn

-- `self.text.take()`, closing the block that was open, and the same for reasoning.
unfoldable pub close_option : Emitter → Option ℕ → Emitter × List Event
close_option e none = (e, [])
close_option e (some i) = close e i

unfoldable pub take_text : Decoder → Decoder × List Event
take_text d = let (em, out) = close_option d.em d.text in (record d { em = em; text = none }, out)

unfoldable pub take_reasoning : Decoder → Decoder × List Event
take_reasoning d =
    let (em, out) = close_option d.em d.reasoning in (record d { em = em; reasoning = none }, out)

unfoldable pub close_prose : Decoder → Decoder × List Event
close_prose d = and_push (take_text d) take_reasoning

-- Opening a block; its index is `d.em.next`.
unfoldable pub open_reasoning : Text → Decoder → Decoder × List Event
open_reasoning words d =
    let (em, out) = open_block d.em BlockKind.reasoning in
    (record d { em = em; reasoning = some d.em.next }, out ++ push_delta d.em.next words)

unfoldable pub open_text : Text → Decoder → Decoder × List Event
open_text words d =
    let (em, out) = open_block d.em BlockKind.text in
    (record d { em = em; text = some d.em.next }, out ++ push_delta d.em.next words)

unfoldable pub open_tool : ℕ → BlockKind → Text → Decoder → Decoder × List Event
open_tool upstream kind words d =
    let (em, out) = open_block d.em kind in
    (
      record d { em = em; tools = d.tools ++ (upstream, d.em.next) ∷ [] },
      out ++ push_delta d.em.next words,
    )

unfoldable pub reasoning_at : Decoder → Text → Option ℕ → Decoder × List Event
reasoning_at d words (some i) = (d, push_delta i words)
reasoning_at d words none = and_push (take_text d) (open_reasoning words)

unfoldable pub reasoning_delta : Text → Decoder → Decoder × List Event
reasoning_delta words d = if is_empty words then (d, []) else reasoning_at d words d.reasoning

unfoldable pub text_at : Decoder → Text → Option ℕ → Decoder × List Event
text_at d words (some i) = (d, push_delta i words)
text_at d words none = and_push (take_reasoning d) (open_text words)

unfoldable pub text_delta : Text → Decoder → Decoder × List Event
text_delta words d = if is_empty words then (d, []) else text_at d words d.text

unfoldable pub find_tool : ℕ → List (ℕ × ℕ) → Option ℕ
find_tool upstream [] = none
find_tool upstream ((u, i) ∷ rest) = if u == upstream then some i else find_tool upstream rest

unfoldable pub tool_at : ℕ → BlockKind → Text → Decoder → Option ℕ → Decoder × List Event
tool_at upstream kind words d (some i) = (d, push_delta i words)
tool_at upstream kind words d none = and_push (close_prose d) (open_tool upstream kind words)

unfoldable pub tool_kind : ℕ → Value → BlockKind
tool_kind upstream tc =
    let id = str_of tc (codes "id") in
    BlockKind.tool_call (if is_empty id then codes "toolu_" ++ show_nat upstream else id)
      (str_of (get_or (get (codes "function") tc) null) (codes "name"))

unfoldable pub tool_delta : Value → Decoder → Decoder × List Event
tool_delta tc d =
    let upstream = get_or (nat_of tc (codes "index")) 0 in
    tool_at upstream (tool_kind upstream tc)
      (str_of (get_or (get (codes "function") tc) null) (codes "arguments")) d
      (find_tool upstream d.tools)

unfoldable pub tool_deltas : List Value → Decoder → Decoder × List Event
tool_deltas [] d = (d, [])
tool_deltas (tc ∷ tcs) d = and_push (tool_delta tc d) (tool_deltas tcs)

unfoldable pub note_stop : Option Text → Decoder → Decoder × List Event
note_stop none d = (d, [])
note_stop (some reason) d = (record d { stop = stop_from reason }, [])

unfoldable pub reasoning_of : Value → Text
reasoning_of delta =
    get_or
      (and_then (or_none (get (codes "reasoning_content") delta) (get (codes "reasoning") delta))
        as_str)
      []

unfoldable pub choice_delta : Value → Value
choice_delta choice = get_or (get (codes "delta") choice) null

unfoldable pub prose_deltas : Value → Decoder → Decoder × List Event
prose_deltas delta d =
    and_push (reasoning_delta (reasoning_of delta) d) (text_delta (str_of delta (codes "content")))

unfoldable pub deltas : Value → Decoder → Decoder × List Event
deltas delta d =
    and_push (prose_deltas delta d) (tool_deltas (elements_of delta (codes "tool_calls")))

unfoldable pub on_choice : Option Value → Decoder → Decoder × List Event
on_choice none d = (d, [])
on_choice (some choice) d =
    and_push (deltas (choice_delta choice) d)
      (note_stop (and_then (get (codes "finish_reason") choice) as_str))

unfoldable pub start_with : Value → Decoder → Decoder × List Event
start_with v d =
    let (em, out) = start d.em (str_of v (codes "id")) (str_of v (codes "model")) in
    (record d { em = em }, out)

-- `finish` of the stream decoder.
abbrev pub end_stream : Decoder → Decoder × List Event
end_stream d = let (em, out) = finish d.em d.stop in (record d { em = em }, out)

module _ (fl : Floats) (parse_json : Text → Option Value) where
  unfoldable pub note_usage : Option Value → Decoder → Decoder × List Event
  note_usage none d = (d, [])
  note_usage (some u) d =
      (if is_null u then d else record d { em = report d.em (parse_usage fl u) }, [])

  unfoldable pub open_value : Value → Decoder → Decoder × List Event
  open_value v d = and_push (start_with v d) (note_usage (get (codes "usage") v))

  unfoldable pub on_value : Option Value → Decoder → Decoder × List Event
  on_value none d = (d, [])
  on_value (some v) d = and_push (open_value v d) (on_choice (first_of v (codes "choices")))

  unfoldable pub frame : SseFrame → Decoder → Decoder × List Event
  frame f d = if is_done f then (d, []) else on_value (json parse_json f) d

  -- The frames of a stream, in order, then its end.
  unfoldable pub frames : List SseFrame → Decoder → Decoder × List Event
  frames [] d = end_stream d
  frames (f ∷ fs) d = and_push (frame f d) (frames fs)
