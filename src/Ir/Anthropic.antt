-- ===== src/Ir/Anthropic.antt =====
-- `Decoder` of src/domain/ir/anthropic.rs: Anthropic stream events to the representation's. The
-- upstream names its blocks; `blocks` maps its indices to ours.
use local_proxy.Base.{
  ℕ, Bool, true, false, Option, none, some, List, [], ◌∷◌, ◌++◌, ◌==◌, ◌||◌, if◌then◌else◌, Text,
  text_eq, codes,
}
use local_proxy.Ir.Emitter.{
  Emitter, new_emitter, start, open_block, push_delta, close, report, finish, and_push,
}
use local_proxy.Ir.Types.{Event, BlockKind, StopReason}
use local_proxy.Json.{Value, null, get, as_str, str_of, nat_of, and_then, get_or}
use local_proxy.Sse.Frame.{SseFrame, json}
use local_proxy.Usage.{Floats, parse_usage}

pub record Decoder : Type 0 where
  pub em : Emitter
  pub blocks : List (ℕ × ℕ)
  pub stop : Option StopReason

abbrev pub new_decoder : Decoder
new_decoder = record { em = new_emitter; blocks = []; stop = none }

unfoldable pub stop_from : Text → StopReason
stop_from s =
    if text_eq s (codes "tool_use")
    then StopReason.tool_use
    else if text_eq s (codes "max_tokens") || text_eq s (codes "max_tokens_reached")
    then StopReason.max_tokens
    else if text_eq s (codes "stop_sequence")
    then StopReason.stop_sequence
    else StopReason.end_turn

-- `ir_index`.
unfoldable pub ir_index : ℕ → List (ℕ × ℕ) → Option ℕ
ir_index upstream [] = none
ir_index upstream ((u, i) ∷ rest) = if u == upstream then some i else ir_index upstream rest

-- `em.open` and `blocks.push`; the index of the block is `d.em.next`.
unfoldable pub open_at : ℕ → BlockKind → Decoder → Decoder × List Event
open_at upstream kind d =
    let (em, out) = open_block d.em kind in
    (record d { em = em; blocks = d.blocks ++ (upstream, d.em.next) ∷ [] }, out)

-- The kind of a `content_block`; none for a type that is not known.
unfoldable pub block_kind : Value → Option BlockKind
block_kind b =
    let type = str_of b (codes "type") in
    if text_eq type (codes "text")
    then some BlockKind.text
    else if text_eq type (codes "thinking")
    then some BlockKind.reasoning
    else if text_eq type (codes "tool_use")
    then some (BlockKind.tool_call (str_of b (codes "id")) (str_of b (codes "name")))
    else none

unfoldable pub on_block_start : ℕ → Option BlockKind → Decoder → Decoder × List Event
on_block_start upstream none d = (d, [])
on_block_start upstream (some kind) d = open_at upstream kind d

unfoldable pub delta_text : Value → Option Text
delta_text delta =
    let type = str_of delta (codes "type") in
    if text_eq type (codes "text_delta")
    then some (str_of delta (codes "text"))
    else if text_eq type (codes "thinking_delta")
    then some (str_of delta (codes "thinking"))
    else if text_eq type (codes "input_json_delta")
    then some (str_of delta (codes "partial_json"))
    else none

-- A text delta opens its block if the upstream did not; any other delta for no block is dropped.
unfoldable pub delta_at : ℕ → (is_text : Bool) → Text → Decoder → Option ℕ → Decoder × List Event
delta_at upstream is_text words d (some i) = (d, push_delta i words)
delta_at upstream true words d none =
    and_push (open_at upstream BlockKind.text d) (λ d'. (d', push_delta d.em.next words))
delta_at upstream false words d none = (d, [])

unfoldable pub on_delta : ℕ → (is_text : Bool) → Option Text → Decoder → Decoder × List Event
on_delta upstream is_text none d = (d, [])
on_delta upstream is_text (some words) d =
    delta_at upstream is_text words d (ir_index upstream d.blocks)

unfoldable pub on_block_stop : Option ℕ → Decoder → Decoder × List Event
on_block_stop none d = (d, [])
on_block_stop (some i) d = let (em, out) = close d.em i in (record d { em = em }, out)

unfoldable pub note_stop : Option Text → Decoder → Decoder × List Event
note_stop none d = (d, [])
note_stop (some reason) d = (record d { stop = some (stop_from reason) }, [])

unfoldable pub on_start : Value → Decoder → Decoder × List Event
on_start message d =
    let (em, out) = start d.em (str_of message (codes "id")) (str_of message (codes "model")) in
    (record d { em = em }, out)

-- `finish` of the stream decoder.
abbrev pub end_stream : Decoder → Decoder × List Event
end_stream d = let (em, out) = finish d.em d.stop in (record d { em = em }, out)

module _ (fl : Floats) (parse_json : Text → Option Value) where
  unfoldable pub note_usage : Option Value → Decoder → Decoder × List Event
  note_usage none d = (d, [])
  note_usage (some u) d = (record d { em = report d.em (parse_usage fl u) }, [])

  unfoldable pub on_message_start : Value → Decoder → Decoder × List Event
  on_message_start message d =
      and_push (on_start message d) (note_usage (get (codes "usage") message))

  unfoldable pub on_message_delta : Value → Decoder → Decoder × List Event
  on_message_delta v d =
      and_push
        (note_stop (and_then (and_then (get (codes "delta") v) (get (codes "stop_reason"))) as_str)
          d)
        (note_usage (get (codes "usage") v))

  unfoldable pub on_value : Option Value → Decoder → Decoder × List Event
  on_value none d = (d, [])
  on_value (some v) d =
      let upstream = get_or (nat_of v (codes "index")) 0 in
      let type = str_of v (codes "type") in
      let delta = get_or (get (codes "delta") v) null in
      if text_eq type (codes "message_start")
      then on_message_start (get_or (get (codes "message") v) null) d
      else if text_eq type (codes "content_block_start")
      then on_block_start upstream (block_kind (get_or (get (codes "content_block") v) null)) d
      else if text_eq type (codes "content_block_delta")
      then on_delta upstream (text_eq (str_of delta (codes "type")) (codes "text_delta"))
          (delta_text delta) d
      else if text_eq type (codes "content_block_stop")
      then on_block_stop (ir_index upstream d.blocks) d
      else if text_eq type (codes "message_delta")
      then on_message_delta v d
      else (d, [])

  unfoldable pub frame : SseFrame → Decoder → Decoder × List Event
  frame f d = on_value (json parse_json f) d

  -- The frames of a stream, in order, then its end.
  unfoldable pub frames : List SseFrame → Decoder → Decoder × List Event
  frames [] d = end_stream d
  frames (f ∷ fs) d = and_push (frame f d) (frames fs)
