-- ===== src/Ir/AnthropicEncoder.antt =====
-- `Encoder` of src/domain/ir/anthropic.rs: events to the payloads that an Anthropic client reads.
-- `uuid` is the identifier that the library would draw for a message without one.
use local_proxy.Base.{
  ℕ, Bool, true, false, Option, none, some, List, [], ◌∷◌, ◌++◌, ◌==◌, if◌then◌else◌, Text,
  is_empty, codes,
}
use local_proxy.Ir.Types.{Event, BlockKind, StopReason}
use local_proxy.Json.{Value, null, string, obj, arr, nat}
use local_proxy.Usage.{TokenUsage, no_usage, anthropic_usage}

pub record Encoder : Type 0 where
  pub model : Text
  pub usage : TokenUsage
  pub started : Bool
  pub kinds : List (ℕ × BlockKind)

unfoldable pub new_encoder : Text → Encoder
new_encoder model = record { model = model; usage = no_usage; started = false; kinds = [] }

-- `new_id`.
unfoldable pub new_id : (prefix uuid : Text) → Text
new_id prefix uuid = prefix ++ codes "_" ++ uuid

unfoldable pub kind_of : ℕ → List (ℕ × BlockKind) → Option BlockKind
kind_of index [] = none
kind_of index ((i, k) ∷ rest) = if i == index then some k else kind_of index rest

unfoldable pub stop_str : StopReason → Text
stop_str StopReason.end_turn = codes "end_turn"
stop_str StopReason.max_tokens = codes "max_tokens"
stop_str StopReason.tool_use = codes "tool_use"
stop_str StopReason.stop_sequence = codes "stop_sequence"

-- The payloads.
unfoldable pub message_start : (id model : Text) → TokenUsage → Value
message_start id model usage = obj (
    (codes "type", string (codes "message_start"))
    ∷ (
      codes "message",
      obj (
          (codes "id", string id)
          ∷ (codes "type", string (codes "message"))
          ∷ (codes "role", string (codes "assistant"))
          ∷ (codes "model", string model)
          ∷ (codes "content", arr [])
          ∷ (codes "stop_reason", null)
          ∷ (codes "stop_sequence", null)
          ∷ (codes "usage", anthropic_usage usage)
          ∷ []),
    )
    ∷ [])

unfoldable pub content_block : BlockKind → Value
content_block BlockKind.text =
    obj ((codes "type", string (codes "text")) ∷ (codes "text", string []) ∷ [])
content_block BlockKind.reasoning =
    obj ((codes "type", string (codes "thinking")) ∷ (codes "thinking", string []) ∷ [])
content_block (BlockKind.tool_call id name) = obj (
    (codes "type", string (codes "tool_use"))
    ∷ (codes "id", string id)
    ∷ (codes "name", string name)
    ∷ (codes "input", obj [])
    ∷ [])

unfoldable pub block_start : ℕ → BlockKind → Value
block_start index kind = obj (
    (codes "type", string (codes "content_block_start"))
    ∷ (codes "index", nat index)
    ∷ (codes "content_block", content_block kind)
    ∷ [])

unfoldable pub delta_value : Option BlockKind → Text → Value
delta_value (some BlockKind.reasoning) words =
    obj ((codes "type", string (codes "thinking_delta")) ∷ (codes "thinking", string words) ∷ [])
delta_value (some (BlockKind.tool_call id name)) words =
    obj (
      (codes "type", string (codes "input_json_delta")) ∷ (codes "partial_json", string words) ∷ [])
delta_value (some BlockKind.text) words =
    obj ((codes "type", string (codes "text_delta")) ∷ (codes "text", string words) ∷ [])
delta_value none words =
    obj ((codes "type", string (codes "text_delta")) ∷ (codes "text", string words) ∷ [])

unfoldable pub block_delta : ℕ → Option BlockKind → Text → Value
block_delta index kind words = obj (
    (codes "type", string (codes "content_block_delta"))
    ∷ (codes "index", nat index)
    ∷ (codes "delta", delta_value kind words)
    ∷ [])

unfoldable pub block_stop : ℕ → Value
block_stop index =
    obj ((codes "type", string (codes "content_block_stop")) ∷ (codes "index", nat index) ∷ [])

unfoldable pub message_delta : StopReason → TokenUsage → Value
message_delta stop usage = obj (
    (codes "type", string (codes "message_delta"))
    ∷ (
      codes "delta",
      obj ((codes "stop_reason", string (stop_str stop)) ∷ (codes "stop_sequence", null) ∷ []),
    )
    ∷ (codes "usage", anthropic_usage usage)
    ∷ [])

unfoldable pub message_stop : Value
message_stop = obj ((codes "type", string (codes "message_stop")) ∷ [])

module _ (uuid : Text) where
  -- `start`: the message opens once.
  unfoldable pub open_message : Text → Encoder → Encoder × List Value
  open_message id enc = if enc.started then (enc, []) else (
    record enc { started = true },
    message_start (if is_empty id then new_id (codes "msg") uuid else id) enc.model enc.usage ∷ [],
  )

  -- The `match` behind the start.
  unfoldable pub on_event : Encoder → Event → Encoder × List Value
  on_event enc (Event.start id model) = (enc, [])
  on_event enc (Event.block_start i kind) =
      (record enc { kinds = enc.kinds ++ (i, kind) ∷ [] }, block_start i kind ∷ [])
  on_event enc (Event.delta i words) = (enc, block_delta i (kind_of i enc.kinds) words ∷ [])
  on_event enc (Event.block_stop i) = (enc, block_stop i ∷ [])
  on_event enc (Event.usage u) = (record enc { usage = u }, [])
  on_event enc (Event.finish stop) = (enc, message_delta stop enc.usage ∷ message_stop ∷ [])

  abbrev pub id_of : Event → Text
  id_of (Event.start id model) = id
  id_of _ = []

  -- A start event only opens the message; any other opens it first if need be.
  unfoldable pub event : Event → Encoder → Encoder × List Value
  event e enc =
      let (opened, out) = open_message (id_of e) enc in
      let (enc', more) = on_event opened e in (enc', out ++ more)
