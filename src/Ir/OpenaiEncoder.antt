-- ===== src/Ir/OpenaiEncoder.antt =====
-- `Encoder` of src/domain/ir/openai.rs: events to the chunks that an OpenAI client reads. `uuid` and
-- `now` are what the library would draw for a new encoder.
use local_proxy.Base.{
  ℕ, suc, Bool, true, false, ◌||◌, Option, none, some, List, [], ◌∷◌, ◌++◌, ◌==◌, if◌then◌else◌,
  Text, is_empty, codes, ltb,
}
use local_proxy.Ir.AnthropicEncoder.{kind_of, new_id}
use local_proxy.Ir.Types.{Event, BlockKind, StopReason}
use local_proxy.Json.{Value, null, string, obj, arr, nat}
use local_proxy.Usage.{TokenUsage, no_usage, openai_usage}

pub record Encoder : Type 0 where
  pub id : Text
  pub model : Text
  pub created : ℕ
  pub started : Bool
  pub usage : TokenUsage
  pub kinds : List (ℕ × BlockKind)
  pub tools : List ℕ

unfoldable pub new_encoder : (uuid : Text) (now : ℕ) (model : Text) → Encoder
new_encoder uuid now model = record {
  id = new_id (codes "chatcmpl") uuid;
  model = model;
  created = now;
  started = false;
  usage = no_usage;
  kinds = [];
  tools = [];
}

unfoldable pub finish_str : StopReason → Text
finish_str StopReason.end_turn = codes "stop"
finish_str StopReason.stop_sequence = codes "stop"
finish_str StopReason.max_tokens = codes "length"
finish_str StopReason.tool_use = codes "tool_calls"

abbrev pub finish_value : Option Text → Value
finish_value none = null
finish_value (some s) = string s

abbrev pub suc_option : Option ℕ → Option ℕ
suc_option none = none
suc_option (some n) = some (suc n)

-- `tools.iter().position(..)`.
unfoldable pub position : ℕ → List ℕ → Option ℕ
position i [] = none
position i (j ∷ js) = let later = suc_option (position i js) in if j == i then some 0 else later

unfoldable pub tool_ordinal : ℕ → List ℕ → ℕ
tool_ordinal i tools = elim (position i tools) [ none ↦ 0 | some n ↦ n ]

abbrev pub chunk_fields : Encoder → Value → Option Text → List (Text × Value)
chunk_fields enc delta finish =
    (codes "id", string enc.id)
    ∷ (codes "object", string (codes "chat.completion.chunk"))
    ∷ (codes "created", nat enc.created)
    ∷ (codes "model", string enc.model)
    ∷ (
      codes "choices",
      arr (
          obj (
            (codes "index", nat 0)
            ∷ (codes "delta", delta)
            ∷ (codes "finish_reason", finish_value finish)
            ∷ [])
          ∷ []),
    )
    ∷ []

unfoldable pub chunk : Encoder → Value → Option Text → Value
chunk enc delta finish = obj (chunk_fields enc delta finish)

abbrev pub tool_calls : Value → Value
tool_calls call = obj ((codes "tool_calls", arr (call ∷ [])) ∷ [])

unfoldable pub role_delta : Value
role_delta = obj ((codes "role", string (codes "assistant")) ∷ [])

unfoldable pub tool_start : ℕ → (id name : Text) → Value
tool_start n id name = tool_calls (
    obj (
      (codes "index", nat n)
      ∷ (codes "id", string id)
      ∷ (codes "type", string (codes "function"))
      ∷ (codes "function", obj ((codes "name", string name) ∷ (codes "arguments", string []) ∷ []))
      ∷ []))

unfoldable pub tool_arguments : ℕ → Text → Value
tool_arguments n words = tool_calls (
    obj (
      (codes "index", nat n)
      ∷ (codes "function", obj ((codes "arguments", string words) ∷ []))
      ∷ []))

unfoldable pub delta_value : Option BlockKind → ℕ → Text → Value
delta_value (some BlockKind.reasoning) n words =
    obj ((codes "reasoning_content", string words) ∷ [])
delta_value (some (BlockKind.tool_call id name)) n words = tool_arguments n words
delta_value (some BlockKind.text) n words = obj ((codes "content", string words) ∷ [])
delta_value none n words = obj ((codes "content", string words) ∷ [])

abbrev pub done_line : Value
done_line = string (codes "[DONE]")

-- The last chunk, with the usage if any was reported.
unfoldable pub last_chunk : Encoder → StopReason → Value
last_chunk enc stop =
    if ltb 0 enc.usage.input || ltb 0 enc.usage.output
    then obj (
        (codes "usage", openai_usage enc.usage)
        ∷ chunk_fields enc (obj []) (some (finish_str stop)))
    else chunk enc (obj []) (some (finish_str stop))

abbrev pub id_or : Text → Event → Text
id_or id (Event.start given model) = if is_empty given then id else given
id_or id _ = id

-- The first event also opens the stream.
unfoldable pub open_chunks : Event → Encoder → Encoder × List Value
open_chunks e enc =
    let opened = record enc { started = true; id = id_or enc.id e } in
    if enc.started then (enc, []) else (opened, chunk opened role_delta none ∷ [])

unfoldable pub on_block : ℕ → BlockKind → Encoder → Encoder × List Value
on_block i (BlockKind.tool_call id name) enc =
    let enc' = record enc {
      kinds = enc.kinds ++ (i, BlockKind.tool_call id name) ∷ [];
      tools = enc.tools ++ i ∷ [];
    } in
    (enc', chunk enc' (tool_start (tool_ordinal i enc'.tools) id name) none ∷ [])
on_block i BlockKind.text enc = (record enc { kinds = enc.kinds ++ (i, BlockKind.text) ∷ [] }, [])
on_block i BlockKind.reasoning enc =
    (record enc { kinds = enc.kinds ++ (i, BlockKind.reasoning) ∷ [] }, [])

unfoldable pub on_event : Encoder → Event → Encoder × List Value
on_event enc (Event.start id model) = (enc, [])
on_event enc (Event.block_start i kind) = on_block i kind enc
on_event enc (Event.delta i words) =
    (enc, chunk enc (delta_value (kind_of i enc.kinds) (tool_ordinal i enc.tools) words) none ∷ [])
on_event enc (Event.block_stop i) = (enc, [])
on_event enc (Event.usage u) = (record enc { usage = u }, [])
on_event enc (Event.finish stop) = (enc, last_chunk enc stop ∷ done_line ∷ [])

unfoldable pub event : Event → Encoder → Encoder × List Value
event e enc =
    let (opened, out) = open_chunks e enc in
    let (enc', more) = on_event opened e in (enc', out ++ more)
