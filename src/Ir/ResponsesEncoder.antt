-- ===== src/Ir/ResponsesEncoder.antt =====
-- `Encoder` of src/domain/ir/responses.rs: events to the events that a client of the Responses
-- interface reads. `uuid` and `now` are what the library would draw for a new encoder.
use local_proxy.Base.{ℕ, Bool, true, false, List, [], ◌∷◌, Text, codes}
use local_proxy.Ir.AnthropicEncoder.{new_id}
use local_proxy.Ir.Types.{BlockKind}
use local_proxy.Json.{Value, null, string, bool, obj, arr, nat}
use local_proxy.Usage.{TokenUsage, no_usage, responses_usage}

unfoldable pub message_item : (id words : Text) → Value
message_item id words = obj (
    (codes "type", string (codes "message"))
    ∷ (codes "id", string id)
    ∷ (codes "status", string (codes "completed"))
    ∷ (codes "role", string (codes "assistant"))
    ∷ (
      codes "content",
      arr (
          obj (
            (codes "type", string (codes "output_text"))
            ∷ (codes "text", string words)
            ∷ (codes "annotations", arr [])
            ∷ [])
          ∷ []),
    )
    ∷ [])

unfoldable pub function_item : (id name args : Text) → Value
function_item id name args = obj (
    (codes "type", string (codes "function_call"))
    ∷ (codes "id", string id)
    ∷ (codes "call_id", string id)
    ∷ (codes "name", string name)
    ∷ (codes "arguments", string args)
    ∷ (codes "status", string (codes "completed"))
    ∷ [])

unfoldable pub envelope :
    (id model : Text) (created_at : ℕ) (status : Text) (output : List Value) (usage : Value) → Value
envelope id model created_at status output usage = obj (
    (codes "id", string id)
    ∷ (codes "object", string (codes "response"))
    ∷ (codes "created_at", nat created_at)
    ∷ (codes "status", string status)
    ∷ (codes "model", string model)
    ∷ (codes "output", arr output)
    ∷ (codes "parallel_tool_calls", bool true)
    ∷ (codes "usage", usage)
    ∷ [])

pub record OpenItem : Type 0 where
  pub index : ℕ
  pub kind : BlockKind
  pub output_index : ℕ
  pub item_id : Text
  pub acc : Text

pub record Encoder : Type 0 where
  pub id : Text
  pub model : Text
  pub created_at : ℕ
  pub started : Bool
  pub next_output : ℕ
  pub opened : List OpenItem
  pub items : List Value
  pub usage : TokenUsage

unfoldable pub new_encoder : (uuid : Text) (now : ℕ) (model : Text) → Encoder
new_encoder uuid now model = record {
  id = new_id (codes "resp") uuid;
  model = model;
  created_at = now;
  started = false;
  next_output = 0;
  opened = [];
  items = [];
  usage = no_usage;
}

-- The payloads.
unfoldable pub created : Encoder → Value
created enc = obj (
    (codes "type", string (codes "response.created"))
    ∷ (codes "response", envelope enc.id enc.model enc.created_at (codes "in_progress") [] null)
    ∷ [])

unfoldable pub completed : Encoder → Value
completed enc = obj (
    (codes "type", string (codes "response.completed"))
    ∷ (
      codes "response",
      envelope enc.id enc.model enc.created_at (codes "completed") enc.items
          (responses_usage enc.usage),
    )
    ∷ [])

unfoldable pub item_added : ℕ → Value → Value
item_added n item = obj (
    (codes "type", string (codes "response.output_item.added"))
    ∷ (codes "output_index", nat n)
    ∷ (codes "item", item)
    ∷ [])

unfoldable pub part_added : OpenItem → Value
part_added it = obj (
    (codes "type", string (codes "response.content_part.added"))
    ∷ (codes "item_id", string it.item_id)
    ∷ (codes "output_index", nat it.output_index)
    ∷ (codes "content_index", nat 0)
    ∷ (
      codes "part",
      obj (
          (codes "type", string (codes "output_text"))
          ∷ (codes "text", string [])
          ∷ (codes "annotations", arr [])
          ∷ []),
    )
    ∷ [])

unfoldable pub text_delta : OpenItem → Text → Value
text_delta it words = obj (
    (codes "type", string (codes "response.output_text.delta"))
    ∷ (codes "item_id", string it.item_id)
    ∷ (codes "output_index", nat it.output_index)
    ∷ (codes "content_index", nat 0)
    ∷ (codes "delta", string words)
    ∷ [])

unfoldable pub arguments_delta : OpenItem → Text → Value
arguments_delta it words = obj (
    (codes "type", string (codes "response.function_call_arguments.delta"))
    ∷ (codes "item_id", string it.item_id)
    ∷ (codes "output_index", nat it.output_index)
    ∷ (codes "delta", string words)
    ∷ [])

unfoldable pub text_done : OpenItem → Value
text_done it = obj (
    (codes "type", string (codes "response.output_text.done"))
    ∷ (codes "item_id", string it.item_id)
    ∷ (codes "output_index", nat it.output_index)
    ∷ (codes "content_index", nat 0)
    ∷ (codes "text", string it.acc)
    ∷ [])

unfoldable pub arguments_done : OpenItem → Value
arguments_done it = obj (
    (codes "type", string (codes "response.function_call_arguments.done"))
    ∷ (codes "item_id", string it.item_id)
    ∷ (codes "output_index", nat it.output_index)
    ∷ (codes "arguments", string it.acc)
    ∷ [])

unfoldable pub item_done : OpenItem → Value → Value
item_done it item = obj (
    (codes "type", string (codes "response.output_item.done"))
    ∷ (codes "output_index", nat it.output_index)
    ∷ (codes "item", item)
    ∷ [])

unfoldable pub new_message : Text → Value
new_message id = obj (
    (codes "type", string (codes "message"))
    ∷ (codes "id", string id)
    ∷ (codes "status", string (codes "in_progress"))
    ∷ (codes "role", string (codes "assistant"))
    ∷ (codes "content", arr [])
    ∷ [])

unfoldable pub new_call : (id name : Text) → Value
new_call id name = obj (
    (codes "type", string (codes "function_call"))
    ∷ (codes "id", string id)
    ∷ (codes "call_id", string id)
    ∷ (codes "name", string name)
    ∷ (codes "arguments", string [])
    ∷ (codes "status", string (codes "in_progress"))
    ∷ [])
