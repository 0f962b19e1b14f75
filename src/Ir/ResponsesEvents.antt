-- ===== src/Ir/ResponsesEvents.antt =====
-- `event` of the encoder of src/domain/ir/responses.rs.
use local_proxy.Base.{
  ℕ, ◌+◌, ◌%◌, true, Option, none, some, List, [], ◌∷◌, ◌++◌, ◌==◌, if◌then◌else◌, Text, is_empty,
  codes, show_nat,
}
use local_proxy.Ir.Emitter.{u32_mod}
use local_proxy.Ir.OpenaiEncoder.{id_or}
use local_proxy.Ir.ResponsesEncoder.{
  OpenItem, Encoder, message_item, function_item, created, completed, item_added, part_added,
  text_delta, arguments_delta, text_done, arguments_done, item_done, new_message, new_call,
}
use local_proxy.Ir.Types.{Event, BlockKind}
use local_proxy.Json.{Value}

unfoldable pub open_response : Event → Encoder → Encoder × List Value
open_response e enc =
    let opened = record enc { started = true; id = id_or enc.id e } in
    if enc.started then (enc, []) else (opened, created opened ∷ [])

unfoldable pub id_of_item : BlockKind → ℕ → Text
id_of_item BlockKind.text n = codes "msg_" ++ show_nat n
id_of_item (BlockKind.tool_call id name) n = if is_empty id then codes "call_" ++ show_nat n else id
id_of_item BlockKind.reasoning n = []

abbrev pub new_item : ℕ → BlockKind → ℕ → OpenItem
new_item i kind n = record {
  index = i;
  kind = kind;
  output_index = n;
  item_id = id_of_item kind n;
  acc = [];
}

-- Reasoning is kept, but not shown to the client.
unfoldable pub on_block : ℕ → BlockKind → Encoder → Encoder × List Value
on_block i BlockKind.text enc =
    let it = new_item i BlockKind.text enc.next_output in
    (
      record enc { next_output = (enc.next_output + 1) % u32_mod; opened = enc.opened ++ it ∷ [] },
      item_added enc.next_output (new_message it.item_id) ∷ part_added it ∷ [],
    )
on_block i (BlockKind.tool_call id name) enc =
    let it = new_item i (BlockKind.tool_call id name) enc.next_output in
    (
      record enc { next_output = (enc.next_output + 1) % u32_mod; opened = enc.opened ++ it ∷ [] },
      item_added enc.next_output (new_call it.item_id name) ∷ [],
    )
on_block i BlockKind.reasoning enc =
    let it = new_item i BlockKind.reasoning enc.next_output in
    (record enc { opened = enc.opened ++ it ∷ [] }, [])

unfoldable pub find_item : ℕ → List OpenItem → Option OpenItem
find_item i [] = none
find_item i (it ∷ its) = if it.index == i then some it else find_item i its

-- `it.acc.push_str(text)` of the first item with the index.
unfoldable pub push_text : ℕ → Text → List OpenItem → List OpenItem
push_text i words [] = []
push_text i words (it ∷ its) =
    let rest = it ∷ push_text i words its in
    if it.index == i then record it { acc = it.acc ++ words } ∷ its else rest

unfoldable pub remove_item : ℕ → List OpenItem → List OpenItem
remove_item i [] = []
remove_item i (it ∷ its) = let rest = it ∷ remove_item i its in if it.index == i then its else rest

unfoldable pub delta_of : BlockKind → OpenItem → Text → List Value
delta_of BlockKind.text it words = text_delta it words ∷ []
delta_of (BlockKind.tool_call id name) it words = arguments_delta it words ∷ []
delta_of BlockKind.reasoning it words = []

unfoldable pub delta_at : Option OpenItem → Text → List Value
delta_at none words = []
delta_at (some it) words = delta_of it.kind it words

unfoldable pub close_item : BlockKind → OpenItem → Encoder → Encoder × List Value
close_item BlockKind.text it enc =
    let item = message_item it.item_id it.acc in
    (record enc { items = enc.items ++ item ∷ [] }, text_done it ∷ item_done it item ∷ [])
close_item (BlockKind.tool_call id name) it enc =
    let item = function_item it.item_id name it.acc in
    (record enc { items = enc.items ++ item ∷ [] }, arguments_done it ∷ item_done it item ∷ [])
close_item BlockKind.reasoning it enc = (enc, [])

unfoldable pub stop_at : Option OpenItem → Encoder → Encoder × List Value
stop_at none enc = (enc, [])
stop_at (some it) enc = close_item it.kind it enc

unfoldable pub on_event : Encoder → Event → Encoder × List Value
on_event enc (Event.start id model) = (enc, [])
on_event enc (Event.block_start i kind) = on_block i kind enc
on_event enc (Event.delta i words) =
    (record enc { opened = push_text i words enc.opened }, delta_at (find_item i enc.opened) words)
on_event enc (Event.block_stop i) =
    stop_at (find_item i enc.opened) (record enc { opened = remove_item i enc.opened })
on_event enc (Event.usage u) = (record enc { usage = u }, [])
on_event enc (Event.finish stop) = (enc, completed enc ∷ [])

unfoldable pub event : Event → Encoder → Encoder × List Value
event e enc =
    let (opened, out) = open_response e enc in
    let (enc', more) = on_event opened e in (enc', out ++ more)
