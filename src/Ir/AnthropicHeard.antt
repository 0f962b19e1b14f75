-- ===== src/Ir/AnthropicHeard.antt =====
-- A checker of an Anthropic stream's payloads that knows which blocks are calls, beside the events of
-- `Encoder` of src/domain/ir/anthropic.rs.
use local_proxy.Base.{
  ℕ, Bool, ◌||◌, Option, some, List, [], ◌∷◌, ◌++◌, ◌≡◌, refl, arith, if◌then◌else◌, Text, text_eq,
  text_lt, codes, is_empty, none,
}
use local_proxy.Ir.AnthropicClient.{Payload, read}
use local_proxy.Ir.AnthropicEncoder.{
  Encoder, content_block, block_start, new_id, open_message, on_event, event, id_of, kind_of,
}
use local_proxy.Ir.AnthropicServed.{
  read-message_start, read-block_start, read-block_delta, read-block_stop, read-message_delta,
  read-message_stop,
}
use local_proxy.Ir.Emitter.{mem, remove, is_tool, events}
use local_proxy.Ir.Late.{Heard, hear}
use local_proxy.Ir.Steps.{steps, steps_both}
use local_proxy.Ir.Types.{Event, BlockKind}
use local_proxy.Json.{
  Value, null, get, get_or, str_of, get_field, insert_field, and_then, and_then-eq-some,
}

-- Whether a payload that starts a block starts a call.
unfoldable pub starts_call : Value → Bool
starts_call v =
    text_eq (str_of (get_or (get (codes "content_block") v) null) (codes "type")) (codes "tool_use")

unfoldable pub listen_to : Heard → Bool → Payload → Option Heard
listen_to h call (Payload.block_start i) =
    some
      (record { opened = h.opened ++ i ∷ []; calls = if call then h.calls ++ i ∷ [] else h.calls })
listen_to h call (Payload.block_delta i) = if mem i h.opened || mem i h.calls then some h else none
listen_to h call (Payload.block_stop i) = some (record h { opened = remove i h.opened })
listen_to h call Payload.message_start = some h
listen_to h call Payload.message_delta = some h
listen_to h call Payload.message_stop = some h

-- Words come for a block that is open or for a call.
abbrev pub listen : Heard → Value → Option Heard
listen h v = and_then (read v) (listen_to h (starts_call v))

starts_call-block_start :
    (i : ℕ) (kind : BlockKind) → starts_call (block_start i kind) ≡ is_tool kind
unfolding starts_call block_start content_block get_field insert_field text_eq text_lt codes
starts_call-block_start i BlockKind.text = refl
starts_call-block_start i BlockKind.reasoning = refl
starts_call-block_start i (BlockKind.tool_call id name) = refl

module _ (uuid : Text) where
  on_event-listen :
      (h g : Heard) (e : Event) (enc : Encoder)
      → hear h e ≡ some g
      → steps listen h (on_event uuid enc e).1 ≡ some g
  unfolding on_event steps hear listen_to
  on_event-listen h g (Event.start id model) enc k = k
  on_event-listen h g (Event.block_start i kind) enc k =
      ground (arith, read-block_start i kind, starts_call-block_start i kind)
  on_event-listen h g (Event.delta i words) enc k =
      ground (arith, read-block_delta i (kind_of i enc.kinds) words)
  on_event-listen h g (Event.block_stop i) enc k = ground (arith, read-block_stop i)
  on_event-listen h g (Event.usage u) enc k = k
  on_event-listen h g (Event.finish stop) enc k =
      ground (arith, read-message_delta stop enc.usage, read-message_stop)

  open_message-listen :
      (h : Heard) (id : Text) (enc : Encoder) → steps listen h (open_message uuid id enc).1 ≡ some h
  unfolding open_message steps listen_to
  open_message-listen h id enc =
      let i = if is_empty id then new_id (codes "msg") uuid else id in
      ground (arith, read-message_start i enc.model enc.usage)

  event-listen :
      (h g : Heard) (e : Event) (enc : Encoder)
      → hear h e ≡ some g
      → steps listen h (event uuid e enc).1 ≡ some g
  unfolding event
  event-listen h g e enc k =
      let opened = (open_message uuid (id_of uuid e) enc) in
      steps_both listen h h g (open_message uuid (id_of uuid e) enc).1
        (on_event uuid (open_message uuid (id_of uuid e) enc).0 e).1
        (open_message-listen h (id_of uuid e) enc)
        (on_event-listen h g e (open_message uuid (id_of uuid e) enc).0 k)

  -- The payloads of events that only send late words to calls do the same.
  pub events-listen :
      (es : List Event) (h g : Heard) (enc : Encoder)
      → steps hear h es ≡ some g
      → steps listen h (events (event uuid) es enc).1 ≡ some g
  unfolding steps events
  events-listen [] h g enc k = k
  events-listen (e ∷ es) h g enc k =
      let (m, a, b) = and_then-eq-some (hear h e) (λ m. steps hear m es) g k in
      steps_both listen h m g (event uuid e enc).1 (events (event uuid) es (event uuid e enc).0).1
        (event-listen h m e enc a) (events-listen es m g (event uuid e enc).0 b)
