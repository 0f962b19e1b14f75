-- ===== src/Ir/AnthropicClient.antt =====
-- What an Anthropic client expects of the payloads of a stream, by the payloads alone: the message
-- starts, its blocks count up from 0 and close once, the message ends with no block open, and
-- nothing follows. If strict, text goes to open blocks only.
use local_proxy.Base.{
  ℕ, ◌+◌, Bool, not, ◌&&◌, ◌||◌, Option, none, some, List, [], ◌∷◌, ◌++◌, ◌==◌, if◌then◌else◌,
  text_eq, codes, ltb,
}
use local_proxy.Ir.Emitter.{mem, remove}
use local_proxy.Ir.Protocol.{no_blocks}
use local_proxy.Ir.Steps.{steps}
use local_proxy.Json.{Value, str_of, nat_of, and_then}

pub data Payload : Type 0 where
  message_start message_delta message_stop : Payload
  block_start block_delta block_stop : ℕ → Payload

abbrev with_index : (ℕ → Payload) → Option ℕ → Option Payload
with_index p none = none
with_index p (some i) = some (p i)

-- The kind of a payload and its index; none for one that no client knows.
unfoldable pub read : Value → Option Payload
read v =
    let type = str_of v (codes "type") in
    let index = nat_of v (codes "index") in
    if text_eq type (codes "message_start")
    then some message_start
    else if text_eq type (codes "content_block_start")
    then with_index block_start index
    else if text_eq type (codes "content_block_delta")
    then with_index block_delta index
    else if text_eq type (codes "content_block_stop")
    then with_index block_stop index
    else if text_eq type (codes "message_delta")
    then some message_delta
    else if text_eq type (codes "message_stop")
    then some message_stop
    else none

pub data Phase : Type 0 where
  waiting : Phase
  streaming : (seen : ℕ) (opened : List ℕ) → Phase
  ending ended : Phase

module _ (strict : Bool) where
  unfoldable pub next : Phase → Payload → Option Phase
  next waiting message_start = some (streaming 0 [])
  next (streaming seen opened) (block_start i) =
      if i == seen then some (streaming (seen + 1) (opened ++ i ∷ [])) else none
  next (streaming seen opened) (block_delta i) =
      if mem i opened || (not strict && ltb i seen) then some (streaming seen opened) else none
  next (streaming seen opened) (block_stop i) =
      if mem i opened then some (streaming seen (remove i opened)) else none
  next (streaming seen opened) message_delta = if no_blocks opened then some ending else none
  next ending message_stop = some ended
  next _ _ = none

  abbrev pub reads : Phase → List Value → Option Phase
  reads = steps (λ p v. and_then (read v) (next p))
