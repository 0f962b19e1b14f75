-- ===== src/Ir/ResponsesClient.antt =====
-- What a client of the Responses interface expects of a stream, by its events alone: the response is
-- created, its items count up from 0, all that is said of an item comes between its start and its
-- end, and the response is completed with no item open, after which nothing comes.
use local_proxy.Base.{
  ℕ, ◌+◌, Option, none, some, List, [], ◌∷◌, ◌++◌, ◌==◌, ◌||◌, if◌then◌else◌, text_eq, codes,
}
use local_proxy.Ir.Emitter.{mem, remove}
use local_proxy.Ir.Protocol.{no_blocks}
use local_proxy.Ir.Steps.{steps}
use local_proxy.Json.{Value, str_of, nat_of, and_then}

pub data Payload : Type 0 where
  created completed : Payload
  item_added item_says item_done : ℕ → Payload

abbrev with_index : (ℕ → Payload) → Option ℕ → Option Payload
with_index p none = none
with_index p (some i) = some (p i)

-- The kind of an event and the item that it is about; none for one that no client knows.
unfoldable pub read : Value → Option Payload
read v =
    let type = str_of v (codes "type") in
    let index = nat_of v (codes "output_index") in
    if text_eq type (codes "response.created")
    then some created
    else if text_eq type (codes "response.output_item.added")
    then with_index item_added index
    else if text_eq type (codes "response.content_part.added")
        || (text_eq type (codes "response.output_text.delta")
            || (text_eq type (codes "response.function_call_arguments.delta")
                || (text_eq type (codes "response.output_text.done")
                    || text_eq type (codes "response.function_call_arguments.done"))))
    then with_index item_says index
    else if text_eq type (codes "response.output_item.done")
    then with_index item_done index
    else if text_eq type (codes "response.completed")
    then some completed
    else none

pub data Phase : Type 0 where
  waiting : Phase
  streaming : (seen : ℕ) (opened : List ℕ) → Phase
  over : Phase

unfoldable pub next : Phase → Payload → Option Phase
next waiting created = some (streaming 0 [])
next (streaming seen opened) (item_added n) =
    if n == seen then some (streaming (seen + 1) (opened ++ n ∷ [])) else none
next (streaming seen opened) (item_says n) =
    if mem n opened then some (streaming seen opened) else none
next (streaming seen opened) (item_done n) =
    if mem n opened then some (streaming seen (remove n opened)) else none
next (streaming seen opened) completed = if no_blocks opened then some over else none
next _ _ = none

abbrev pub reads : Phase → List Value → Option Phase
reads = steps (λ p v. and_then (read v) (next p))
