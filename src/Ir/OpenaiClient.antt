-- ===== src/Ir/OpenaiClient.antt =====
-- What an OpenAI client expects of the chunks of a stream, by the chunks alone: the role first, tool
-- calls numbered from 0 in the order in which they start, arguments only for calls that started,
-- one chunk with a reason to finish, and the line that ends the stream, after which nothing comes.
use local_proxy.Base.{
  ℕ, ◌+◌, Option, none, some, List, ◌==◌, if◌then◌else◌, text_eq, codes, ltb, ◌||◌, is_some,
}
use local_proxy.Ir.Steps.{steps}
use local_proxy.Json.{Value, string, null, get, as_str, nat_of, and_then, first_of, get_or}

pub data Chunk : Type 0 where
  role content finished ended : Chunk
  tool_start tool_arguments : ℕ → Chunk

abbrev read_call : Option Value → Option Chunk
read_call none = none
read_call (some call) = elim (nat_of call (codes "index")) [
  | none ↦ none
  | some n ↦ some (if is_some (get (codes "id") call) then tool_start n else tool_arguments n)
]

abbrev read_delta : Value → Option Chunk
read_delta delta =
    if is_some (get (codes "role") delta)
    then some role
    else if is_some (get (codes "content") delta) || is_some (get (codes "reasoning_content") delta)
    then some content
    else read_call (first_of delta (codes "tool_calls"))

abbrev read_choice : Option Value → Option Chunk
read_choice none = none
read_choice (some choice) = elim (and_then (get (codes "finish_reason") choice) as_str) [
  | some reason ↦ some finished
  | none ↦ read_delta (get_or (get (codes "delta") choice) null)
]

-- The kind of a chunk; none for one that no client knows.
unfoldable pub read : Value → Option Chunk
read (string s) = if text_eq s (codes "[DONE]") then some ended else none
read v = read_choice (first_of v (codes "choices"))

pub data Phase : Type 0 where
  waiting : Phase
  streaming : (tools : ℕ) → Phase
  ending over : Phase

unfoldable pub next : Phase → Chunk → Option Phase
next waiting role = some (streaming 0)
next (streaming n) content = some (streaming n)
next (streaming n) (tool_start i) = if i == n then some (streaming (n + 1)) else none
next (streaming n) (tool_arguments i) = if ltb i n then some (streaming n) else none
next (streaming n) finished = some ending
next ending ended = some over
next _ _ = none

abbrev pub reads : Phase → List Value → Option Phase
reads = steps (λ p v. and_then (read v) (next p))
