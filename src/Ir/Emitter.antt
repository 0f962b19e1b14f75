-- ===== src/Ir/Emitter.antt =====
-- `Emitter` of src/domain/ir/mod.rs: the bookkeeping that the stream decoders share. A method that
-- pushes events returns the new emitter with the events that it pushed.
use local_proxy.Base.{
  ℕ, ◌+◌, ◌%◌, ◌^◌, Bool, true, false, ◌||◌, Option, List, [], ◌∷◌, ◌++◌, ◌==◌, if◌then◌else◌, Text,
  is_empty, ltb,
}
use local_proxy.Ir.Types.{Event, BlockKind, StopReason}
use local_proxy.Json.{or_none, get_or}
use local_proxy.Usage.{TokenUsage, no_usage, max_option}

-- One push after another, into the same `out`.
abbrev pub and_push {ℓ κ} :
    {A : Type ℓ} {B : Type κ} → A × List Event → (A → B × List Event) → B × List Event
and_push (a, out) f = let (b, more) = f a in (b, out ++ more)

-- An encoder's payloads for a list of events, the loop of `IrMachine::encode`.
unfoldable pub events {ℓ κ} :
    {E : Type ℓ} {V : Type κ} → (Event → E → E × List V) → List Event → E → E × List V
events encode [] enc = (enc, [])
events encode (e ∷ es) enc =
    let (enc1, out) = encode e enc in
    let (enc2, more) = events encode es enc1 in (enc2, out ++ more)

abbrev pub u32_mod : ℕ
u32_mod = 2 ^ 32

pub record Emitter : Type 0 where
  pub started : Bool
  pub next : ℕ
  pub opened : List ℕ
  pub usage : TokenUsage
  pub saw_tool : Bool
  pub finished : Bool

abbrev pub new_emitter : Emitter
new_emitter = record {
  started = false;
  next = 0;
  opened = [];
  usage = no_usage;
  saw_tool = false;
  finished = false;
}

unfoldable pub mem : ℕ → List ℕ → Bool
mem i [] = false
mem i (j ∷ js) = j == i || mem i js

-- `Vec::remove` at the first position that holds the index.
unfoldable pub remove : ℕ → List ℕ → List ℕ
remove i [] = []
remove i (j ∷ js) = let rest = j ∷ remove i js in if j == i then js else rest

unfoldable pub start : Emitter → Text → Text → Emitter × List Event
start e id model =
    if e.started then (e, []) else (record e { started = true }, Event.start id model ∷ [])

abbrev pub is_tool : BlockKind → Bool
is_tool (BlockKind.tool_call id name) = true
is_tool _ = false

-- `open`; the index of the new block is `e.next`.
unfoldable pub open_block : Emitter → BlockKind → Emitter × List Event
open_block e kind =
    let (e', out) = start e [] [] in
    (
      record e' {
        saw_tool = e'.saw_tool || is_tool kind;
        next = (e'.next + 1) % u32_mod;
        opened = e'.opened ++ e'.next ∷ [];
      },
      out ++ Event.block_start e'.next kind ∷ [],
    )

unfoldable pub push_delta : ℕ → Text → List Event
push_delta index text = if is_empty text then [] else Event.delta index text ∷ []

unfoldable pub close : Emitter → ℕ → Emitter × List Event
close e index =
    if mem index e.opened
    then (record e { opened = remove index e.opened }, Event.block_stop index ∷ [])
    else (e, [])

abbrev pub non_zero_or : ℕ → ℕ → ℕ
non_zero_or acc part = if ltb 0 part then part else acc

-- `usage`: later fields that are not zero win.
unfoldable pub report : Emitter → TokenUsage → Emitter
report e part =
    let acc = e.usage in
    record e {
      usage = record {
        input = non_zero_or acc.input part.input;
        output = non_zero_or acc.output part.output;
        reasoning = non_zero_or acc.reasoning part.reasoning;
        cache_read = max_option acc.cache_read part.cache_read;
        cache_write = non_zero_or acc.cache_write part.cache_write;
        cost_usd = or_none part.cost_usd acc.cost_usd;
      };
    }

unfoldable pub stops : List ℕ → List Event
stops [] = []
stops (i ∷ is) = Event.block_stop i ∷ stops is

unfoldable pub finish : Emitter → Option StopReason → Emitter × List Event
finish e stop =
    let (e', out) = start (record e { finished = true }) [] [] in
    let reason = get_or stop (if e'.saw_tool then StopReason.tool_use else StopReason.end_turn) in
    if e.finished then (e, []) else (
      record e' { opened = [] },
      out ++ (stops e'.opened ++ Event.usage e'.usage ∷ Event.finish reason ∷ []),
    )
