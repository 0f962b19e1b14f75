-- ===== src/Ir/Late.antt =====
-- A checker of a Responses decoder's events that knows which blocks are calls: a text or a reasoning
-- takes words only while it is open, a call takes arguments once it was opened.
use local_proxy.Base.{
  ℕ, true, false, ◌||◌, Option, some, none, List, [], ◌∷◌, ◌++◌, ◌≡◌, refl, arith, ==-refl,
  if◌then◌else◌, Text, Bool-cases, inl, inr,
}
use local_proxy.Ir.Emitter.{
  Emitter, mem, remove, is_tool, start, open_block, push_delta, close, finish, stops,
}
use local_proxy.Ir.Steps.{steps, steps_both}
use local_proxy.Ir.Types.{Event, BlockKind, StopReason}
use local_proxy.Json.{get_or}
use local_proxy.Usage.{TokenUsage}

-- The blocks that are open, and the calls that were opened.
pub record Heard : Type 0 where
  pub opened : List ℕ
  pub calls : List ℕ

unfoldable pub hear : Heard → Event → Option Heard
hear h (Event.block_start i kind) = some (record {
  opened = h.opened ++ i ∷ [];
  calls = if is_tool kind then h.calls ++ i ∷ [] else h.calls;
})
hear h (Event.delta i text) = if mem i h.opened || mem i h.calls then some h else none
hear h (Event.block_stop i) = some (record h { opened = remove i h.opened })
hear h (Event.start id model) = some h
hear h (Event.usage u) = some h
hear h (Event.finish reason) = some h

abbrev pub new_heard : Heard
new_heard = record { opened = []; calls = [] }

abbrev pub heard : Emitter → List ℕ → Heard
heard e calls = record { opened = e.opened; calls = calls }

pub start-hear :
    (e : Emitter) (calls : List ℕ) (id model : Text)
    → steps hear (heard e calls) (start e id model).1 ≡ some (heard (start e id model).0 calls)
unfolding start steps hear
start-hear e calls id model = ground arith

pub open_block-hear :
    (e : Emitter) (calls : List ℕ) (kind : BlockKind)
    → steps hear (heard e calls) (open_block e kind).1
      ≡ some (heard (open_block e kind).0 (if is_tool kind then calls ++ e.next ∷ [] else calls))
unfolding start open_block steps hear
open_block-hear e calls kind = ground arith

pub close-hear :
    (e : Emitter) (calls : List ℕ) (i : ℕ)
    → steps hear (heard e calls) (close e i).1 ≡ some (heard (close e i).0 calls)
unfolding close steps hear
close-hear e calls i = ground arith

pub push_delta-hear :
    (h : Heard) (i : ℕ) (words : Text)
    → (mem i h.opened || mem i h.calls) ≡ true
    → steps hear h (push_delta i words) ≡ some h
unfolding push_delta steps hear
push_delta-hear h i words m = ground arith

stops-hear :
    (is calls : List ℕ)
    → steps hear (record { opened = is; calls = calls }) (stops is)
      ≡ some (record { opened = []; calls = calls })
unfolding stops steps hear remove
stops-hear [] calls = refl
stops-hear (i ∷ is) calls = ground (arith, stops-hear is calls, ==-refl i)

ends-hear :
    (is calls : List ℕ) (u : TokenUsage) (r : StopReason)
    → steps hear
        (record { opened = is; calls = calls })
        (stops is ++ Event.usage u ∷ Event.finish r ∷ [])
      ≡ some (record { opened = []; calls = calls })
unfolding steps hear
ends-hear is calls u r =
    steps_both hear (record { opened = is; calls = calls }) (record { opened = []; calls = calls })
      (record { opened = []; calls = calls }) (stops is) (Event.usage u ∷ Event.finish r ∷ [])
      (stops-hear is calls) refl

pub finish-hear :
    (e : Emitter) (calls : List ℕ) (stop : Option StopReason)
    → e.finished ≡ false
    → steps hear (heard e calls) (finish e stop).1 ≡ some (heard (finish e stop).0 calls)
unfolding finish start steps hear
finish-hear e calls stop h =
    let reason = get_or stop (if e.saw_tool then StopReason.tool_use else StopReason.end_turn) in
    elim (Bool-cases e.started) [
      | inl s ↦ ground (arith, ends-hear e.opened calls e.usage reason)
      | inr s ↦ ground (arith, ends-hear e.opened calls e.usage reason)
    ]
