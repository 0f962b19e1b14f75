-- ===== src/Ir/Simulation.antt =====
-- The emitter of src/domain/ir/mod.rs beside the checker of Ir.Protocol, push by push.
use local_proxy.Base.{
  ℕ, ◌+◌, ◌<◌, Bool, true, false, not, ◌&&◌, ◌||◌, Option, some, List, [], ◌∷◌, ◌++◌, ◌≡◌, refl,
  arith, ==-refl, if◌then◌else◌, Text, ltb, Bool-cases, inl, inr,
}
use local_proxy.Ir.Emitter.{
  Emitter, mem, remove, start, open_block, push_delta, close, finish, stops, u32_mod,
}
use local_proxy.Ir.Protocol.{Check, check, accepts, accepts_both}
use local_proxy.Ir.Types.{Event, BlockKind, StopReason}
use local_proxy.Json.{get_or}
use local_proxy.Usage.{TokenUsage}

-- What the checker has seen, by the emitter's own account.
abbrev pub view : Emitter → Check
view e = record { started = e.started; seen = e.next; opened = e.opened; finished = e.finished }

abbrev ending : Emitter → Option StopReason → StopReason
ending e stop = get_or stop (if e.saw_tool then StopReason.tool_use else StopReason.end_turn)

module _ (strict : Bool) where
  pub start-accepts :
      (e : Emitter) (id model : Text)
      → e.finished ≡ false
      → accepts strict (view e) (start e id model).1 ≡ some (view (start e id model).0)
  unfolding start accepts check
  start-accepts e id model h = ground arith

  pub open_block-accepts :
      (e : Emitter) (kind : BlockKind)
      → e.finished ≡ false
      → e.next + 1 < u32_mod
      → accepts strict (view e) (open_block e kind).1 ≡ some (view (open_block e kind).0)
  unfolding start open_block accepts check
  open_block-accepts e kind h k = ground arith

  pub close-accepts :
      (e : Emitter) (i : ℕ)
      → e.finished ≡ false
      → accepts strict (view e) (close e i).1 ≡ some (view (close e i).0)
  unfolding close accepts check
  close-accepts e i h = ground arith

  pub push_delta-accepts :
      (e : Emitter) (i : ℕ) (text : Text)
      → e.finished ≡ false
      → (mem i e.opened || (not strict && ltb i e.next)) ≡ true
      → accepts strict (view e) (push_delta i text) ≡ some (view e)
  unfolding push_delta accepts check
  push_delta-accepts e i text h m = ground arith

  stops-accepts :
      (c : Check) (is : List ℕ)
      → c.finished ≡ false
      → c.opened ≡ is
      → accepts strict c (stops is) ≡ some (record c { opened = [] })
  unfolding stops accepts check mem remove
  stops-accepts c [] h e = ground arith
  stops-accepts c (i ∷ is) h e =
      ground (arith, stops-accepts (record c { opened = is }) is h refl, ==-refl i)

  ends-accepts :
      (c : Check) (u : TokenUsage) (r : StopReason)
      → c.started ≡ true
      → c.finished ≡ false
      → accepts strict c (stops c.opened ++ Event.usage u ∷ Event.finish r ∷ [])
        ≡ some (record c { opened = []; finished = true })
  unfolding accepts check
  ends-accepts c u r s h =
      accepts_both strict c (record c { opened = [] }) (record c { opened = []; finished = true })
        (stops c.opened) (Event.usage u ∷ Event.finish r ∷ []) (stops-accepts c c.opened h refl)
        (ground arith)

  pub finish-accepts :
      (e : Emitter) (stop : Option StopReason)
      → e.finished ≡ false
      → accepts strict (view e) (finish e stop).1 ≡ some (view (finish e stop).0)
  unfolding finish start accepts check
  finish-accepts e stop h = elim (Bool-cases e.started) [
    | inl s ↦ ground (arith, ends-accepts (view e) e.usage (ending e stop) s h)
    | inr s ↦
        ground
          (arith, ends-accepts (record (view e) { started = true }) e.usage (ending e stop) refl h)
  ]

pub finish-next : (e : Emitter) (stop : Option StopReason) → (finish e stop).0.next ≡ e.next
unfolding finish start
finish-next e stop = ground arith

pub finish-done :
    (e : Emitter) (stop : Option StopReason)
    → e.finished ≡ false
    → ((finish e stop).0.finished ≡ true) × ((finish e stop).0.opened ≡ [])
unfolding finish start
finish-done e stop h = (ground arith, ground arith)
