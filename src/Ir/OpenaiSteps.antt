-- ===== src/Ir/OpenaiSteps.antt =====
-- The steps of `Decoder` of src/domain/ir/openai.rs, with the invariant of its state. A step has a
-- budget: the blocks that may yet open before the 32-bit index wraps.
use local_proxy.Base.{
  ℕ, suc, ◌+◌, ◌<◌, Bool, true, false, not, ◌&&◌, Option, none, some, List, [], ◌∷◌, ◌++◌, ◌≡◌,
  refl, arith, Text, is_some, Option-cases, inl, inr,
}
use local_proxy.Ir.Emitter.{Emitter, start, open_block, push_delta, close, and_push, u32_mod}
use local_proxy.Ir.Openai.{
  Decoder, close_option, take_text, take_reasoning, open_reasoning, open_text, open_tool,
}
use local_proxy.Ir.OpenaiLife.{
  below, below-remove, below-append, mem-append, holds, safe, safe-none, safe-remove, safe-open,
  safe-push,
}
use local_proxy.Ir.Protocol.{accepts, accepts_both}
use local_proxy.Ir.Simulation.{view, open_block-accepts, close-accepts, push_delta-accepts}
use local_proxy.Ir.Types.{Event, BlockKind}
use local_proxy.Json.{or_none}

unfoldable pub ready : Decoder → Bool
ready d =
    (not d.em.finished && below d.em.next d.em.opened)
    && ((holds d.em.opened d.text && holds d.em.opened d.reasoning)
        && (not (is_some d.text && is_some d.reasoning)
            && safe d.em.opened (or_none d.text d.reasoning) d.tools))

abbrev pub Ready : ℕ → Decoder → Type 0
Ready k d = (ready d ≡ true) × (d.em.next + k < u32_mod)

abbrev pub Steps : ℕ → Decoder → Decoder × List Event → Type 0
Steps k d (d', out) = (accepts true (view d.em) out ≡ some (view d'.em)) × Ready k d'

pub and_push-Steps :
    (k m : ℕ) (d : Decoder) (r : Decoder × List Event) (f : Decoder → Decoder × List Event)
    → Steps k d r
    → (Ready k r.0 → Steps m r.0 (f r.0))
    → Steps m d (and_push r f)
and_push-Steps k m d (d1, out) f (a, h) step =
    let (b, g) = step h in
    (accepts_both true (view d.em) (view d1.em) (view (f d1).0.em) out (f d1).1 a b, g)

pub stay : (k : ℕ) (d : Decoder) → Ready k d → Steps k d (d, [])
unfolding accepts
stay k d h = (refl, h)

take_text-ready : (d : Decoder) → ready d ≡ true → ready (take_text d).0 ≡ true
unfolding ready take_text close_option close holds
take_text-ready d h = elim (Option-cases d.text) [
  | inl e ↦ ground (arith, safe-none d.em.opened d.reasoning d.tools)
  | inr (i, e) ↦
      ground (arith, safe-remove d.em.opened i d.tools, below-remove d.em.next i d.em.opened)
]

take_reasoning-ready : (d : Decoder) → ready d ≡ true → ready (take_reasoning d).0 ≡ true
unfolding ready take_reasoning close_option close holds
take_reasoning-ready d h = elim (Option-cases d.reasoning) [
  | inl e ↦ ground (arith, safe-none d.em.opened d.text d.tools)
  | inr (i, e) ↦
      ground (arith, safe-remove d.em.opened i d.tools, below-remove d.em.next i d.em.opened)
]

close_option-accepts :
    (e : Emitter) (o : Option ℕ)
    → e.finished ≡ false
    → accepts true (view e) (close_option e o).1 ≡ some (view (close_option e o).0)
unfolding close_option accepts
close_option-accepts e none h = refl
close_option-accepts e (some i) h = close-accepts true e i h

close_option-next : (e : Emitter) (o : Option ℕ) → (close_option e o).0.next ≡ e.next
unfolding close_option close
close_option-next e none = refl
close_option-next e (some i) = ground arith

pub unfinished : (d : Decoder) → ready d ≡ true → d.em.finished ≡ false
unfolding ready
unfinished d h = ground arith

pub take_text-Steps : (k : ℕ) (d : Decoder) → Ready k d → Steps k d (take_text d)
unfolding take_text
take_text-Steps k d (h, b) = (
  close_option-accepts d.em d.text (unfinished d h),
  (take_text-ready d h, omega (arith, close_option-next d.em d.text)),
)

pub take_reasoning-Steps : (k : ℕ) (d : Decoder) → Ready k d → Steps k d (take_reasoning d)
unfolding take_reasoning
take_reasoning-Steps k d (h, b) = (
  close_option-accepts d.em d.reasoning (unfinished d h),
  (take_reasoning-ready d h, omega (arith, close_option-next d.em d.reasoning)),
)

open_block-next :
    (e : Emitter) (kind : BlockKind)
    → e.next + 1 < u32_mod
    → (open_block e kind).0.next ≡ e.next + 1
unfolding open_block start
open_block-next e kind h = ground arith

open_block-opened :
    (e : Emitter) (kind : BlockKind) → (open_block e kind).0.opened ≡ e.opened ++ e.next ∷ []
unfolding open_block start
open_block-opened e kind = ground arith

open_block-finished : (e : Emitter) (kind : BlockKind) → (open_block e kind).0.finished ≡ e.finished
unfolding open_block start
open_block-finished e kind = ground arith

-- A block opens and takes its first text.
opens :
    (e : Emitter) (kind : BlockKind) (words : Text)
    → e.finished ≡ false
    → e.next + 1 < u32_mod
    → accepts true (view e) ((open_block e kind).1 ++ push_delta e.next words)
      ≡ some (view (open_block e kind).0)
opens e kind words h b =
    accepts_both true (view e) (view (open_block e kind).0) (view (open_block e kind).0)
      (open_block e kind).1 (push_delta e.next words) (open_block-accepts true e kind h b)
      (push_delta-accepts true (open_block e kind).0 e.next words
        (ground (arith, open_block-finished e kind))
        (ground (arith, open_block-opened e kind, mem-append e.next e.next e.opened)))

module _ (k : ℕ) (d : Decoder) (words : Text) (h : Ready (suc k) d) where
  room : d.em.next + 1 < u32_mod
  room = omega (arith, h.1)

  pub open_reasoning-Steps : d.text ≡ none → d.reasoning ≡ none → Steps k d (open_reasoning words d)
  unfolding ready open_reasoning holds
  open_reasoning-Steps t r = (
    opens d.em BlockKind.reasoning words (unfinished d h.0) room,
    (
      ground (
        arith,
        h.0,
        t,
        r,
        open_block-next d.em BlockKind.reasoning room,
        open_block-opened d.em BlockKind.reasoning,
        open_block-finished d.em BlockKind.reasoning,
        below-append d.em.next d.em.opened,
        mem-append d.em.next d.em.next d.em.opened,
        safe-open d.em.opened d.em.next d.tools,
      ),
      omega (arith, h.1, open_block-next d.em BlockKind.reasoning room),
    ),
  )

  pub open_text-Steps : d.text ≡ none → d.reasoning ≡ none → Steps k d (open_text words d)
  unfolding ready open_text holds
  open_text-Steps t r = (
    opens d.em BlockKind.text words (unfinished d h.0) room,
    (
      ground (
        arith,
        h.0,
        t,
        r,
        open_block-next d.em BlockKind.text room,
        open_block-opened d.em BlockKind.text,
        open_block-finished d.em BlockKind.text,
        below-append d.em.next d.em.opened,
        mem-append d.em.next d.em.next d.em.opened,
        safe-open d.em.opened d.em.next d.tools,
      ),
      omega (arith, h.1, open_block-next d.em BlockKind.text room),
    ),
  )

  module _ (u : ℕ) (kind : BlockKind) where
    pub open_tool-Steps : d.text ≡ none → d.reasoning ≡ none → Steps k d (open_tool u kind words d)
    unfolding ready open_tool holds
    open_tool-Steps t r = (
      opens d.em kind words (unfinished d h.0) room,
      (
        ground (
          arith,
          h.0,
          t,
          r,
          open_block-next d.em kind room,
          open_block-opened d.em kind,
          open_block-finished d.em kind,
          below-append d.em.next d.em.opened,
          mem-append d.em.next d.em.next d.em.opened,
          safe-push d.em.opened d.em.next u d.tools,
        ),
        omega (arith, h.1, open_block-next d.em kind room),
      ),
    )
