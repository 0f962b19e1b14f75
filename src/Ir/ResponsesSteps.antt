-- ===== src/Ir/ResponsesSteps.antt =====
-- The pushes of `Decoder` of src/domain/ir/responses.rs, with what they keep of its state. A step has a
-- budget: the blocks that may yet open.
use local_proxy.Base.{
  ◌∙◌, ℕ, ◌+◌, ◌<◌, Bool, true, false, ◌||◌, Option, none, some, List, [], ◌≡◌, refl, arith,
  if◌then◌else◌, Text, codes, ltb,
}
use local_proxy.Ir.Emitter.{mem, Emitter, start, open_block, push_delta, close, and_push, u32_mod}
use local_proxy.Ir.Openai.{close_option}
use local_proxy.Ir.Protocol.{accepts, accepts_both}
use local_proxy.Ir.Responses.{
  Decoder, call_id, tool_index, close_at, take_text, take_reasoning, close_prose, push_tool,
  arguments_at,
}
use local_proxy.Ir.Late.{Heard, hear, heard, open_block-hear, close-hear, push_delta-hear}
use local_proxy.Ir.OpenaiLife.{differs, holds}
use local_proxy.Ir.Steps.{steps, steps_both}
use local_proxy.Ir.Simulation.{view, open_block-accepts, close-accepts, push_delta-accepts}
use local_proxy.Ir.Types.{Event, BlockKind}
use local_proxy.Json.{Value, str_of}
use local_proxy.Ir.ResponsesHeld.{
  given, held, given-append, held_suc, tool_index-held, indices, indices-append, apart-none,
  apart-append, tool_index-mem, holds-append, holds-remove, spoken, lone, fits,
}

abbrev pub Ready : ℕ → Decoder → Type 0
Ready k d = (d.em.finished ≡ false) × (fits d ≡ true) × (d.em.next + k < u32_mod)

-- The same, of the calls alone: it holds while the prose changes its block.
abbrev pub Loose : ℕ → Decoder → Type 0
Loose k d = (d.em.finished ≡ false) × (given d.em.next d.tools ≡ true) × (d.em.next + k < u32_mod)

abbrev pub heard_by : Decoder → Heard
heard_by d = heard d.em (indices d.tools)

-- The events lead both checkers from the decoder's state to the new one.
abbrev pub Says : Decoder → Decoder × List Event → Type 0
Says d (d', out) =
    (accepts false (view d.em) out ≡ some (view d'.em))
    × (steps hear (heard_by d) out ≡ some (heard_by d'))

abbrev pub Steps : ℕ → Decoder → Decoder × List Event → Type 0
Steps k d r = Says d r × Ready k r.0

pub and_push-Says :
    (d : Decoder) (r : Decoder × List Event) (f : Decoder → Decoder × List Event)
    → Says d r
    → Says r.0 (f r.0)
    → Says d (and_push r f)
and_push-Says d (d1, out) f (a, h) (b, g) =
    let (d2, more) = f d1 in
    (
      accepts_both false (view d.em) (view d1.em) (view (f d1).0.em) out (f d1).1 a b,
      steps_both hear (heard_by d) (heard_by d1) (heard_by (f d1).0) out (f d1).1 h g,
    )

pub and_push-Steps :
    (k m : ℕ) (d : Decoder) (r : Decoder × List Event) (f : Decoder → Decoder × List Event)
    → Steps k d r
    → (Ready k r.0 → Steps m r.0 (f r.0))
    → Steps m d (and_push r f)
and_push-Steps k m d r f (a, h) step = let (b, g) = step h in (and_push-Says d r f a b, g)

pub if_Steps :
    (k : ℕ) (d : Decoder) (b : Bool) (x y : Decoder × List Event)
    → Steps k d x
    → Steps k d y
    → Steps k d (if b then x else y)
if_Steps k d true x y p q = p
if_Steps k d false x y p q = q

pub no_events-Says : (d : Decoder) → Says d (d, [])
unfolding accepts steps
no_events-Says d = (refl, refl)

pub same : (k : ℕ) (d : Decoder) → Ready k d → Steps k d (d, [])
same k d h = (no_events-Says d, h)

pub stay : (k : ℕ) (d : Decoder) → Ready (1 + k) d → Steps k d (d, [])
stay k d (f, g, b) = (no_events-Says d, (f, g, omega arith))

pub less : (k : ℕ) (d : Decoder) → Ready (1 + k) d → Ready k d
less k d (f, g, b) = (f, g, omega arith)

pub spoken-none : (e : Emitter) (ts : List (Text × ℕ)) → spoken e ts none ≡ true
unfolding spoken held holds
spoken-none e ts = apart-none ts

pub spoken-close :
    (e : Emitter) (i : ℕ) (ts : List (Text × ℕ)) (p : Option ℕ)
    → spoken e ts p ≡ true
    → differs p i ≡ true
    → spoken (close e i).0 ts p ≡ true
unfolding spoken close
spoken-close e i ts p s d = ground (arith, holds-remove i p e.opened)

-- With one prose block open there is no other.
pub alone_text :
    (e : Emitter) (ts : List (Text × ℕ)) (i : ℕ) (p : Option ℕ)
    → lone (some i) p ≡ true
    → spoken e ts p ≡ true
unfolding lone
alone_text e ts i none h = spoken-none e ts
alone_text e ts i (some j) h = ground arith

pub alone_reasoning :
    (e : Emitter) (ts : List (Text × ℕ)) (i : ℕ) (p : Option ℕ)
    → lone p (some i) ≡ true
    → spoken e ts p ≡ true
unfolding lone
alone_reasoning e ts i none h = spoken-none e ts
alone_reasoning e ts i (some j) h = ground arith

pub lone-none : (p : Option ℕ) → lone p none ≡ true
unfolding lone
lone-none none = refl
lone-none (some i) = refl

pub closing : (d : Decoder) (i : ℕ) → d.em.finished ≡ false → Says d (close_at (some i) d)
unfolding close_at close_option
closing d i f = (close-accepts false d.em i f, close-hear d.em (indices d.tools) i)

pub close-finished : (e : Emitter) (i : ℕ) → (close e i).0.finished ≡ e.finished
unfolding close
close-finished e i = ground arith

pub close-next : (e : Emitter) (i : ℕ) → (close e i).0.next ≡ e.next
unfolding close
close-next e i = ground arith

module _ (k : ℕ) where
  -- A call's block is closed: it is not the prose's.
  pub close_call-Steps :
      (i : ℕ) (d : Decoder)
      → differs d.text i ≡ true
      → differs d.reasoning i ≡ true
      → Ready k d
      → Steps k d (close_at (some i) d)
  unfolding close_at close_option fits
  close_call-Steps i d t r (f, g, b) = (
    closing d i f,
    (
      close-finished d.em i ∙ f,
      ground (
        arith,
        close-next d.em i,
        spoken-close d.em i d.tools d.text,
        spoken-close d.em i d.tools d.reasoning,
      ),
      rw (close-next d.em i) b,
    ),
  )

  pub close_at-Loose :
      (o : Option ℕ) (d : Decoder) → Ready k d → Says d (close_at o d) × Loose k (close_at o d).0
  unfolding close_at close_option close fits
  close_at-Loose none d (f, g, b) = (no_events-Says d, (f, ground arith, b))
  close_at-Loose (some i) d (f, g, b) = (closing d i f, (ground arith, ground arith, ground arith))

  pub text-Steps : (o : Option ℕ) (d : Decoder) → d.text ≡ o → Ready k d → Steps k d (take_text d)
  unfolding take_text close_option close fits lone
  text-Steps none d e (f, g, b) =
      rw (e) (no_events-Says d, (f, ground (arith, spoken-none d.em d.tools), b))
  text-Steps (some i) d e (f, g, b) = rw (e) (
    (close-accepts false d.em i f, close-hear d.em (indices d.tools) i),
    (
      ground arith,
      ground (
        arith,
        spoken-none (close d.em i).0 d.tools,
        alone_text (close d.em i).0 d.tools i d.reasoning,
        close-next d.em i,
      ),
      ground arith,
    ),
  )

  pub take_text-Steps : (d : Decoder) → Ready k d → Steps k d (take_text d)
  take_text-Steps d h = text-Steps d.text d refl h

  pub reasoning-Steps :
      (o : Option ℕ) (d : Decoder) → d.reasoning ≡ o → Ready k d → Steps k d (take_reasoning d)
  unfolding take_reasoning close_option close fits lone
  reasoning-Steps none d e (f, g, b) =
      rw (e) (no_events-Says d, (f, ground (arith, spoken-none d.em d.tools), b))
  reasoning-Steps (some i) d e (f, g, b) = rw (e) (
    (close-accepts false d.em i f, close-hear d.em (indices d.tools) i),
    (
      ground arith,
      ground (
        arith,
        spoken-none (close d.em i).0 d.tools,
        alone_reasoning (close d.em i).0 d.tools i d.text,
        lone-none d.text,
        close-next d.em i,
      ),
      ground arith,
    ),
  )

  pub take_reasoning-Steps : (d : Decoder) → Ready k d → Steps k d (take_reasoning d)
  take_reasoning-Steps d h = reasoning-Steps d.reasoning d refl h

  pub close_prose-Steps : (d : Decoder) → Ready k d → Steps k d (close_prose d)
  unfolding close_prose
  close_prose-Steps d h =
      and_push-Steps k k d (take_text d) take_reasoning (take_text-Steps d h)
        (take_reasoning-Steps (take_text d).0)

  -- Text goes to a block that was given out, and is open or a call's.
  pub speaks :
      (i : ℕ) (words : Text) (d : Decoder)
      → ltb i d.em.next ≡ true
      → (mem i d.em.opened || mem i (indices d.tools)) ≡ true
      → Ready k d
      → Steps k d (d, push_delta i words)
  speaks i words d l m (f, g, b) = (
    (
      push_delta-accepts false d.em i words f (ground arith),
      push_delta-hear (heard_by d) i words m,
    ),
    (f, g, b),
  )

  pub arguments_at-Steps :
      (o : Option ℕ) (key words : Text) (d : Decoder)
      → tool_index key d.tools ≡ o
      → Ready k d
      → Steps k d (arguments_at o words d)
  unfolding arguments_at held fits
  arguments_at-Steps none key words d e h = same k d h
  arguments_at-Steps (some i) key words d e h =
      speaks i words d (ground (arith, h.1, tool_index-held d.em.next key d.tools))
        (ground (arith, tool_index-mem key i d.tools)) h

  pub spoken-push :
      (key : Text) (item : Value) (d : Decoder) (p : Option ℕ)
      → d.em.next + 1 < u32_mod
      → spoken d.em d.tools p ≡ true
      → spoken (push_tool key item d).0.em (push_tool key item d).0.tools p ≡ true
  unfolding spoken push_tool open_block start
  spoken-push key item d p b s = ground (
    arith,
    held_suc d.em.next p,
    holds-append d.em.next p d.em.opened,
    apart-append key d.em.next p d.tools,
  )

  pub push_tool-Steps :
      (key : Text) (item : Value) (d : Decoder) → Ready (1 + k) d → Steps k d (push_tool key item d)
  unfolding push_tool open_block start fits
  push_tool-Steps key item d (f, g, b) =
      let kind = BlockKind.tool_call (call_id item) (str_of item (codes "name")) in
      (
        (
          open_block-accepts false d.em kind f (omega arith),
          open_block-hear d.em (indices d.tools) kind
              ∙ rw (indices-append key d.em.next d.tools) refl,
        ),
        (
          ground arith,
          ground (
            arith,
            given-append d.em.next key d.tools,
            spoken-push key item d d.text (omega arith),
            spoken-push key item d d.reasoning (omega arith),
          ),
          ground arith,
        ),
      )
