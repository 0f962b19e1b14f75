-- ===== src/Ir/AnthropicServed.antt =====
-- The events of a stream through `Encoder` of src/domain/ir/anthropic.rs, against what its client
-- expects.
use local_proxy.Base.{
  ℕ, Bool, true, false, Option, some, List, [], ◌∷◌, ◌≡◌, refl, ap, if◌then◌else◌, Text, text_eq,
  text_lt, codes, arith, Bool-cases, inl, inr, is_empty, some_inj, sym, ◌∙◌,
}
use local_proxy.Ir.AnthropicClient.{Payload, read, Phase, next, reads}
use local_proxy.Ir.AnthropicEncoder.{
  Encoder, new_encoder, message_start, block_start, block_delta, block_stop, message_delta,
  message_stop, new_id, open_message, on_event, event, id_of, kind_of,
}
use local_proxy.Ir.Emitter.{mem, events}
use local_proxy.Ir.Fresh.{list_cases, is_fresh, check-is_fresh, check-started}
use local_proxy.Ir.Protocol.{Check, new_check, check, accepts}
use local_proxy.Ir.Steps.{steps, steps_both}
use local_proxy.Ir.Types.{Event, BlockKind, StopReason}
use local_proxy.Json.{get_field, insert_field, and_then, and_then-eq-some}
use local_proxy.Usage.{TokenUsage}

module _ (id model : Text) (usage : TokenUsage) where
  pub read-message_start : read (message_start id model usage) ≡ some Payload.message_start
  unfolding read message_start get_field insert_field text_eq text_lt codes
  read-message_start = refl

pub read-block_start :
    (i : ℕ) (kind : BlockKind) → read (block_start i kind) ≡ some (Payload.block_start i)
unfolding read block_start get_field insert_field text_eq text_lt codes
read-block_start i kind = refl

pub read-block_delta :
    (i : ℕ) (kind : Option BlockKind) (words : Text)
    → read (block_delta i kind words) ≡ some (Payload.block_delta i)
unfolding read block_delta get_field insert_field text_eq text_lt codes
read-block_delta i kind words = refl

pub read-block_stop : (i : ℕ) → read (block_stop i) ≡ some (Payload.block_stop i)
unfolding read block_stop get_field insert_field text_eq text_lt codes
read-block_stop i = refl

pub read-message_delta :
    (stop : StopReason) (usage : TokenUsage)
    → read (message_delta stop usage) ≡ some Payload.message_delta
unfolding read message_delta get_field insert_field text_eq text_lt codes
read-message_delta stop usage = refl

pub read-message_stop : read message_stop ≡ some Payload.message_stop
unfolding read message_stop get_field insert_field text_eq text_lt codes
read-message_stop = refl

-- Where the client is, by the checker's account of the events.
abbrev phase_of : Check → Phase
phase_of c =
    if c.finished
    then Phase.ended
    else if c.started
    then Phase.streaming c.seen c.opened
    else Phase.waiting

phase_of_finished : (d : Check) → d.finished ≡ true → phase_of d ≡ Phase.ended
phase_of_finished d f = ground arith

module _ (strict : Bool) where
  module _ (uuid : Text) where
    on_event-reads :
        (c d : Check) (e : Event) (enc : Encoder)
        → c.started ≡ true
        → check strict c e ≡ some d
        → reads strict (phase_of c) (on_event uuid enc e).1 ≡ some (phase_of d)
    unfolding on_event check steps next
    on_event-reads c d (Event.start id model) enc s h = ground arith
    on_event-reads c d (Event.block_start i kind) enc s h = ground (arith, read-block_start i kind)
    on_event-reads c d (Event.delta i words) enc s h =
        ground (arith, read-block_delta i (kind_of i enc.kinds) words)
    on_event-reads c d (Event.block_stop i) enc s h = ground (arith, read-block_stop i)
    on_event-reads c d (Event.usage u) enc s h = ground arith
    on_event-reads c d (Event.finish stop) enc s h =
        ground (arith, read-message_delta stop enc.usage, read-message_stop)

    -- A message that is open is left as it is.
    open_message-started :
        (id : Text) (enc : Encoder) → enc.started ≡ true → open_message uuid id enc ≡ (enc, [])
    unfolding open_message
    open_message-started id enc s = ground arith

    later-reads :
        (c d : Check) (e : Event) (enc : Encoder)
        → enc.started ≡ true
        → c.started ≡ true
        → check strict c e ≡ some d
        → reads strict (phase_of c) (event uuid e enc).1 ≡ some (phase_of d)
    unfolding event
    later-reads c d e enc k s h =
        rw (open_message-started (id_of uuid e) enc k) (on_event-reads c d e enc s h)

    event-started : (e : Event) (enc : Encoder) → (event uuid e enc).0.started ≡ true
    unfolding event on_event open_message
    event-started (Event.start id model) enc = ground arith
    event-started (Event.block_start i kind) enc = ground arith
    event-started (Event.delta i words) enc = ground arith
    event-started (Event.block_stop i) enc = ground arith
    event-started (Event.usage u) enc = ground arith
    event-started (Event.finish stop) enc = ground arith

    -- The event that a fresh stream starts with.
    first-reads :
        (c d : Check) (e : Event) (enc : Encoder)
        → enc.started ≡ false
        → c.started ≡ false
        → is_fresh c ≡ true
        → check strict c e ≡ some d
        → (reads strict (phase_of c) (event uuid e enc).1 ≡ some (phase_of d)) × (d.started ≡ true)
    unfolding event on_event open_message check steps next mem
    first-reads c d (Event.start id model) enc k s f h = elim (list_cases c.opened) [
      | inl e ↦
          let i = if is_empty id then new_id (codes "msg") uuid else id in
          ground (arith, read-message_start i enc.model enc.usage)
      | inr (j, js, e) ↦ ground arith
    ]
    first-reads c d (Event.block_start i kind) enc k s f h = ground arith
    first-reads c d (Event.delta i words) enc k s f h = elim (list_cases c.opened) [
      | inl e ↦ ground arith
      | inr (j, js, e) ↦ ground arith
    ]
    first-reads c d (Event.block_stop i) enc k s f h = elim (list_cases c.opened) [
      | inl e ↦ ground arith
      | inr (j, js, e) ↦ ground arith
    ]
    first-reads c d (Event.usage u) enc k s f h = ground arith
    first-reads c d (Event.finish stop) enc k s f h = ground arith

    event-reads :
        (c d : Check) (e : Event) (enc : Encoder)
        → enc.started ≡ c.started
        → is_fresh c ≡ true
        → check strict c e ≡ some d
        → (reads strict (phase_of c) (event uuid e enc).1 ≡ some (phase_of d)) × (d.started ≡ true)
    event-reads c d e enc k f h = elim (Bool-cases c.started) [
      | inl s ↦ (later-reads c d e enc (k ∙ s) s h, check-started strict c d e s h)
      | inr s ↦ first-reads c d e enc (k ∙ s) s f h
    ]

    events-read :
        (es : List Event) (c d : Check) (enc : Encoder)
        → enc.started ≡ c.started
        → is_fresh c ≡ true
        → accepts strict c es ≡ some d
        → reads strict (phase_of c) (events (event uuid) es enc).1 ≡ some (phase_of d)
    unfolding accepts events steps
    events-read [] c d enc k f h = rw (some_inj h) refl
    events-read (e ∷ es) c d enc k f h =
        let (m, a, b) = and_then-eq-some (check strict c e) (λ m. accepts strict m es) d h in
        let (r, s) = event-reads c m e enc k f a in
        steps_both (λ p v. and_then (read v) (next strict p)) (phase_of c) (phase_of m) (phase_of d)
          (event uuid e enc).1 (events (event uuid) es (event uuid e enc).0).1 r
          (events-read es m d (event uuid e enc).0 (event-started e enc ∙ sym s)
            (check-is_fresh strict c m e f a) b)

    -- The payloads that a well-formed stream of events is encoded into are a whole message, from
    -- its start to its stop.
    pub anthropic_events-read :
        (es : List Event) (model : Text) (d : Check)
        → accepts strict new_check es ≡ some d
        → d.finished ≡ true
        → reads strict Phase.waiting (events (event uuid) es (new_encoder model)).1
          ≡ some Phase.ended
    unfolding new_encoder
    anthropic_events-read es model d h f =
        events-read es new_check d (new_encoder model) refl refl h ∙ ap some (phase_of_finished d f)
