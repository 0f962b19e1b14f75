-- ===== src/Ir/OpenaiServed.antt =====
-- The events of a stream through `Encoder` of src/domain/ir/openai.rs, against what its client
-- expects.
use local_proxy.Base.{
  ℕ, Bool, true, false, some, List, [], ◌∷◌, ◌≡◌, refl, if◌then◌else◌, Text, arith, is_empty,
  some_inj,
}
use local_proxy.Ir.Emitter.{events}
use local_proxy.Ir.Fresh.{is_fresh, check-started, check_first}
use local_proxy.Ir.OpenaiClient.{read, Phase, next, reads}
use local_proxy.Ir.OpenaiEncoder.{Encoder, new_encoder, open_chunks, on_block, on_event, event}
use local_proxy.Ir.OpenaiLife.{below}
use local_proxy.Ir.Protocol.{Check, new_check, check, accepts}
use local_proxy.Ir.Steps.{steps, steps_both}
use local_proxy.Ir.Types.{Event, BlockKind}
use local_proxy.Json.{and_then, and_then-eq-some}
use local_proxy.Ir.OpenaiReads.{read-role, phase_of, Follows, on_event-reads, known}

module _ (strict : Bool) where
  -- A stream that is open gets no second opening chunk.
  open_chunks-started :
      (e : Event) (enc : Encoder) → enc.started ≡ true → open_chunks e enc ≡ (enc, [])
  unfolding open_chunks
  open_chunks-started e enc s = ground arith

  later-reads :
      (c d : Check) (e : Event) (enc : Encoder)
      → enc.started ≡ true
      → c.started ≡ true
      → Follows c enc
      → check strict c e ≡ some d
      → (reads (phase_of c enc) (event e enc).1 ≡ some (phase_of d (event e enc).0))
        × Follows d (event e enc).0
  unfolding event
  later-reads c d e enc k s g h =
      rw (open_chunks-started e enc k) (on_event-reads strict c d e enc s g h)

  event-started : (e : Event) (enc : Encoder) → (event e enc).0.started ≡ true
  unfolding event on_event on_block open_chunks
  event-started (Event.start id model) enc = ground arith
  event-started (Event.block_start i BlockKind.text) enc = ground arith
  event-started (Event.block_start i BlockKind.reasoning) enc = ground arith
  event-started (Event.block_start i (BlockKind.tool_call id name)) enc = ground arith
  event-started (Event.delta i words) enc = ground arith
  event-started (Event.block_stop i) enc = ground arith
  event-started (Event.usage u) enc = ground arith
  event-started (Event.finish stop) enc = ground arith

  -- The start of a fresh stream.
  start-reads :
      (c d : Check) (id model : Text) (enc : Encoder)
      → enc.started ≡ false
      → enc.tools ≡ []
      → c.started ≡ false
      → is_fresh c ≡ true
      → Follows c enc
      → check strict c (Event.start id model) ≡ some d
      → (reads (phase_of c enc) (event (Event.start id model) enc).1
          ≡ some (phase_of d (event (Event.start id model) enc).0))
        × Follows d (event (Event.start id model) enc).0
  unfolding event open_chunks on_event check steps next
  start-reads c d id model enc k t s f g h =
      let opened = record enc { started = true; id = if is_empty id then enc.id else id } in
      rw (k) (
        ground (arith, read-role opened),
        record { numbered = ground (arith, g.numbered); kept = ground (arith, g.kept) },
      )

  first-reads :
      (c d : Check) (e : Event) (enc : Encoder)
      → enc.started ≡ false
      → enc.tools ≡ []
      → c.started ≡ false
      → is_fresh c ≡ true
      → Follows c enc
      → check strict c e ≡ some d
      → (reads (phase_of c enc) (event e enc).1 ≡ some (phase_of d (event e enc).0))
        × Follows d (event e enc).0
  unfolding check
  first-reads c d (Event.start id model) enc k t s f g h = start-reads c d id model enc k t s f g h
  first-reads c d (Event.block_start i kind) enc k t s f g h = absurd (ground arith)
  first-reads c d (Event.delta i words) enc k t s f g h =
      absurd (let (id, model, q) = check_first strict c d (Event.delta i words) s f h in cc)
  first-reads c d (Event.block_stop i) enc k t s f g h =
      absurd (let (id, model, q) = check_first strict c d (Event.block_stop i) s f h in cc)
  first-reads c d (Event.usage u) enc k t s f g h = absurd (ground arith)
  first-reads c d (Event.finish stop) enc k t s f g h = absurd (ground arith)

  start_opens :
      (c d : Check) (id model : Text)
      → check strict c (Event.start id model) ≡ some d
      → d.started ≡ true
  unfolding check
  start_opens c d id model h = ground arith

  start-started :
      (c d : Check) (e : Event)
      → c.started ≡ false
      → is_fresh c ≡ true
      → check strict c e ≡ some d
      → d.started ≡ true
  start-started c d e s f h =
      let (id, model, q) = check_first strict c d e s f h in
      start_opens c d id model (rw (q) at (h))

  rest-reads :
      (es : List Event) (c d : Check) (enc : Encoder)
      → enc.started ≡ true
      → c.started ≡ true
      → Follows c enc
      → accepts strict c es ≡ some d
      → d.finished ≡ true
      → reads (phase_of c enc) (events event es enc).1 ≡ some Phase.over
  unfolding accepts events steps
  rest-reads [] c d enc k s g h f = let q = some_inj h in ground arith
  rest-reads (e ∷ es) c d enc k s g h f =
      let (m, a, b) = and_then-eq-some (check strict c e) (λ m. accepts strict m es) d h in
      let (r, g') = later-reads c m e enc k s g a in
      steps_both (λ p v. and_then (read v) (next p)) (phase_of c enc) (phase_of m (event e enc).0)
        Phase.over (event e enc).1 (events event es (event e enc).0).1 r
        (rest-reads es m d (event e enc).0 (event-started e enc) (check-started strict c m e s a) g'
          b f)

  -- The chunks that a well-formed stream of events is encoded into are a whole answer, from the
  -- role to the line that ends it.
  pub openai_events-read :
      (es : List Event) (uuid : Text) (now : ℕ) (model : Text) (d : Check)
      → accepts strict new_check es ≡ some d
      → d.finished ≡ true
      → reads Phase.waiting (events event es (new_encoder uuid now model)).1 ≡ some Phase.over
  unfolding accepts events steps new_encoder below known
  openai_events-read [] uuid now model d h f = let q = some_inj h in absurd (ground arith)
  openai_events-read (e ∷ es) uuid now model d h f =
      let enc = new_encoder uuid now model in
      let (m, a, b) = and_then-eq-some (check strict new_check e) (λ m. accepts strict m es) d h in
      let (r, g) =
        first-reads new_check m e enc refl refl refl refl (record { numbered = refl; kept = refl })
          a in
      steps_both (λ p v. and_then (read v) (next p)) Phase.waiting (phase_of m (event e enc).0)
        Phase.over (event e enc).1 (events event es (event e enc).0).1 r
        (rest-reads es m d (event e enc).0 (event-started e enc)
          (start-started new_check m e refl refl a) g b f)
