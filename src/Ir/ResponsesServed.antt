-- ===== src/Ir/ResponsesServed.antt =====
-- The events of a stream through `Encoder` of src/domain/ir/responses.rs, against what its client
-- expects.
use local_proxy.Base.{
  ℕ, ◌<◌, ◌≤◌, Bool, true, false, Option, none, some, List, [], ◌∷◌, ◌≡◌, refl, arith,
  if◌then◌else◌, Text, inl, inr, some_inj, is_empty,
}
use local_proxy.Ir.Emitter.{events, u32_mod}
use local_proxy.Ir.Fresh.{list_cases, is_fresh, check-started, check_first}
use local_proxy.Ir.Protocol.{Check, new_check, check, accepts}
use local_proxy.Ir.ResponsesClient.{read, Phase, next, reads}
use local_proxy.Ir.ResponsesEncoder.{OpenItem, Encoder, new_encoder}
use local_proxy.Ir.ResponsesEvents.{
  open_response, on_block, find_item, remove_item, close_item, stop_at, on_event, event,
}
use local_proxy.Ir.ResponsesItems.{indices, outputs, rising}
use local_proxy.Ir.Steps.{steps, steps_both}
use local_proxy.Ir.Types.{Event, BlockKind}
use local_proxy.Json.{and_then, and_then-eq-some}
use local_proxy.Ir.ResponsesReads.{read-created, phase_of, Follows, on_event-reads}

module _ (strict : Bool) where
  -- A response that is open is left as it is.
  open_response-started :
      (e : Event) (enc : Encoder) → enc.started ≡ true → open_response e enc ≡ (enc, [])
  unfolding open_response
  open_response-started e enc s = ground arith

  later-reads :
      (c d : Check) (e : Event) (enc : Encoder)
      → enc.started ≡ true
      → c.started ≡ true
      → Follows c enc
      → check strict c e ≡ some d
      → d.seen < u32_mod
      → (reads (phase_of c enc) (event e enc).1 ≡ some (phase_of d (event e enc).0))
        × Follows d (event e enc).0
  unfolding event
  later-reads c d e enc k s g h b =
      rw (open_response-started e enc k) (on_event-reads strict c d e enc s g h b)

  stop_at-started :
      (o : Option OpenItem) (enc : Encoder) → enc.started ≡ true → (stop_at o enc).0.started ≡ true
  unfolding stop_at close_item
  stop_at-started none enc k = k
  stop_at-started (some it) enc k = ground (arith, k)

  on_event-started :
      (e : Event) (enc : Encoder) → enc.started ≡ true → (on_event enc e).0.started ≡ true
  unfolding on_event on_block
  on_event-started (Event.start id model) enc k = k
  on_event-started (Event.block_start i BlockKind.text) enc k = k
  on_event-started (Event.block_start i BlockKind.reasoning) enc k = k
  on_event-started (Event.block_start i (BlockKind.tool_call id name)) enc k = k
  on_event-started (Event.delta i words) enc k = k
  on_event-started (Event.block_stop i) enc k =
      stop_at-started (find_item i enc.opened) (record enc { opened = remove_item i enc.opened }) k
  on_event-started (Event.usage u) enc k = k
  on_event-started (Event.finish stop) enc k = k

  open_response-opens : (e : Event) (enc : Encoder) → (open_response e enc).0.started ≡ true
  unfolding open_response
  open_response-opens e enc = ground arith

  event-started : (e : Event) (enc : Encoder) → (event e enc).0.started ≡ true
  unfolding event
  event-started e enc = on_event-started e (open_response e enc).0 (open_response-opens e enc)

  check-seen : (c d : Check) (e : Event) → check strict c e ≡ some d → c.seen ≤ d.seen
  unfolding check
  check-seen c d (Event.start id model) h = ground arith
  check-seen c d (Event.block_start i kind) h = ground arith
  check-seen c d (Event.delta i words) h = ground arith
  check-seen c d (Event.block_stop i) h = ground arith
  check-seen c d (Event.usage u) h = ground arith
  check-seen c d (Event.finish stop) h = ground arith

  accepts-seen : (es : List Event) (c d : Check) → accepts strict c es ≡ some d → c.seen ≤ d.seen
  unfolding accepts
  accepts-seen [] c d h = let q = some_inj h in ground arith
  accepts-seen (e ∷ es) c d h =
      let (m, a, b) = and_then-eq-some (check strict c e) (λ m. accepts strict m es) d h in
      omega (arith, check-seen c m e a, accepts-seen es m d b)

  rest-reads :
      (es : List Event) (c d : Check) (enc : Encoder)
      → enc.started ≡ true
      → c.started ≡ true
      → Follows c enc
      → accepts strict c es ≡ some d
      → d.finished ≡ true
      → d.seen < u32_mod
      → reads (phase_of c enc) (events event es enc).1 ≡ some Phase.over
  unfolding accepts events steps
  rest-reads [] c d enc k s g h f b = let q = some_inj h in ground arith
  rest-reads (e ∷ es) c d enc k s g h f b =
      let (m, a, t) = and_then-eq-some (check strict c e) (λ m. accepts strict m es) d h in
      let (r, g') = later-reads c m e enc k s g a (omega (arith, accepts-seen es m d t)) in
      steps_both (λ p v. and_then (read v) (next p)) (phase_of c enc) (phase_of m (event e enc).0)
        Phase.over (event e enc).1 (events event es (event e enc).0).1 r
        (rest-reads es m d (event e enc).0 (event-started e enc) (check-started strict c m e s a) g'
          t f b)

  -- The start of a fresh stream.
  start-reads :
      (c d : Check) (id model : Text) (enc : Encoder)
      → enc.started ≡ false
      → enc.next_output ≡ 0
      → enc.opened ≡ []
      → c.started ≡ false
      → is_fresh c ≡ true
      → check strict c (Event.start id model) ≡ some d
      → (reads (phase_of c enc) (event (Event.start id model) enc).1
          ≡ some (phase_of d (event (Event.start id model) enc).0))
        × Follows d (event (Event.start id model) enc).0
  unfolding event open_response on_event check steps next indices outputs rising
  start-reads c d id model enc k n o s f h =
      let opened = record enc { started = true; id = if is_empty id then enc.id else id } in
      elim (list_cases c.opened) [
        | inl e ↦ rw (k) (
          rw (n, o) (ground (arith, read-created opened)),
          record {
            same = rw (o) (ground arith);
            ordered = rw (n, o) refl;
            numbered = rw (n) (omega arith);
          },
        )
        | inr (j, js, e) ↦ absurd (ground arith)
      ]

  start_opens :
      (c d : Check) (id model : Text)
      → check strict c (Event.start id model) ≡ some d
      → d.started ≡ true
  unfolding check
  start_opens c d id model h = ground arith

  -- The events that a well-formed stream of events is encoded into are a whole response, from its
  -- creation to its completion, in which each item is spoken of between its start and its end, if
  -- fewer than 2 ^ 32 blocks were seen. That holds of a lenient stream too.
  pub responses_events-read :
      (es : List Event) (uuid : Text) (now : ℕ) (model : Text) (d : Check)
      → accepts strict new_check es ≡ some d
      → d.finished ≡ true
      → d.seen < u32_mod
      → reads Phase.waiting (events event es (new_encoder uuid now model)).1 ≡ some Phase.over
  unfolding accepts events steps new_encoder
  responses_events-read [] uuid now model d h f b = let q = some_inj h in absurd (ground arith)
  responses_events-read (e ∷ es) uuid now model d h f b =
      let enc = new_encoder uuid now model in
      let (m, a, t) = and_then-eq-some (check strict new_check e) (λ m. accepts strict m es) d h in
      let (id, name, q) = check_first strict new_check m e refl refl a in
      let a' : check strict new_check (Event.start id name) ≡ some m = rw (q) at (a) in
      let (r, g) = start-reads new_check m id name enc refl refl refl refl refl a' in
      rw (q) (
        steps_both (λ p v. and_then (read v) (next p)) Phase.waiting
          (phase_of m (event (Event.start id name) enc).0) Phase.over
          (event (Event.start id name) enc).1
          (events event es (event (Event.start id name) enc).0).1 r
          (rest-reads es m d (event (Event.start id name) enc).0
            (event-started (Event.start id name) enc) (start_opens new_check m id name a') g t f b))
