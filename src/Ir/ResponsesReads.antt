-- ===== src/Ir/ResponsesReads.antt =====
-- One event through the encoder of src/domain/ir/responses.rs, once the response is created.
use local_proxy.Base.{
  ℕ, ◌<◌, ◌≤◌, Bool, true, false, Option, none, some, List, [], ◌∷◌, ◌++◌, ◌≡◌, refl, sym, ap, ◌∙◌,
  arith, if◌then◌else◌, Text, text_eq, text_lt, codes,
}
use local_proxy.Ir.Emitter.{mem, remove, u32_mod}
use local_proxy.Ir.Protocol.{Check, check, no_blocks}
use local_proxy.Ir.ResponsesClient.{Payload, read, Phase, next, reads}
use local_proxy.Ir.ResponsesEncoder.{
  OpenItem, Encoder, created, completed, item_added, part_added, text_delta, arguments_delta,
  text_done, arguments_done, item_done, new_message, new_call, message_item, function_item,
}
use local_proxy.Ir.ResponsesEvents.{
  new_item, on_block, find_item, remove_item, delta_of, delta_at, close_item, stop_at, on_event,
}
use local_proxy.Ir.ResponsesItems.{
  shown, indices, outputs, rising, indices-push_text, outputs-push_text, rising-push_text,
  find_item-indices, indices-remove_item, find_item-outputs, rising-remove_item,
  outputs-remove_item, outputs-remove_item-hidden, indices-append, outputs-append, rising-append,
  rising-append-hidden,
}
use local_proxy.Ir.Steps.{steps}
use local_proxy.Ir.Types.{Event, BlockKind}
use local_proxy.Json.{Value, get_field, insert_field}

pub read-created : (enc : Encoder) → read (created enc) ≡ some Payload.created
unfolding read created get_field insert_field text_eq text_lt codes
read-created enc = refl

read-completed : (enc : Encoder) → read (completed enc) ≡ some Payload.completed
unfolding read completed get_field insert_field text_eq text_lt codes
read-completed enc = refl

read-item_added : (n : ℕ) (item : Value) → read (item_added n item) ≡ some (Payload.item_added n)
unfolding read item_added get_field insert_field text_eq text_lt codes
read-item_added n item = refl

module _ (it : OpenItem) where
  read-part_added : read (part_added it) ≡ some (Payload.item_says it.output_index)
  unfolding read part_added get_field insert_field text_eq text_lt codes
  read-part_added = refl

  read-text_delta :
      (words : Text) → read (text_delta it words) ≡ some (Payload.item_says it.output_index)
  unfolding read text_delta get_field insert_field text_eq text_lt codes
  read-text_delta words = refl

  read-arguments_delta :
      (words : Text) → read (arguments_delta it words) ≡ some (Payload.item_says it.output_index)
  unfolding read arguments_delta get_field insert_field text_eq text_lt codes
  read-arguments_delta words = refl

  read-text_done : read (text_done it) ≡ some (Payload.item_says it.output_index)
  unfolding read text_done get_field insert_field text_eq text_lt codes
  read-text_done = refl

  read-arguments_done : read (arguments_done it) ≡ some (Payload.item_says it.output_index)
  unfolding read arguments_done get_field insert_field text_eq text_lt codes
  read-arguments_done = refl

  read-item_done :
      (item : Value) → read (item_done it item) ≡ some (Payload.item_done it.output_index)
  unfolding read item_done get_field insert_field text_eq text_lt codes
  read-item_done item = refl

mem_last : (n : ℕ) (js : List ℕ) → mem n (js ++ n ∷ []) ≡ true
unfolding mem
mem_last n [] = ground arith
mem_last n (j ∷ js) = ground (arith, mem_last n js)

-- Where the client is.
abbrev pub phase_of : Check → Encoder → Phase
phase_of c enc =
    if c.finished
    then Phase.over
    else if c.started
    then Phase.streaming enc.next_output (outputs enc.opened)
    else Phase.waiting

pub record Follows (c : Check) (enc : Encoder) : Type 0 where
  pub same : indices enc.opened ≡ c.opened
  pub ordered : rising 0 enc.next_output enc.opened ≡ true
  pub numbered : enc.next_output ≤ c.seen

no_outputs : (its : List OpenItem) → no_blocks (indices its) ≡ true → outputs its ≡ []
unfolding indices outputs
no_outputs [] h = refl
no_outputs (it ∷ its) h = absurd (ground arith)

module _ (strict : Bool) where
  on_block-reads :
      (c d : Check) (i : ℕ) (kind : BlockKind) (enc : Encoder)
      → c.started ≡ true
      → Follows c enc
      → check strict c (Event.block_start i kind) ≡ some d
      → d.seen < u32_mod
      → (reads (phase_of c enc) (on_block i kind enc).1 ≡ some (phase_of d (on_block i kind enc).0))
        × Follows d (on_block i kind enc).0
  unfolding on_block check steps next
  on_block-reads c d i BlockKind.text enc s f h b =
      let it = new_item i BlockKind.text enc.next_output in
      let l : (enc.next_output ≤ c.seen) = f.numbered in
      (
        ground (
          arith,
          read-item_added enc.next_output (new_message it.item_id),
          read-part_added it,
          outputs-append enc.opened it,
          mem_last enc.next_output (outputs enc.opened),
          l,
        ),
        record {
          same = ground (arith, f.same, indices-append enc.opened it);
          ordered =
              ground (arith, l, rising-append 0 enc.next_output enc.opened it refl refl f.ordered);
          numbered = ground (arith, l);
        },
      )
  on_block-reads c d i (BlockKind.tool_call id name) enc s f h b =
      let it = new_item i (BlockKind.tool_call id name) enc.next_output in
      let l : (enc.next_output ≤ c.seen) = f.numbered in
      (
        ground (
          arith,
          read-item_added enc.next_output (new_call it.item_id name),
          outputs-append enc.opened it,
          l,
        ),
        record {
          same = ground (arith, f.same, indices-append enc.opened it);
          ordered =
              ground (arith, l, rising-append 0 enc.next_output enc.opened it refl refl f.ordered);
          numbered = ground (arith, l);
        },
      )
  on_block-reads c d i BlockKind.reasoning enc s f h b =
      let it = new_item i BlockKind.reasoning enc.next_output in
      let l : (enc.next_output ≤ c.seen) = f.numbered in
      (
        ground (arith, outputs-append enc.opened it),
        record {
          same = ground (arith, f.same, indices-append enc.opened it);
          ordered = rising-append-hidden 0 enc.next_output enc.opened it refl f.ordered;
          numbered = ground (arith, l);
        },
      )

  -- What is said of an item that is open, or of none.
  says-reads :
      (n : ℕ) (words : Text) (js : List ℕ) (it : OpenItem) (kind : BlockKind)
      → (shown kind ≡ true → mem it.output_index js ≡ true)
      → reads (Phase.streaming n js) (delta_of kind it words) ≡ some (Phase.streaming n js)
  unfolding delta_of steps next
  says-reads n words js it BlockKind.text m =
      let k = m refl in ground (arith, read-text_delta it words)
  says-reads n words js it (BlockKind.tool_call id name) m =
      let k = m refl in ground (arith, read-arguments_delta it words)
  says-reads n words js it BlockKind.reasoning m = refl

  delta-reads :
      (enc : Encoder) (i : ℕ) (words : Text) (o : Option OpenItem)
      → find_item i enc.opened ≡ o
      → reads (Phase.streaming enc.next_output (outputs enc.opened)) (delta_at o words)
        ≡ some (Phase.streaming enc.next_output (outputs enc.opened))
  unfolding delta_at steps
  delta-reads enc i words none e = refl
  delta-reads enc i words (some it) e =
      says-reads enc.next_output words (outputs enc.opened) it it.kind
        (λ s. find_item-outputs i enc.opened it e s)

  -- The end of an item, for a client that holds it open.
  close_item-reads :
      (n : ℕ) (js ks : List ℕ) (it : OpenItem) (kind : BlockKind) (enc : Encoder)
      → (shown kind ≡ true → (mem it.output_index js ≡ true) × (ks ≡ remove it.output_index js))
      → (shown kind ≡ false → ks ≡ js)
      → reads (Phase.streaming n js) (close_item kind it enc).1 ≡ some (Phase.streaming n ks)
  unfolding close_item steps next
  close_item-reads n js ks it BlockKind.text enc s t =
      let (m, r) = s refl in
      ground (arith, read-text_done it, read-item_done it (message_item it.item_id it.acc))
  close_item-reads n js ks it (BlockKind.tool_call id name) enc s t =
      let (m, r) = s refl in
      ground
        (arith, read-arguments_done it, read-item_done it (function_item it.item_id name it.acc))
  close_item-reads n js ks it BlockKind.reasoning enc s t = let r = t refl in ground arith

  close_item-keeps :
      (kind : BlockKind) (it : OpenItem) (enc : Encoder)
      → ((close_item kind it enc).0.opened ≡ enc.opened)
        × ((close_item kind it enc).0.next_output ≡ enc.next_output)
  unfolding close_item
  close_item-keeps BlockKind.text it enc = (refl, refl)
  close_item-keeps (BlockKind.tool_call id name) it enc = (refl, refl)
  close_item-keeps BlockKind.reasoning it enc = (refl, refl)

  stop-reads :
      (c d : Check) (i : ℕ) (enc : Encoder) (it : OpenItem)
      → c.started ≡ true
      → c.finished ≡ false
      → d ≡ record c { opened = remove i c.opened }
      → Follows c enc
      → find_item i enc.opened ≡ some it
      → (reads
            (phase_of c enc)
            (close_item it.kind it (record enc { opened = remove_item i enc.opened })).1
          ≡ some (
              phase_of d
                (close_item it.kind it (record enc { opened = remove_item i enc.opened })).0))
        × Follows d (close_item it.kind it (record enc { opened = remove_item i enc.opened })).0
  stop-reads c d i enc it s n q f e =
      let enc' = record enc { opened = remove_item i enc.opened } in
      let (o, x) = close_item-keeps it.kind it enc' in
      let r =
        close_item-reads enc.next_output (outputs enc.opened) (outputs enc'.opened) it it.kind enc'
          (λ t. (
            find_item-outputs i enc.opened it e t,
            outputs-remove_item 0 enc.next_output i enc.opened it f.ordered e t,
          ))
          (outputs-remove_item-hidden i enc.opened it e) in
      let l : (enc.next_output ≤ c.seen) = f.numbered in
      rw (q, o, x)
        (
          ground (arith, r),
          record {
            same = rw (o) (indices-remove_item i enc.opened ∙ ap (remove i) f.same);
            ordered = rw (o, x) (rising-remove_item 0 enc.next_output i enc.opened f.ordered);
            numbered = rw (x) l;
          },
        )

  pub on_event-reads :
      (c d : Check) (e : Event) (enc : Encoder)
      → c.started ≡ true
      → Follows c enc
      → check strict c e ≡ some d
      → d.seen < u32_mod
      → (reads (phase_of c enc) (on_event enc e).1 ≡ some (phase_of d (on_event enc e).0))
        × Follows d (on_event enc e).0
  unfolding on_event check steps next stop_at
  on_event-reads c d (Event.start id model) enc s f h b = absurd (ground arith)
  on_event-reads c d (Event.block_start i kind) enc s f h b = on_block-reads c d i kind enc s f h b
  on_event-reads c d (Event.delta i words) enc s f h b =
      let e : c ≡ d = ground arith in
      let l : (enc.next_output ≤ c.seen) = f.numbered in
      let r = delta-reads enc i words (find_item i enc.opened) refl in
      rw (sym e) (
        ground (arith, r, outputs-push_text i words enc.opened),
        record {
          same = indices-push_text i words enc.opened ∙ f.same;
          ordered = rising-push_text 0 enc.next_output i words enc.opened ∙ f.ordered;
          numbered = l;
        },
      )
  on_event-reads c d (Event.block_stop i) enc s f h b =
      let (it, e) = find_item-indices i enc.opened (rw (f.same) (ground arith)) in
      rw (e) (stop-reads c d i enc it s (ground arith) (ground arith) f e)
  on_event-reads c d (Event.usage u) enc s f h b =
      let e : c ≡ d = ground arith in
      let l : (enc.next_output ≤ c.seen) = f.numbered in
      rw (sym e) (refl, record { same = f.same; ordered = f.ordered; numbered = l })
  on_event-reads c d (Event.finish stop) enc s f h b =
      let l : (enc.next_output ≤ c.seen) = f.numbered in
      (
        ground (arith, read-completed enc, f.same, no_outputs enc.opened),
        record { same = ground (arith, f.same); ordered = f.ordered; numbered = ground (arith, l) },
      )
