-- ===== src/Ir/AnthropicAccepts.antt =====
-- The frames of a body through `Decoder` of src/domain/ir/anthropic.rs, to its end, against the
-- life cycle of a stream.
use local_proxy.Base.{
  ℕ, ◌+◌, ◌<◌, Bool, true, false, ◌&&◌, Option, none, some, List, [], ◌∷◌, ◌++◌, ◌≡◌, refl, arith,
  if◌then◌else◌, Text, text_eq, codes, ltb, length,
}
use local_proxy.Ir.Emitter.{start, open_block, push_delta, close, report, and_push, u32_mod}
use local_proxy.Ir.Anthropic.{
  Decoder, new_decoder, ir_index, open_at, block_kind, on_block_start, delta_text, delta_at,
  on_delta, on_block_stop, note_stop, on_start, note_usage, on_message_start, on_message_delta,
  on_value, frame, frames,
}
use local_proxy.Ir.Protocol.{Check, new_check, accepts, accepts_both}
use local_proxy.Ir.Simulation.{
  view, start-accepts, open_block-accepts, close-accepts, push_delta-accepts, finish-accepts,
  finish-done, finish-next,
}
use local_proxy.Ir.Types.{Event, BlockKind}
use local_proxy.Json.{Value, get, get_or, as_str, and_then, str_of, nat_of, null}
use local_proxy.Sse.Frame.{SseFrame, json}
use local_proxy.Usage.{Floats}

-- Every block has an index that was given out.
unfoldable given : ℕ → List (ℕ × ℕ) → Bool
given n [] = true
given n ((u, i) ∷ rest) = ltb i n && given n rest

given-append :
    (n u : ℕ) (bs : List (ℕ × ℕ)) → given n bs ≡ true → given (n + 1) (bs ++ (u, n) ∷ []) ≡ true
unfolding given
given-append n u [] h = ground arith
given-append n u ((v, i) ∷ bs) h = ground (arith, given-append n u bs)

ir_index-given :
    (n u i : ℕ) (bs : List (ℕ × ℕ)) → given n bs ≡ true → ir_index u bs ≡ some i → ltb i n ≡ true
unfolding given ir_index
ir_index-given n u i [] h e = ground arith
ir_index-given n u i ((v, j) ∷ bs) h e = ground (arith, ir_index-given n u i bs)

abbrev Ready : ℕ → Decoder → Type 0
Ready k d = (d.em.finished ≡ false) × (given d.em.next d.blocks ≡ true) × (d.em.next + k < u32_mod)

abbrev Steps : ℕ → Decoder → Decoder × List Event → Type 0
Steps k d (d', out) = (accepts false (view d.em) out ≡ some (view d'.em)) × Ready k d'

and_push-Steps :
    (k m : ℕ) (d : Decoder) (r : Decoder × List Event) (f : Decoder → Decoder × List Event)
    → Steps k d r
    → (Ready k r.0 → Steps m r.0 (f r.0))
    → Steps m d (and_push r f)
and_push-Steps k m d (d1, out) f (a, h) step =
    let (b, g) = step h in
    (accepts_both false (view d.em) (view d1.em) (view (f d1).0.em) out (f d1).1 a b, g)

if_Steps :
    (k : ℕ) (d : Decoder) (b : Bool) (x y : Decoder × List Event)
    → Steps k d x
    → Steps k d y
    → Steps k d (if b then x else y)
if_Steps k d true x y p q = p
if_Steps k d false x y p q = q

stay : (k : ℕ) (d : Decoder) → Ready (1 + k) d → Steps k d (d, [])
unfolding accepts
stay k d (f, g, b) = (refl, (f, g, omega arith))

open_at-Steps :
    (k u : ℕ) (kind : BlockKind) (d : Decoder) → Ready (1 + k) d → Steps k d (open_at u kind d)
unfolding open_at open_block start
open_at-Steps k u kind d (f, g, b) = (
  open_block-accepts false d.em kind f (omega arith),
  (ground arith, ground (arith, given-append d.em.next u d.blocks), ground arith),
)

open_at-next :
    (k u : ℕ) (kind : BlockKind) (d : Decoder)
    → Ready (1 + k) d
    → ltb d.em.next (open_at u kind d).0.em.next ≡ true
unfolding open_at open_block start
open_at-next k u kind d (f, g, b) = ground arith

speaks :
    (k i : ℕ) (d : Decoder) (words : Text)
    → Ready k d
    → ltb i d.em.next ≡ true
    → Steps k d (d, push_delta i words)
speaks k i d words (f, g, b) m = (push_delta-accepts false d.em i words f (ground arith), (f, g, b))

delta_at-Steps :
    (k u : ℕ) (is_text : Bool) (words : Text) (d : Decoder) (o : Option ℕ)
    → Ready (1 + k) d
    → ir_index u d.blocks ≡ o
    → Steps k d (delta_at u is_text words d o)
unfolding delta_at
delta_at-Steps k u is_text words d (some i) h e =
    let (f, g, b) = h in
    speaks k i d words (f, g, omega arith) (ir_index-given d.em.next u i d.blocks g e)
delta_at-Steps k u false words d none h e = stay k d h
delta_at-Steps k u true words d none h e =
    and_push-Steps k k d (open_at u BlockKind.text d) (λ d'. (d', push_delta d.em.next words))
      (open_at-Steps k u BlockKind.text d h)
      (λ g.
        speaks k d.em.next (open_at u BlockKind.text d).0 words g
          (open_at-next k u BlockKind.text d h))

on_delta-Steps :
    (k u : ℕ) (is_text : Bool) (o : Option Text) (d : Decoder)
    → Ready (1 + k) d
    → Steps k d (on_delta u is_text o d)
unfolding on_delta
on_delta-Steps k u is_text none d h = stay k d h
on_delta-Steps k u is_text (some words) d h =
    delta_at-Steps k u is_text words d (ir_index u d.blocks) h refl

on_block_start-Steps :
    (k u : ℕ) (o : Option BlockKind) (d : Decoder)
    → Ready (1 + k) d
    → Steps k d (on_block_start u o d)
unfolding on_block_start
on_block_start-Steps k u none d h = stay k d h
on_block_start-Steps k u (some kind) d h = open_at-Steps k u kind d h

on_block_stop-Steps :
    (k : ℕ) (o : Option ℕ) (d : Decoder) → Ready (1 + k) d → Steps k d (on_block_stop o d)
unfolding on_block_stop close
on_block_stop-Steps k none d h = stay k d h
on_block_stop-Steps k (some i) d (f, g, b) =
    (close-accepts false d.em i f, (ground arith, ground arith, ground arith))

note_stop-Steps :
    (k : ℕ) (o : Option Text) (d : Decoder) → Ready (1 + k) d → Steps k d (note_stop o d)
unfolding note_stop
note_stop-Steps k none d h = stay k d h
note_stop-Steps k (some reason) d h = stay k d h

on_start-Steps :
    (k : ℕ) (message : Value) (d : Decoder) → Ready (1 + k) d → Steps k d (on_start message d)
unfolding on_start start
on_start-Steps k message d (f, g, b) = (
  start-accepts false d.em (str_of message (codes "id")) (str_of message (codes "model")) f,
  (ground arith, ground arith, ground arith),
)

module _ (fl : Floats) (parse_json : Text → Option Value) where
  note_usage-Steps :
      (k : ℕ) (o : Option Value) (d : Decoder)
      → Ready k d
      → Steps k d (note_usage fl parse_json o d)
  unfolding note_usage report accepts
  note_usage-Steps k none d h = (refl, h)
  note_usage-Steps k (some u) d h = (refl, h)

  on_message_start-Steps :
      (k : ℕ) (message : Value) (d : Decoder)
      → Ready (1 + k) d
      → Steps k d (on_message_start fl parse_json message d)
  unfolding on_message_start
  on_message_start-Steps k message d h =
      and_push-Steps k k d (on_start message d)
        (note_usage fl parse_json (get (codes "usage") message)) (on_start-Steps k message d h)
        (note_usage-Steps k (get (codes "usage") message) (on_start message d).0)

  on_message_delta-Steps :
      (k : ℕ) (v : Value) (d : Decoder)
      → Ready (1 + k) d
      → Steps k d (on_message_delta fl parse_json v d)
  unfolding on_message_delta
  on_message_delta-Steps k v d h =
      let o = and_then (and_then (get (codes "delta") v) (get (codes "stop_reason"))) as_str in
      and_push-Steps k k d (note_stop o d) (note_usage fl parse_json (get (codes "usage") v))
        (note_stop-Steps k o d h) (note_usage-Steps k (get (codes "usage") v) (note_stop o d).0)

  on_value-Steps :
      (k : ℕ) (o : Option Value) (d : Decoder)
      → Ready (1 + k) d
      → Steps k d (on_value fl parse_json o d)
  unfolding on_value
  on_value-Steps k none d h = stay k d h
  on_value-Steps k (some v) d h =
      let type = str_of v (codes "type") in
      let upstream = get_or (nat_of v (codes "index")) 0 in
      let delta = get_or (get (codes "delta") v) null in
      if_Steps k d (text_eq type (codes "message_start")) _ _
        (on_message_start-Steps k (get_or (get (codes "message") v) null) d h)
        (if_Steps k d (text_eq type (codes "content_block_start")) _ _
          (on_block_start-Steps k upstream
            (block_kind (get_or (get (codes "content_block") v) null)) d h)
          (if_Steps k d (text_eq type (codes "content_block_delta")) _ _
            (on_delta-Steps k upstream (text_eq (str_of delta (codes "type")) (codes "text_delta"))
              (delta_text delta) d h)
            (if_Steps k d (text_eq type (codes "content_block_stop")) _ _
              (on_block_stop-Steps k (ir_index upstream d.blocks) d h)
              (if_Steps k d (text_eq type (codes "message_delta")) _ _
                (on_message_delta-Steps k v d h) (stay k d h)))))

  frames_from-accepts :
      (fs : List SseFrame) (d : Decoder)
      → Ready (length fs) d
      → (accepts false (view d.em) (frames fl parse_json fs d).1
          ≡ some (view (frames fl parse_json fs d).0.em))
        × ((frames fl parse_json fs d).0.em.finished ≡ true)
        × ((frames fl parse_json fs d).0.em.opened ≡ [])
        × ((frames fl parse_json fs d).0.em.next < u32_mod)
  unfolding frames frame
  frames_from-accepts [] d h =
      let (e, o) = finish-done d.em d.stop h.0 in
      (finish-accepts false d.em d.stop h.0, e, o, omega (arith, h.2, finish-next d.em d.stop))
  frames_from-accepts (f ∷ fs) d (n, g, b) =
      let (a, h) = on_value-Steps (length fs) (json parse_json f) d (n, g, omega arith) in
      let (c, e, o, n) = frames_from-accepts fs (frame fl parse_json f d).0 h in
      (
        accepts_both false (view d.em) (view (frame fl parse_json f d).0.em)
            (view (frames fl parse_json (f ∷ fs) d).0.em) (frame fl parse_json f d).1
            (frames fl parse_json fs (frame fl parse_json f d).0).1 a c,
        e,
        o,
        n,
      )

  -- For fewer than 2 ^ 32 frames, whatever they hold, a fresh decoder gives a stream that starts
  -- once, sends text only to blocks that were opened, closes each block once and then ends, having
  -- opened fewer than 2 ^ 32.
  pub anthropic_frames-accepts :
      (fs : List SseFrame)
      → length fs < u32_mod
      → (c : Check) × (accepts false new_check (frames fl parse_json fs new_decoder).1 ≡ some c)
        × ((c.finished ≡ true) × (c.opened ≡ []) × (c.seen < u32_mod))
  unfolding given
  anthropic_frames-accepts fs h =
      let (a, d, e, n) = frames_from-accepts fs new_decoder (refl, refl, omega arith) in
      (view (frames fl parse_json fs new_decoder).0.em, a, (d, e, n))
