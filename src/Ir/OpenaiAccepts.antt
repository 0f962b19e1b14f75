-- ===== src/Ir/OpenaiAccepts.antt =====
-- The frames of a body through `Decoder` of src/domain/ir/openai.rs, to its end, against the life
-- cycle of a stream.
use local_proxy.Base.{
  ℕ, ◌+◌, ◌<◌, true, Option, none, some, List, [], ◌∷◌, ◌≡◌, refl, arith, Text, codes, Bool-cases,
  inl, inr,
}
use local_proxy.Ir.Emitter.{Emitter, start, report, u32_mod}
use local_proxy.Ir.Openai.{
  Decoder, new_decoder, on_choice, open_value, start_with, note_usage, on_value, frame, frames,
}
use local_proxy.Ir.OpenaiSteps.{ready, Ready, Steps, and_push-Steps, stay, unfinished}
use local_proxy.Ir.Protocol.{Check, new_check, accepts, accepts_both}
use local_proxy.Ir.Simulation.{view, start-accepts, finish-accepts, finish-done, finish-next}
use local_proxy.Json.{Value, get, is_null, str_of, first_of}
use local_proxy.Sse.Frame.{SseFrame, is_done, json}
use local_proxy.Usage.{Floats}
use local_proxy.Ir.OpenaiDeltas.{Ready-less, new_decoder-Ready, on_choice-Steps, choice_weight}

start-next : (e : Emitter) (id model : Text) → (start e id model).0.next ≡ e.next
unfolding start
start-next e id model = ground arith

start_with-Steps : (k : ℕ) (v : Value) (d : Decoder) → Ready k d → Steps k d (start_with v d)
unfolding start_with start ready
start_with-Steps k v d (h, b) = (
  start-accepts true d.em (str_of v (codes "id")) (str_of v (codes "model")) (unfinished d h),
  (ground arith, ground arith),
)

module _ (fl : Floats) (parse_json : Text → Option Value) where
  note_usage-Steps :
      (k : ℕ) (o : Option Value) (d : Decoder)
      → Ready k d
      → Steps k d (note_usage fl parse_json o d)
  unfolding note_usage report ready accepts
  note_usage-Steps k none d h = stay k d h
  note_usage-Steps k (some u) d (h, b) = elim (Bool-cases (is_null u)) [
    | inl e ↦ rw (e) (stay k d (h, b))
    | inr e ↦ rw (e) (refl, (h, b))
  ]

  abbrev pub value_weight : Option Value → ℕ
  value_weight none = 0
  value_weight (some v) = choice_weight (first_of v (codes "choices"))

  open_value-Steps :
      (k : ℕ) (v : Value) (d : Decoder) → Ready k d → Steps k d (open_value fl parse_json v d)
  unfolding open_value
  open_value-Steps k v d h =
      and_push-Steps k k d (start_with v d) (note_usage fl parse_json (get (codes "usage") v))
        (start_with-Steps k v d h) (note_usage-Steps k (get (codes "usage") v) (start_with v d).0)

  on_value-Steps :
      (k : ℕ) (o : Option Value) (d : Decoder)
      → Ready (value_weight o + k) d
      → Steps k d (on_value fl parse_json o d)
  unfolding on_value
  on_value-Steps k none d h = stay k d (Ready-less (0 + k) k d (omega arith) h)
  on_value-Steps k (some v) d h =
      and_push-Steps (value_weight (some v) + k) k d (open_value fl parse_json v d)
        (on_choice (first_of v (codes "choices")))
        (open_value-Steps (value_weight (some v) + k) v d h)
        (on_choice-Steps k (first_of v (codes "choices")) (open_value fl parse_json v d).0)

  abbrev pub weight : List SseFrame → ℕ
  weight [] = 0
  weight (f ∷ fs) = value_weight (json parse_json f) + weight fs

  frame-Steps :
      (k : ℕ) (f : SseFrame) (d : Decoder)
      → Ready (value_weight (json parse_json f) + k) d
      → Steps k d (frame fl parse_json f d)
  unfolding frame
  frame-Steps k f d h = elim (Bool-cases (is_done f)) [
    | inl e ↦
        rw (e) (stay k d (Ready-less (value_weight (json parse_json f) + k) k d (omega arith) h))
    | inr e ↦ rw (e) (on_value-Steps k (json parse_json f) d h)
  ]

  frames_from-accepts :
      (fs : List SseFrame) (d : Decoder)
      → Ready (weight fs) d
      → accepts true (view d.em) (frames fl parse_json fs d).1
        ≡ some (view (frames fl parse_json fs d).0.em)
  unfolding frames
  frames_from-accepts [] d h = finish-accepts true d.em d.stop (unfinished d h.0)
  frames_from-accepts (f ∷ fs) d h =
      let (a, g) = frame-Steps (weight fs) f d h in
      accepts_both true (view d.em) (view (frame fl parse_json f d).0.em)
        (view (frames fl parse_json (f ∷ fs) d).0.em) (frame fl parse_json f d).1
        (frames fl parse_json fs (frame fl parse_json f d).0).1 a
        (frames_from-accepts fs (frame fl parse_json f d).0 g)

  frames-done :
      (fs : List SseFrame) (d : Decoder)
      → Ready (weight fs) d
      → ((frames fl parse_json fs d).0.em.finished ≡ true)
        × ((frames fl parse_json fs d).0.em.opened ≡ [])
        × ((frames fl parse_json fs d).0.em.next < u32_mod)
  unfolding frames
  frames-done [] d h =
      let (e, o) = finish-done d.em d.stop (unfinished d h.0) in
      (e, o, omega (arith, h.1, finish-next d.em d.stop))
  frames-done (f ∷ fs) d h =
      frames-done fs (frame fl parse_json f d).0 (frame-Steps (weight fs) f d h).1

  -- For any frames of which the blocks are fewer than 2 ^ 32, a fresh decoder gives a stream that
  -- starts once, sends text to open blocks only, closes every block and then ends,
  -- having opened fewer than 2 ^ 32.
  pub openai_frames-accepts :
      (fs : List SseFrame)
      → weight fs < u32_mod
      → (c : Check) × (accepts true new_check (frames fl parse_json fs new_decoder).1 ≡ some c)
        × ((c.finished ≡ true) × (c.opened ≡ []) × (c.seen < u32_mod))
  openai_frames-accepts fs h = (
    view (frames fl parse_json fs new_decoder).0.em,
    frames_from-accepts fs new_decoder (new_decoder-Ready (weight fs) h),
    frames-done fs new_decoder (new_decoder-Ready (weight fs) h),
  )
