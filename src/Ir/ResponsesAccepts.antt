-- ===== src/Ir/ResponsesAccepts.antt =====
-- The frames of a body through `Decoder` of src/domain/ir/responses.rs, to its end, against the
-- life cycle of a stream.
use local_proxy.Base.{
  ℕ, ◌+◌, ◌<◌, true, false, Option, none, some, List, [], ◌∷◌, ◌≡◌, refl, arith, Text, codes,
  length,
}
use local_proxy.Ir.Emitter.{start, report, and_push, u32_mod}
use local_proxy.Ir.Late.{Heard, hear, new_heard, start-hear, finish-hear}
use local_proxy.Ir.OpenaiLife.{holds}
use local_proxy.Ir.Steps.{steps}
use local_proxy.Ir.Protocol.{Check, new_check, accepts}
use local_proxy.Ir.Responses.{
  Decoder, new_decoder, on_type, start_with, stop_of, note_usage, note_status, on_response, value,
  on_value, frame, frames,
}
use local_proxy.Ir.Simulation.{view, start-accepts, finish-accepts, finish-done, finish-next}
use local_proxy.Json.{Value, get, get_or, str_of, null}
use local_proxy.Sse.Frame.{SseFrame, is_done, json}
use local_proxy.Usage.{Floats}
use local_proxy.Ir.ResponsesHeld.{given, held, fits, spoken, apart, lone, indices}
use local_proxy.Ir.ResponsesSteps.{
  heard_by, Ready, Says, Steps, and_push-Says, and_push-Steps, if_Steps, same, stay,
}
use local_proxy.Ir.ResponsesTypes.{on_type-Steps}

start_with-Steps : (k : ℕ) (r : Value) (d : Decoder) → Ready k d → Steps k d (start_with r d)
unfolding start_with start fits spoken
start_with-Steps k r d (f, g, b) = (
  (
    start-accepts false d.em (str_of r (codes "id")) (str_of r (codes "model")) f,
    start-hear d.em (indices d.tools) (str_of r (codes "id")) (str_of r (codes "model")),
  ),
  (ground arith, ground arith, ground arith),
)

module _ (fl : Floats) (parse_json : Text → Option Value) where
  note_usage-Steps :
      (k : ℕ) (o : Option Value) (d : Decoder)
      → Ready k d
      → Steps k d (note_usage fl parse_json o d)
  unfolding note_usage report accepts steps fits spoken
  note_usage-Steps k none d h = same k d h
  note_usage-Steps k (some u) d (f, g, b) =
      ((ground arith, ground arith), (ground arith, ground arith, ground arith))

  note_status-Steps :
      (k : ℕ) (status : Text) (d : Decoder)
      → Ready k d
      → Steps k d (note_status fl parse_json status d)
  unfolding note_status accepts steps fits spoken
  note_status-Steps k status d (f, g, b) =
      ((ground arith, ground arith), (ground arith, ground arith, ground arith))

  on_response-Steps :
      (k : ℕ) (o : Option Value) (d : Decoder)
      → Ready k d
      → Steps k d (on_response fl parse_json o d)
  unfolding on_response
  on_response-Steps k none d h = same k d h
  on_response-Steps k (some r) d h =
      let usage = note_usage fl parse_json (get (codes "usage") r) in
      and_push-Steps k k d (and_push (start_with r d) usage)
        (note_status fl parse_json (str_of r (codes "status")))
        (and_push-Steps k k d (start_with r d) usage (start_with-Steps k r d h)
          (note_usage-Steps k (get (codes "usage") r) (start_with r d).0))
        (note_status-Steps k (str_of r (codes "status")) (and_push (start_with r d) usage).0)

  pub on_value-Steps :
      (k : ℕ) (o : Option Value) (d : Decoder)
      → Ready (1 + k) d
      → Steps k d (on_value fl parse_json o d)
  unfolding on_value value
  on_value-Steps k none d h = stay k d h
  on_value-Steps k (some v) d h =
      let item = get_or (get (codes "item") v) null in
      let r = on_response fl parse_json (get (codes "response") v) d in
      and_push-Steps (1 + k) k d r (on_type v item)
        (on_response-Steps (1 + k) (get (codes "response") v) d h) (on_type-Steps k v item r.0)

  frame-Steps :
      (k : ℕ) (f : SseFrame) (d : Decoder) → Ready (1 + k) d → Steps k d (frame fl parse_json f d)
  unfolding frame
  frame-Steps k f d h =
      if_Steps k d (is_done f) _ _ (stay k d h) (on_value-Steps k (json parse_json f) d h)

  frames_from-Says :
      (fs : List SseFrame) (d : Decoder)
      → Ready (length fs) d
      → Says d (frames fl parse_json fs d)
        × ((frames fl parse_json fs d).0.em.finished ≡ true)
        × ((frames fl parse_json fs d).0.em.opened ≡ [])
        × ((frames fl parse_json fs d).0.em.next < u32_mod)
  unfolding frames
  frames_from-Says [] d h =
      let (e, o) = finish-done d.em (stop_of d) h.0 in
      (
        (
          finish-accepts false d.em (stop_of d) h.0,
          finish-hear d.em (indices d.tools) (stop_of d) h.0,
        ),
        e,
        o,
        omega (arith, h.2, finish-next d.em (stop_of d)),
      )
  frames_from-Says (f ∷ fs) d (n, g, b) =
      let (a, h) = frame-Steps (length fs) f d (n, g, omega arith) in
      let (c, e, o, n) = frames_from-Says fs (frame fl parse_json f d).0 h in
      (and_push-Says d (frame fl parse_json f d) (frames fl parse_json fs) a c, e, o, n)

  -- For fewer than 2 ^ 32 frames, whatever they hold, a fresh decoder gives a stream that starts
  -- once, numbers fewer than 2 ^ 32 blocks from 0, closes each block once and then ends. It sends
  -- words to a text or a reasoning only while that is open; only the arguments of a call may come
  -- after the call has closed.
  pub responses_frames-accepts :
      (fs : List SseFrame)
      → length fs < u32_mod
      → (c : Check) × (accepts false new_check (frames fl parse_json fs new_decoder).1 ≡ some c)
        × ((c.finished ≡ true)
            × (c.opened ≡ [])
            × (c.seen < u32_mod)
            × ((h : Heard) × (steps hear new_heard (frames fl parse_json fs new_decoder).1
                  ≡ some h)))
  unfolding fits held given spoken holds apart lone indices
  responses_frames-accepts fs h =
      let ((a, k), d, e, n) = frames_from-Says fs new_decoder (refl, refl, omega arith) in
      let last = (frames fl parse_json fs new_decoder).0 in
      (view last.em, a, (d, e, n, (heard_by last, k)))
