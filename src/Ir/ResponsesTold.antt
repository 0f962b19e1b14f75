-- ===== src/Ir/ResponsesTold.antt =====
-- The frames of a body through `Decoder` of src/domain/ir/responses.rs, to its end, by the words that
-- they carry.
use local_proxy.Base.{
  ℕ, Bool, Bool-cases, inl, inr, true, false, ◌||◌, Option, none, some, List, [], ◌∷◌, ◌++◌, ◌≡◌,
  refl, arith, ◌∙◌, if◌then◌else◌, Text, text_eq, codes, append-nil,
}
use local_proxy.Ir.Emitter.{Emitter, start, finish, stops, and_push, push_delta}
use local_proxy.Ir.Responses.{
  Decoder, new_decoder, item_key, tool_index, close_at, take_text, take_reasoning, close_prose,
  push_tool, whole_call, call_done, item_done, item_added, on_type, start_with, stop_of, note_usage,
  note_status, on_response, value, on_value, frame, frames,
}
use local_proxy.Ir.ResponsesWords.{
  words_in, told_by_item, told_by, told, keys, contains_text-keys, words_in-append,
  words_in-push_delta, words_in-start, Tells, Quiet, Quiet-and_push, if_Tells, nothing,
  close_at-Quiet, take_text-Quiet, take_reasoning-Quiet, close_prose-Quiet, push_tool-Tells,
  open_tool-Tells, prose-Tells, arguments_at-Tells,
}
use local_proxy.Ir.Types.{Event, StopReason}
use local_proxy.Json.{Value, null, get, get_or, str_of}
use local_proxy.Sse.Frame.{SseFrame, is_done, json}
use local_proxy.Usage.{Floats, TokenUsage}

-- A push that is followed by one which says no more.
and_push-Quiet :
    (d : Decoder) (r : Decoder × List Event) (f : Decoder → Decoder × List Event)
    (p : Text × List Text)
    → Tells r p
    → Quiet r.0 (f r.0)
    → Tells (and_push r f) p
and_push-Quiet d (d1, out) f p (w, k) (w2, k2) =
    (words_in-append out (f d1).1 ∙ rw (w2) (append-nil (words_in out) ∙ w), k2 ∙ k)

whole_call-Tells :
    (key : Text) (item : Value) (d : Decoder)
    → Tells (whole_call key item d) (str_of item (codes "arguments"), keys d.tools ++ key ∷ [])
unfolding whole_call
whole_call-Tells key item d =
    let words = str_of item (codes "arguments") in
    let d1 = (push_tool key item d).0 in
    let (w, k) = push_tool-Tells key item d in
    let (a, b) =
      and_push-Quiet d1 (d1, push_delta d.em.next words) (close_at (some d.em.next))
        (words, keys d1.tools) (words_in-push_delta d.em.next words, refl)
        (close_at-Quiet (some d.em.next) d1) in
    (
      words_in-append (push_tool key item d).1
            (and_push (d1, push_delta d.em.next words) (close_at (some d.em.next))).1
          ∙ rw (w) a,
      b ∙ k,
    )

call_done-Tells :
    (key : Text) (item : Value) (o : Option ℕ) (d : Decoder)
    → tool_index key d.tools ≡ o
    → Tells (call_done key item o d) (told_by_item (keys d.tools) key item)
unfolding call_done
call_done-Tells key item (some i) d e =
    rw (contains_text-keys key d.tools, e) (close_at-Quiet (some i) d)
call_done-Tells key item none d e =
    rw (contains_text-keys key d.tools, e)
      (Quiet-and_push d (close_prose d) (whole_call key item)
        (λ ks. (str_of item (codes "arguments"), ks ++ key ∷ [])) (close_prose-Quiet d)
        (whole_call-Tells key item (close_prose d).0))

item_done-Tells :
    (v item : Value) (d : Decoder)
    → Tells (item_done v item d) (
        if text_eq (str_of item (codes "type")) (codes "function_call")
        then told_by_item (keys d.tools) (item_key v (str_of item (codes "id"))) item
        else ([], keys d.tools))
unfolding item_done
item_done-Tells v item d =
    let type = str_of item (codes "type") in
    let key = item_key v (str_of item (codes "id")) in
    if_Tells (text_eq type (codes "function_call")) _ _ _ _
      (call_done-Tells key item (tool_index key d.tools) d refl)
      (message (text_eq type (codes "message")) (text_eq type (codes "reasoning")))
  where
    message :
        (b c : Bool) → Quiet d (if b then take_text d else if c then take_reasoning d else (d, []))
    message true c = take_text-Quiet d
    message false true = take_reasoning-Quiet d
    message false false = nothing d

item_added-Tells :
    (v item : Value) (d : Decoder)
    → Tells (item_added v item d) (
        if text_eq (str_of item (codes "type")) (codes "function_call")
        then ([], keys d.tools ++ item_key v (str_of item (codes "id")) ∷ [])
        else ([], keys d.tools))
unfolding item_added
item_added-Tells v item d =
    if_Tells (text_eq (str_of item (codes "type")) (codes "function_call")) _ _ _ _
      (open_tool-Tells (item_key v (str_of item (codes "id"))) item d) (nothing d)

on_type-Tells :
    (v : Value) (d : Decoder)
    → Tells (on_type v (get_or (get (codes "item") v) null) d) (told_by (keys d.tools) v)
unfolding on_type
on_type-Tells v d =
    let type = str_of v (codes "type") in
    let words = str_of v (codes "delta") in
    let item = get_or (get (codes "item") v) null in
    let key = item_key v (str_of v (codes "item_id")) in
    if_Tells (text_eq type (codes "response.output_item.added")) _ _ _ _ (item_added-Tells v item d)
      (if_Tells (text_eq type (codes "response.output_text.delta")) _ _ _ _
        (prose-Tells false words d)
        (if_Tells
          (text_eq type (codes "response.reasoning_summary_text.delta")
            || text_eq type (codes "response.reasoning_text.delta"))
          _ _ _ _ (prose-Tells true words d)
          (if_Tells (text_eq type (codes "response.function_call_arguments.delta")) _ _ _ _
            (rw (contains_text-keys key d.tools)
              (arguments_at-Tells (tool_index key d.tools) words d))
            (if_Tells (text_eq type (codes "response.output_item.done")) _ _ _ _
              (item_done-Tells v item d) (nothing d)))))

start_with-Quiet : (r : Value) (d : Decoder) → Quiet d (start_with r d)
unfolding start_with
start_with-Quiet r d =
    (words_in-start d.em (str_of r (codes "id")) (str_of r (codes "model")), refl)

words_in-stops : (is : List ℕ) → words_in (stops is) ≡ []
unfolding stops
words_in-stops [] = refl
words_in-stops (i ∷ is) = words_in-stops is

module _ (fl : Floats) (parse_json : Text → Option Value) where
  note_usage-Quiet : (o : Option Value) (d : Decoder) → Quiet d (note_usage fl parse_json o d)
  unfolding note_usage
  note_usage-Quiet none d = nothing d
  note_usage-Quiet (some u) d = (refl, ground arith)

  note_status-Quiet : (s : Text) (d : Decoder) → Quiet d (note_status fl parse_json s d)
  unfolding note_status
  note_status-Quiet s d = (refl, ground arith)

  on_response-Quiet : (o : Option Value) (d : Decoder) → Quiet d (on_response fl parse_json o d)
  unfolding on_response
  on_response-Quiet none d = nothing d
  on_response-Quiet (some r) d =
      let usage = note_usage fl parse_json (get (codes "usage") r) in
      let (d1, out) = start_with r d in
      and_push-Quiet d (and_push (start_with r d) usage)
        (note_status fl parse_json (str_of r (codes "status"))) ([], keys d.tools)
        (and_push-Quiet d (start_with r d) usage ([], keys d.tools) (start_with-Quiet r d)
          (note_usage-Quiet (get (codes "usage") r) (start_with r d).0))
        (note_status-Quiet (str_of r (codes "status")) (and_push (start_with r d) usage).0)

  -- The payloads of the frames that are JSON, past the marks of the end.
  abbrev pub payloads : List SseFrame → List Value
  payloads [] = []
  payloads (f ∷ fs) =
      let rest = payloads fs in
      if is_done f then rest else elim (json parse_json f) [ none ↦ rest | some v ↦ v ∷ rest ]

  value-Tells :
      (v : Value) (d : Decoder) → Tells (value fl parse_json v d) (told_by (keys d.tools) v)
  unfolding value
  value-Tells v d =
      Quiet-and_push d (on_response fl parse_json (get (codes "response") v) d)
        (on_type v (get_or (get (codes "item") v) null)) (λ ks. told_by ks v)
        (on_response-Quiet (get (codes "response") v) d)
        (on_type-Tells v (on_response fl parse_json (get (codes "response") v) d).0)

  ends-silent :
      (is : List ℕ) (u : TokenUsage) (r : StopReason)
      → words_in (stops is ++ Event.usage u ∷ Event.finish r ∷ []) ≡ []
  ends-silent is u r =
      words_in-append (stops is) (Event.usage u ∷ Event.finish r ∷ []) ∙ rw (words_in-stops is) refl

  finish-silent : (e : Emitter) (stop : Option StopReason) → words_in (finish e stop).1 ≡ []
  unfolding finish start
  finish-silent e stop =
      let reason = get_or stop (if e.saw_tool then StopReason.tool_use else StopReason.end_turn) in
      elim (Bool-cases e.started) [
        | inl s ↦ ground (arith, ends-silent e.opened e.usage reason)
        | inr s ↦ ground (arith, ends-silent e.opened e.usage reason)
      ]

  -- What one frame says, before what the others say.
  said_first : List Text → Bool → Option Value → Text × List Text
  said_first known true o = ([], known)
  said_first known false none = ([], known)
  said_first known false (some v) = told_by known v

  frame-Tells :
      (f : SseFrame) (d : Decoder)
      → Tells (frame fl parse_json f d) (said_first (keys d.tools) (is_done f) (json parse_json f))
  unfolding frame on_value said_first
  frame-Tells f d = one (is_done f) (json parse_json f)
    where
      one :
          (b : Bool) (o : Option Value)
          → Tells
              (if b then (d, []) else on_value fl parse_json o d)
              (said_first (keys d.tools) b o)
      one true o = nothing d
      one false none = nothing d
      one false (some v) = value-Tells v d

  told-said_first :
      (b : Bool) (o : Option Value) (known : List Text) (vs : List Value)
      → told known (if b then vs else elim o [ none ↦ vs | some v ↦ v ∷ vs ])
        ≡ (said_first known b o).0 ++ told (said_first known b o).1 vs
  unfolding said_first
  told-said_first true o known vs = refl
  told-said_first false none known vs = refl
  told-said_first false (some v) known vs = refl

  frames_from-told :
      (fs : List SseFrame) (d : Decoder)
      → words_in (frames fl parse_json fs d).1 ≡ told (keys d.tools) (payloads fs)
  unfolding frames
  frames_from-told [] d = finish-silent d.em (stop_of d)
  frames_from-told (f ∷ fs) d =
      let (w, k) = frame-Tells f d in
      let d1 = (frame fl parse_json f d).0 in
      words_in-append (frame fl parse_json f d).1 (frames fl parse_json fs d1).1
      ∙ rw
          (
            told-said_first (is_done f) (json parse_json f) (keys d.tools) (payloads fs),
            frames_from-told fs d1,
            w,
            k,
          )
          refl

  -- For any frames, the words that the decoder's events carry, in order, are those of the payloads
  -- in their order: the deltas of text and of reasoning, the argument deltas of a call that an item
  -- has opened, and the arguments of a finished call that none has.
  pub responses_frames-told :
      (fs : List SseFrame)
      → words_in (frames fl parse_json fs new_decoder).1 ≡ told [] (payloads fs)
  responses_frames-told fs = frames_from-told fs new_decoder
