-- ===== src/Streams/Verbatim.antt =====
-- `ScannedStream` of src/application/streams.rs, polled beyond its end.
use local_proxy.Base.{
  ℕ, zero, suc, ◌+◌, Bool, true, false, Option, none, some, List, [], ◌∷◌, ◌++◌, ◌≡◌, refl, sym, ap,
  ◌∙◌, if◌then◌else◌, Text, map, length, append_assoc, is_blank, arith, trim, trim_start, trim_end,
  Bool-cases, inl, inr,
}
use local_proxy.Json.{Value}
use local_proxy.Sse.Buffer.{feed_frames, flush_frames}
use local_proxy.Sse.Frame.{SseFrame, json}
use local_proxy.Sse.Stream.{Item, chunk, failed, feed_all, scan, to_list}
use local_proxy.Streams.{Report, note_comments}
use local_proxy.Usage.{Floats, TokenUsage, no_usage}
use local_proxy.Usage.Energy.{EnergyCost}
use local_proxy.Streams.Scanned.{
  Scanned, scan_passthrough, merged, absorb, absorb_all, record_once, poll_next, polls,
}

module _ (fl : Floats) (parse_json : Text → Option Value) where
  -- The chunks of a body, past its read errors.
  abbrev pub chunks : List Item → List (List ℕ)
  chunks [] = []
  chunks (chunk bytes ∷ items) = bytes ∷ chunks items
  chunks (failed e ∷ items) = chunks items

  -- The usage and the metadata of some frames.
  abbrev pub totals :
      List SseFrame
      → TokenUsage × (Option EnergyCost × Option EnergyCost)
      → TokenUsage × (Option EnergyCost × Option EnergyCost)
  totals [] (usage, known) = (usage, known)
  totals (f ∷ fs) (usage, known) =
      totals fs (
        merged fl parse_json (json parse_json f) usage,
        note_comments fl parse_json f.comments known,
      )

  absorb_all-totals :
      (fs : List SseFrame) (st : Scanned)
      → absorb_all fl parse_json fs st ≡ record st {
        usage = (totals fs (st.usage, st.known)).0;
        known = (totals fs (st.usage, st.known)).1;
      }
  unfolding absorb_all absorb
  absorb_all-totals [] st = refl
  absorb_all-totals (f ∷ fs) st = absorb_all-totals fs (absorb fl parse_json f st)

  totals-append :
      (fs gs : List SseFrame) (acc : TokenUsage × (Option EnergyCost × Option EnergyCost))
      → totals (fs ++ gs) acc ≡ totals gs (totals fs acc)
  totals-append [] gs (u, k) = refl
  totals-append (f ∷ fs) gs (u, k) =
      totals-append fs gs
        (merged fl parse_json (json parse_json f) u, note_comments fl parse_json f.comments k)

  -- While the body lasts, and after its end.
  abbrev going :
      List Item → Bool → Text → TokenUsage × (Option EnergyCost × Option EnergyCost) → Scanned
  going items captured buf acc = record {
    inner = items;
    captured = captured;
    buf = buf;
    usage = acc.0;
    known = acc.1;
    recorded = false;
    reports = [];
  }

  abbrev pub report_of : Bool → TokenUsage × (Option EnergyCost × Option EnergyCost) → List Report
  report_of captured (usage, known) =
      if captured then record { usage = usage; energy = known.0; cost = known.1 } ∷ [] else []

  abbrev closed : Bool → Text → TokenUsage × (Option EnergyCost × Option EnergyCost) → Scanned
  closed captured buf acc = record {
    inner = [];
    captured = captured;
    buf = buf;
    usage = acc.0;
    known = acc.1;
    recorded = true;
    reports = report_of captured acc;
  }

  poll-chunk :
      (bytes : List ℕ) (items : List Item) (captured : Bool) (buf : Text)
      (acc : TokenUsage × (Option EnergyCost × Option EnergyCost))
      → poll_next fl parse_json (chunk bytes ∷ items) (going (chunk bytes ∷ items) captured buf acc)
        ≡ (
          some (chunk bytes),
          going items captured (feed_frames buf bytes).1 (totals (feed_frames buf bytes).0 acc),
        )
  unfolding poll_next
  poll-chunk bytes items captured buf acc =
      rw
        (absorb_all-totals (feed_frames buf bytes).0
          (going items captured (feed_frames buf bytes).1 acc))
        refl

  poll-failed :
      (e : Text) (items : List Item) (captured : Bool) (buf : Text)
      (acc : TokenUsage × (Option EnergyCost × Option EnergyCost))
      → poll_next fl parse_json (failed e ∷ items) (going (failed e ∷ items) captured buf acc)
        ≡ (some (failed e), going items captured buf acc)
  unfolding poll_next
  poll-failed e items captured buf acc = refl

  poll-end :
      (captured : Bool) (buf : Text) (acc : TokenUsage × (Option EnergyCost × Option EnergyCost))
      → poll_next fl parse_json [] (going [] captured buf acc)
        ≡ (none, closed captured (flush_frames buf).1 (totals (to_list (flush_frames buf).0) acc))
  unfolding poll_next record_once
  poll-end true buf acc =
      rw (absorb_all-totals (to_list (flush_frames buf).0) (going [] true (flush_frames buf).1 acc))
        refl
  poll-end false buf acc =
      rw
        (absorb_all-totals (to_list (flush_frames buf).0) (going [] false (flush_frames buf).1 acc))
        refl

  poll-closed :
      (captured : Bool) (buf : Text) (acc : TokenUsage × (Option EnergyCost × Option EnergyCost))
      → is_blank buf ≡ true
      → poll_next fl parse_json [] (closed captured buf acc) ≡ (none, closed captured buf acc)
  unfolding poll_next record_once flush_frames absorb_all
  poll-closed captured buf acc h = rw (h) refl

  abbrev pub nones : ℕ → List (Option Item)
  nones zero = []
  nones (suc n) = none ∷ nones n

  polls-closed :
      (n : ℕ) (captured : Bool) (buf : Text)
      (acc : TokenUsage × (Option EnergyCost × Option EnergyCost))
      → is_blank buf ≡ true
      → polls fl parse_json n (closed captured buf acc) ≡ (nones n, closed captured buf acc)
  unfolding polls
  polls-closed zero captured buf acc h = refl
  polls-closed (suc n) captured buf acc h =
      rw (poll-closed captured buf acc h, polls-closed n captured buf acc h) refl

  flushed-blank : (buf : Text) → is_blank (flush_frames buf).1 ≡ true
  unfolding flush_frames trim trim_start trim_end
  flushed-blank buf = elim (Bool-cases (is_blank buf)) [ inl e ↦ rw (e) e | inr e ↦ rw (e) refl ]

  abbrev rest_of : Text → List (List ℕ) → Text
  rest_of buf bs = (flush_frames (feed_all buf bs).1).1

  abbrev frames_of : Text → List (List ℕ) → List SseFrame
  frames_of buf bs = (feed_all buf bs).0 ++ to_list (flush_frames (feed_all buf bs).1).0

  polls-body :
      (n : ℕ) (body : List Item) (captured : Bool) (buf : Text)
      (acc : TokenUsage × (Option EnergyCost × Option EnergyCost))
      → polls fl parse_json (length body + suc n) (going body captured buf acc) ≡ (
        map some body ++ nones (suc n),
        closed captured (rest_of buf (chunks body)) (totals (frames_of buf (chunks body)) acc),
      )
  unfolding polls feed_all
  polls-body n [] captured buf acc =
      let e : 0 + suc n ≡ suc n = omega arith in
      rw
        (
          e,
          poll-end captured buf acc,
          polls-closed n captured (flush_frames buf).1 (totals (to_list (flush_frames buf).0) acc)
              (flushed-blank buf),
        )
        refl
  polls-body n (failed w ∷ body) captured buf acc =
      let e : suc (length body) + suc n ≡ suc (length body + suc n) = omega arith in
      rw (e, poll-failed w body captured buf acc, polls-body n body captured buf acc) refl
  polls-body n (chunk bytes ∷ body) captured buf acc =
      let e : suc (length body) + suc n ≡ suc (length body + suc n) = omega arith in
      let (fs, rest) = feed_frames buf bytes in
      rw
        (e, poll-chunk bytes body captured buf acc, polls-body n body captured rest (totals fs acc))
        (ap
          (λ t. (
            some (chunk bytes) ∷ (map some body ++ nones (suc n)),
            closed captured (rest_of rest (chunks body)) t,
          ))
          (sym (totals-append fs (frames_of rest (chunks body)) acc)
            ∙ ap (λ gs. totals gs acc)
                (sym (
                  append_assoc fs (feed_all rest (chunks body)).0
                    (to_list (flush_frames (feed_all rest (chunks body)).1).0)))))

  -- However often it is polled after its end, the scanned stream gives the client what the body
  -- gives, chunk by chunk and error by error, and then nothing; and if it is captured, it reports
  -- once, the usage and the metadata of the frames of all that came.
  pub scan_passthrough-verbatim :
      (n : ℕ) (body : List Item) (captured : Bool)
      → ((polls fl parse_json (length body + suc n) (scan_passthrough body captured)).0
          ≡ map some body ++ nones (suc n))
        × ((polls fl parse_json (length body + suc n) (scan_passthrough body captured)).1.reports
            ≡ report_of captured (totals (scan (chunks body)) (no_usage, (none, none))))
  unfolding scan_passthrough scan
  scan_passthrough-verbatim n body captured =
      rw (polls-body n body captured [] (no_usage, (none, none))) (refl, refl)
