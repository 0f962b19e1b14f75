-- ===== src/Streams/Scanned.antt =====
-- `ScannedStream` of src/application/streams.rs: a body is passed on while its usage is read off
-- it. The inner stream is taken to be ready whenever it is polled.
use local_proxy.Base.{
  ℕ, zero, suc, Bool, true, false, not, ◌||◌, Option, none, some, List, [], ◌∷◌, ◌++◌,
  if◌then◌else◌, Text,
}
use local_proxy.Json.{Value}
use local_proxy.Sse.Buffer.{feed_frames, flush_frames}
use local_proxy.Sse.Frame.{SseFrame, json}
use local_proxy.Sse.Stream.{Item, chunk, failed, to_list}
use local_proxy.Streams.{Report, note_comments}
use local_proxy.Usage.{is_default, Floats, TokenUsage, no_usage, merge_usage, usage_from_frame}
use local_proxy.Usage.Energy.{EnergyCost}

-- `reports` is what the capture has been told.
pub record Scanned : Type 0 where
  pub inner : List Item
  pub captured : Bool
  pub buf : Text
  pub usage : TokenUsage
  pub known : Option EnergyCost × Option EnergyCost
  pub recorded : Bool
  pub reports : List Report

-- `scan_passthrough`.
unfoldable pub scan_passthrough : List Item → (captured : Bool) → Scanned
scan_passthrough body captured = record {
  inner = body;
  captured = captured;
  buf = [];
  usage = no_usage;
  known = (none, none);
  recorded = false;
  reports = [];
}

module _ (fl : Floats) (parse_json : Text → Option Value) where
  abbrev pub merged : Option Value → TokenUsage → TokenUsage
  merged none acc = acc
  merged (some v) acc =
      if is_default (usage_from_frame fl v) then acc else merge_usage acc (usage_from_frame fl v)

  unfoldable pub absorb : SseFrame → Scanned → Scanned
  absorb f st = record st {
    usage = merged (json parse_json f) st.usage;
    known = note_comments fl parse_json f.comments st.known;
  }

  unfoldable pub absorb_all : List SseFrame → Scanned → Scanned
  absorb_all [] st = st
  absorb_all (f ∷ fs) st = absorb_all fs (absorb f st)

  unfoldable pub record_once : Scanned → Scanned
  record_once st = record st {
    recorded = true;
    reports =
        if st.recorded || not st.captured
        then st.reports
        else st.reports ++ record { usage = st.usage; energy = st.known.0; cost = st.known.1 } ∷ [];
  }

  unfoldable pub poll_next : List Item → Scanned → Option Item × Scanned
  poll_next (chunk bytes ∷ items) st =
      let (frames, buf) = feed_frames st.buf bytes in
      (some (chunk bytes), absorb_all frames (record st { inner = items; buf = buf }))
  poll_next (failed e ∷ items) st = (some (failed e), record st { inner = items })
  poll_next [] st =
      let (last, buf) = flush_frames st.buf in
      (none, record_once (absorb_all (to_list last) (record st { buf = buf })))

  -- Some polls, and what each gave.
  unfoldable pub polls : ℕ → Scanned → List (Option Item) × Scanned
  polls zero st = ([], st)
  polls (suc n) st =
      let (item, st1) = poll_next st.inner st in
      let (items, st2) = polls n st1 in (item ∷ items, st2)
