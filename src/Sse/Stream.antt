-- ===== src/Sse/Stream.antt =====
-- A whole body: the chunk loop of `ScannedStream` (src/application/streams.rs) and the frame stream
-- `sse_frames` of src/domain/sse.rs, polled until it ends.
use local_proxy.Base.{
  ℕ, zero, suc, Bool, true, false, Option, none, some, List, [], ◌∷◌, ◌++◌, if◌then◌else◌, Text,
  is_blank,
}
use local_proxy.Sse.Buffer.{take_frame, crlf_to_lf, feed_frames, flush_frames}
use local_proxy.Sse.Frame.{SseFrame, parse_frame}
use local_proxy.Sse.Utf8.{from_utf8_lossy}

-- The frames of a part of the body, in front of those of the rest.
abbrev pub after : List SseFrame → List SseFrame × Text → List SseFrame × Text
after frames rest = (frames ++ rest.0, rest.1)

-- `feed_frames` on each chunk of a body.
unfoldable pub feed_all : Text → List (List ℕ) → List SseFrame × Text
feed_all buf [] = ([], buf)
feed_all buf (chunk ∷ chunks) =
    after (feed_frames buf chunk).0 (feed_all (feed_frames buf chunk).1 chunks)

abbrev pub to_list : Option SseFrame → List SseFrame
to_list none = []
to_list (some f) = f ∷ []

-- The frames that `ScannedStream` absorbs: those of the chunks, then the flushed rest.
unfoldable pub scan : List (List ℕ) → List SseFrame
scan chunks = (feed_all [] chunks).0 ++ to_list (flush_frames (feed_all [] chunks).1).0

-- What the body delivers.
pub data Item : Type 0 where
  chunk : List ℕ → Item
  failed : Text → Item

-- What the frame stream yields.
pub data Polled : Type 0 where
  frame : SseFrame → Polled
  read_error : Text → Polled

pub record FrameState : Type 0 where
  pub stream : List Item
  pub buf : Text
  pub eof : Bool

abbrev pub state : List Item → Text → Bool → FrameState
state stream buf eof = record { stream = stream; buf = buf; eof = eof }

-- The branch `if st.eof`.
abbrev pub at_eof : List Item → Text → Option (Polled × FrameState)
at_eof stream buf =
    if is_blank buf then none else some (frame (parse_frame buf), state stream [] true)

-- One poll: the `loop` runs over what the body still delivers.
unfoldable pub poll : List Item → Text → Bool → Option (Polled × FrameState)
poll stream buf true = elim (take_frame buf) [
  | some (f, rest) ↦ some (frame f, state stream rest true)
  | none ↦ at_eof stream buf
]
poll [] buf false = elim (take_frame buf) [
  | some (f, rest) ↦ some (frame f, state [] rest false)
  | none ↦ at_eof [] buf
]
poll (chunk bytes ∷ items) buf false =
    let later = poll items (crlf_to_lf (buf ++ from_utf8_lossy bytes)) false in
    elim (take_frame buf) [
      | some (f, rest) ↦ some (frame f, state (chunk bytes ∷ items) rest false)
      | none ↦ later
    ]
poll (failed e ∷ items) buf false = elim (take_frame buf) [
  | some (f, rest) ↦ some (frame f, state (failed e ∷ items) rest false)
  | none ↦ some (read_error e, state items buf false)
]

-- Polling until the stream ends, `fuel` times at most.
unfoldable pub poll_all : ℕ → FrameState → List Polled
poll_all zero st = []
poll_all (suc fuel) st = elim (poll st.stream st.buf st.eof) [
  | none ↦ []
  | some (p, next) ↦ p ∷ poll_all fuel next
]

unfoldable pub sse_frames : ℕ → List Item → List Polled
sse_frames fuel body = poll_all fuel (state body [] false)
