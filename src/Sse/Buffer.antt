-- ===== src/Sse/Buffer.antt =====
-- `take_frame`, `feed_frames`, `flush_frames` and `sse_frames` of src/domain/sse.rs.
use local_proxy.Base.{
  ℕ, zero, suc, Bool, false, ◌&&◌, Option, none, some, List, [], ◌∷◌, ◌++◌, ◌==◌, if◌then◌else◌,
  Text, length, is_blank,
}
use local_proxy.Sse.Utf8.{from_utf8_lossy}
use local_proxy.Sse.Frame.{SseFrame, parse_frame}

abbrev pub starts_lf : Text → Bool
starts_lf [] = false
starts_lf (c ∷ s) = c == b'\n'

-- `replace("\r\n", "\n")`, one pass from the left.
unfoldable pub crlf_to_lf : Text → Text
crlf_to_lf [] = []
crlf_to_lf (c ∷ s) = let rest = crlf_to_lf s in if c == b'\r' && starts_lf s then rest else c ∷ rest

abbrev pub drop_one : Text → Text
drop_one [] = []
drop_one (_ ∷ s) = s

abbrev pub cons_before : ℕ → Option (Text × Text) → Option (Text × Text)
cons_before c none = none
cons_before c (some (a, b)) = some (c ∷ a, b)

-- The text before the first blank line, and what follows it.
unfoldable pub split_frame : Text → Option (Text × Text)
split_frame [] = none
split_frame (c ∷ s) =
    let later = cons_before c (split_frame s) in
    if c == b'\n' && starts_lf s then some ([], drop_one s) else later

unfoldable pub take_frame : Text → Option (SseFrame × Text)
take_frame buf = elim (split_frame buf) [
  | none ↦ none
  | some (text, rest) ↦ some (parse_frame text, rest)
]

-- The `while let` of `feed_frames`.
unfoldable pub take_frames : ℕ → Text → List SseFrame × Text
take_frames zero buf = ([], buf)
take_frames (suc fuel) buf = elim (take_frame buf) [
  | none ↦ ([], buf)
  | some (frame, rest) ↦ let (frames, left) = take_frames fuel rest in (frame ∷ frames, left)
]

-- Each frame takes two characters at least, so the length is fuel enough.
unfoldable pub drain : Text → List SseFrame × Text
drain buf = take_frames (suc (length buf)) buf

unfoldable pub feed_frames : Text → List ℕ → List SseFrame × Text
feed_frames buf bytes = drain (crlf_to_lf (buf ++ from_utf8_lossy bytes))

unfoldable pub flush_frames : Text → Option SseFrame × Text
flush_frames buf = if is_blank buf then (none, buf) else (some (parse_frame buf), [])
