-- ===== src/Sse/Frame.antt =====
-- `SseFrame` and `parse_frame` of src/domain/sse.rs.
use local_proxy.Base.{
  Bool, false, Option, none, some, List, [], ◌∷◌, ◌++◌, ◌==◌, if◌then◌else◌, Text, codes, text_eq,
  is_empty, strip_prefix, trim, trim_start,
}

pub record SseFrame : Type 0 where
  pub event : Option Text
  pub payload : Text
  pub comments : List Text

-- `json`, by the parser of the library.
abbrev pub json {ℓ} : {A : Type ℓ} → (Text → Option A) → SseFrame → Option A
json parse f = parse (trim f.payload)

-- `frame.is_done()`.
unfoldable pub is_done : SseFrame → Bool
unfolding codes text_eq trim
is_done f = text_eq (trim f.payload) (codes "[DONE]")

abbrev only_cr : Text → Bool
only_cr [] = false
only_cr (c ∷ []) = c == b'\r'
only_cr (_ ∷ _ ∷ _) = false

-- One line without a trailing "\r".
strip_cr : Text → Text
strip_cr [] = []
strip_cr (c ∷ s) = if only_cr (c ∷ s) then [] else c ∷ strip_cr s

lines_from : Text → Text → List Text
lines_from cur [] = if is_empty cur then [] else cur ∷ []
lines_from cur (c ∷ s) =
    let closed = strip_cr cur ∷ lines_from [] s in
    let longer = lines_from (cur ++ c ∷ []) s in if c == b'\n' then closed else longer

-- `str::lines`: a last line with no "\n" keeps its "\r".
unfoldable pub lines : Text → List Text
unfolding lines_from strip_cr
lines s = lines_from [] s

abbrev join_data : Text → Text → Text
join_data payload rest =
    (if is_empty payload then payload else payload ++ b'\n' ∷ []) ++ trim_start rest

-- The body of the loop of `parse_frame`.
pub absorb_line : SseFrame → Text → SseFrame
absorb_line f line = elim (strip_prefix (codes "event:") line) [
  | some rest ↦ record f { event = some (trim rest) }
  | none ↦ elim (strip_prefix (codes "data:") line) [
    | some rest ↦ record f { payload = join_data f.payload rest }
    | none ↦ elim (strip_prefix (codes ":") line) [
      | some rest ↦ record f { comments = f.comments ++ trim_start rest ∷ [] }
      | none ↦ f
    ]
  ]
]

pub absorb_lines : SseFrame → List Text → SseFrame
absorb_lines f [] = f
absorb_lines f (line ∷ rest) = absorb_lines (absorb_line f line) rest

abbrev pub empty_frame : SseFrame
empty_frame = record { event = none; payload = []; comments = [] }

unfoldable pub parse_frame : Text → SseFrame
unfolding absorb_lines absorb_line lines strip_prefix codes trim trim_start
parse_frame text = absorb_lines empty_frame (lines text)
