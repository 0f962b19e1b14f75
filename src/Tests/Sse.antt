-- ===== src/Tests/Sse.antt =====
-- The frame parser at concrete bodies.
use local_proxy.Base.{
  ℕ, none, List, [], ◌∷◌, ◌≡◌, refl, map, codes, trim, trim_start, trim_end, arith,
}
use local_proxy.Base.Strings.{is_whitespace, strip_prefix}
use local_proxy.Sse.Buffer.{
  crlf_to_lf, split_frame, take_frame, take_frames, drain, feed_frames, flush_frames,
}
use local_proxy.Sse.Chunks.{concat, feed_all-concat}
use local_proxy.Sse.Frame.{SseFrame, parse_frame}
use local_proxy.Sse.Pull.{sse_frames-scan}
use local_proxy.Sse.Stream.{feed_all, scan, chunk, frame, sse_frames}
use local_proxy.Sse.Utf8.{from_utf8_lossy, lead_after}

sse : Unit {0}
unfolding crlf_to_lf split_frame take_frame take_frames drain feed_frames flush_frames parse_frame
    feed_all scan from_utf8_lossy lead_after codes trim trim_start trim_end is_whitespace
    strip_prefix
sse = tt

-- "data: é\r\n\r\n: x\n\ny", cut inside the first line ending.
abbrev cut_body : List (List ℕ)
cut_body =
    (0x64 ∷ 0x61 ∷ 0x74 ∷ 0x61 ∷ 0x3a ∷ 0x20 ∷ 0xc3 ∷ 0xa9 ∷ 0xd ∷ [])
    ∷ (0xa ∷ 0xd ∷ 0xa ∷ 0x3a ∷ 0x20 ∷ 0x78 ∷ 0xa ∷ 0xa ∷ 0x79 ∷ [])
    ∷ []

abbrev first_frame : SseFrame
first_frame = record { event = none; payload = 0xe9 ∷ []; comments = [] }

abbrev second_frame : SseFrame
second_frame = record { event = none; payload = []; comments = (0x78 ∷ []) ∷ [] }

fed : feed_all [] cut_body ≡ (first_frame ∷ second_frame ∷ [], 0x79 ∷ [])
unfolding sse
fed = refl

feed_all-concat_example : feed_all [] cut_body ≡ feed_frames [] (concat cut_body)
unfolding sse
feed_all-concat_example = feed_all-concat cut_body (refl, (refl, tt)) (ground arith)

sse_frames-scan_example : sse_frames 9 (map chunk cut_body) ≡ map frame (scan cut_body)
unfolding sse
sse_frames-scan_example = sse_frames-scan 9 cut_body (omega arith)
