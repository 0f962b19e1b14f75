-- ===== src/Sse/Pull.antt =====
-- `sse_frames` of src/domain/sse.rs, polled, beside the scanner that is fed.
use local_proxy.Base.{
  ℕ, zero, suc, ◌<◌, true, false, none, some, List, [], ◌∷◌, ◌++◌, ◌≡◌, refl, ap, arith, map, Text,
  length, Option-cases, inl, inr, is_blank, trim, trim_start, trim_end, Bool-cases,
}
use local_proxy.Sse.Buffer.{
  take_frame, take_frames, crlf_to_lf, split_frame, drain, feed_frames, flush_frames,
}
use local_proxy.Sse.Drain.{drain-none, drain-some}
use local_proxy.Sse.Frame.{SseFrame, parse_frame}
use local_proxy.Sse.Stream.{
  feed_all, to_list, scan, chunk, frame, state, poll, poll_all, sse_frames,
}
use local_proxy.Sse.Utf8.{from_utf8_lossy}

-- The frames that are still to come from a buffer and the chunks behind it.
abbrev coming : Text → List (List ℕ) → List SseFrame
coming buf chunks =
    let (frames, left) = drain buf in
    let (later, rest) = feed_all left chunks in (frames ++ later) ++ to_list (flush_frames rest).0

coming-some :
    (buf a b : Text) (chunks : List (List ℕ))
    → split_frame buf ≡ some (a, b)
    → coming buf chunks ≡ parse_frame a ∷ coming b chunks
coming-some buf a b chunks e = rw (drain-some buf a b e)

coming-none :
    (buf : Text) (c : List ℕ) (chunks : List (List ℕ))
    → split_frame buf ≡ none
    → coming buf (c ∷ chunks) ≡ coming (crlf_to_lf (buf ++ from_utf8_lossy c)) chunks
unfolding feed_all feed_frames
coming-none buf c chunks e = rw (drain-none buf e)

coming-nil : (buf : Text) → split_frame buf ≡ none → coming buf [] ≡ to_list (flush_frames buf).0
unfolding feed_all
coming-nil buf e = rw (drain-none buf e)

poll_all-none :
    (n : ℕ) (buf : Text) (c : List ℕ) (items : List (List ℕ))
    → split_frame buf ≡ none
    → poll_all n (state (map chunk (c ∷ items)) buf false)
      ≡ poll_all n (state (map chunk items) (crlf_to_lf (buf ++ from_utf8_lossy c)) false)
unfolding poll_all poll take_frame
poll_all-none zero buf c items e = refl
poll_all-none (suc n) buf c items e = rw (e, poll_all, poll, take_frame)

poll_all-some :
    (n : ℕ) (buf a b : Text) (items : List (List ℕ))
    → split_frame buf ≡ some (a, b)
    → poll_all (suc n) (state (map chunk items) buf false)
      ≡ frame (parse_frame a) ∷ poll_all n (state (map chunk items) b false)
unfolding poll_all poll take_frame
poll_all-some n buf a b [] e = rw (e, poll_all, poll, take_frame)
poll_all-some n buf a b (c ∷ items) e = rw (e, poll_all, poll, take_frame)

poll_all-flushed : (n : ℕ) → poll_all n (state [] [] true) ≡ []
unfolding poll_all poll take_frame split_frame trim trim_start trim_end
poll_all-flushed zero = refl
poll_all-flushed (suc n) = refl

poll_all-nil :
    (n : ℕ) (buf : Text)
    → split_frame buf ≡ none
    → poll_all (suc n) (state [] buf false) ≡ map frame (to_list (flush_frames buf).0)
unfolding poll_all poll take_frame flush_frames
poll_all-nil n buf e = elim (Bool-cases (is_blank buf)) [
  | inl blank ↦ rw (e, poll_all, poll, take_frame) (rw (blank, poll_all, flush_frames))
  | inr more ↦
      rw (e, poll_all, poll, take_frame)
        (rw (more, poll_all, flush_frames) (rw (poll_all-flushed n)))
]

poll_all-coming :
    (n : ℕ) (buf : Text) (chunks : List (List ℕ))
    → length (coming buf chunks) < n
    → poll_all n (state (map chunk chunks) buf false) ≡ map frame (coming buf chunks)
poll_all-coming zero buf chunks h = absurd (omega arith)
poll_all-coming (suc n) buf [] h = elim (Option-cases (split_frame buf)) [
  | inl e ↦ rw (coming-nil buf e) (poll_all-nil n buf e)
  | inr ((a, b), e) ↦
      let split = coming-some buf a b [] e in
      rw (split, poll_all-some n buf a b [] e)
        (ap (λ l. frame (parse_frame a) ∷ l)
          (poll_all-coming n b [] (omega (arith, ap length split))))
]
poll_all-coming (suc n) buf (c ∷ chunks) h = elim (Option-cases (split_frame buf)) [
  | inl e ↦
      let pulled = coming-none buf c chunks e in
      rw (pulled, poll_all-none (suc n) buf c chunks e)
        (poll_all-coming (suc n) (crlf_to_lf (buf ++ from_utf8_lossy c)) chunks
          (omega (arith, ap length pulled)))
  | inr ((a, b), e) ↦
      let split = coming-some buf a b (c ∷ chunks) e in
      rw (split, poll_all-some n buf a b (c ∷ chunks) e)
        (ap (λ l. frame (parse_frame a) ∷ l)
          (poll_all-coming n b (c ∷ chunks) (omega (arith, ap length split))))
]

-- Polled more often than there are frames, the frame stream of a body that is read without an error
-- yields the frames that the scanner absorbs, in order, and nothing else.
pub sse_frames-scan :
    (fuel : ℕ) (chunks : List (List ℕ))
    → length (scan chunks) < fuel
    → sse_frames fuel (map chunk chunks) ≡ map frame (scan chunks)
unfolding sse_frames scan drain take_frames take_frame split_frame
sse_frames-scan fuel chunks h = poll_all-coming fuel [] chunks h
