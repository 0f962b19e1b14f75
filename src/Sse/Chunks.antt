-- ===== src/Sse/Chunks.antt =====
-- The frames of a body that comes in chunks, of src/domain/sse.rs: feeding it chunk by chunk beside
-- feeding it whole.
use local_proxy.Base.{
  ℕ, zero, suc, ◌<◌, List, [], ◌∷◌, ◌++◌, ◌≡◌, refl, ap, ◌∙◌, arith, Text, length, Option-cases,
  inl, inr, append_assoc, append-nil, All,
}
use local_proxy.Sse.Buffer.{crlf_to_lf, split_frame, take_frame, take_frames, drain, feed_frames}
use local_proxy.Sse.Crlf.{
  NoCrlf, NoCrCrlf, NoCrCrlf-prefix, crlf_to_lf-NoCrlf, crlf_to_lf-append, crlf_to_lf-prefix,
}
use local_proxy.Sse.Drain.{split_frame-eq-some, length-split_frame, drain-none, drain-some}
use local_proxy.Sse.Frame.{SseFrame}
use local_proxy.Sse.Stream.{after, feed_all}
use local_proxy.Sse.Utf8.{
  lead_after, EndsWhole, EndsWhole-append, from_utf8_lossy, from_utf8_lossy-append,
}

NoCrlf-suffix : (s t : Text) → NoCrlf (s ++ t) → NoCrlf t
NoCrlf-suffix [] t h = h
NoCrlf-suffix (c ∷ s) t h = NoCrlf-suffix s t h.1

blank_prefix :
    (a b t : Text)
    → NoCrlf (a ++ b'\n' ∷ b'\n' ∷ b)
    → crlf_to_lf ((a ++ b'\n' ∷ b'\n' ∷ b) ++ t) ≡ a ++ b'\n' ∷ b'\n' ∷ crlf_to_lf (b ++ t)
unfolding crlf_to_lf
blank_prefix a b t h = rw append_assoc (crlf_to_lf-prefix a (b'\n' ∷ b) (b'\n' ∷ (b ++ t)) h)

drain-append_below :
    (n : ℕ) (s t : Text)
    → length s < n
    → NoCrlf s
    → drain (crlf_to_lf (s ++ t)) ≡ after (drain s).0 (drain (crlf_to_lf ((drain s).1 ++ t)))
drain-append_below zero s t h clean = absurd (omega arith)
drain-append_below (suc n) s t h clean = elim (Option-cases (split_frame s)) [
  | inl e ↦ rw (drain-none s e)
  | inr ((a, b), e) ↦
      let whole = (split_frame-eq-some s a b [] e).0 in
      let clean_parts : NoCrlf (a ++ b'\n' ∷ b'\n' ∷ b) = rw (← whole) clean in
      let shorter = length-split_frame s a b e in
      let clean_rest : NoCrlf b = (NoCrlf-suffix a (b'\n' ∷ b'\n' ∷ b) clean_parts).1.1 in
      let text : crlf_to_lf (s ++ t) ≡ a ++ b'\n' ∷ b'\n' ∷ crlf_to_lf (b ++ t) =
        rw whole (blank_prefix a b t clean_parts) in
      let cut = (split_frame-eq-some s a b (crlf_to_lf (b ++ t)) e).1 in
      rw (text, drain-some _ a (crlf_to_lf (b ++ t)) cut, drain-some s a b e)
        (rw (drain-append_below n b t (omega arith) clean_rest))
]

drain-append :
    (s t : Text)
    → NoCrlf s
    → drain (crlf_to_lf (s ++ t)) ≡ after (drain s).0 (drain (crlf_to_lf ((drain s).1 ++ t)))
drain-append s t = drain-append_below (suc (length s)) s t (omega arith)

-- Two chunks are read as one, if the first ends between two characters and the text so far holds no
-- "\r\r\n".
pub feed_frames-append :
    (buf : Text) (xs ys : List ℕ)
    → EndsWhole xs
    → NoCrCrlf (buf ++ from_utf8_lossy xs)
    → feed_frames buf (xs ++ ys)
      ≡ after (feed_frames buf xs).0 (feed_frames (feed_frames buf xs).1 ys)
unfolding feed_frames
feed_frames-append buf xs ys whole clean =
    let seen = buf ++ from_utf8_lossy xs in
    rw
      (
        from_utf8_lossy-append xs ys whole,
        ← append_assoc buf (from_utf8_lossy xs) (from_utf8_lossy ys),
        ← crlf_to_lf-append seen (from_utf8_lossy ys) clean,
      )
      (drain-append (crlf_to_lf seen) (from_utf8_lossy ys) (crlf_to_lf-NoCrlf seen clean))

abbrev pub concat : List (List ℕ) → List ℕ
concat [] = []
concat (xs ∷ xss) = xs ++ concat xss

after_assoc :
    (fs gs : List SseFrame) (rest : List SseFrame × Text)
    → after fs (after gs rest) ≡ after (fs ++ gs) rest
after_assoc fs gs rest = rw append_assoc

feed_all_from :
    (seen : List ℕ) (chunks : List (List ℕ))
    → EndsWhole seen
    → All EndsWhole chunks
    → NoCrCrlf (from_utf8_lossy (seen ++ concat chunks))
    → after (feed_frames [] seen).0 (feed_all (feed_frames [] seen).1 chunks)
      ≡ feed_frames [] (seen ++ concat chunks)
unfolding feed_all
feed_all_from seen [] whole all clean = rw (append-nil seen, append-nil (feed_frames [] seen).0)
feed_all_from seen (c ∷ chunks) whole (w, all) clean =
    let so_far : NoCrCrlf (from_utf8_lossy seen) =
      NoCrCrlf-prefix _ (from_utf8_lossy (c ++ concat chunks))
        (rw (← from_utf8_lossy-append seen (c ++ concat chunks) whole) clean) in
    let step = feed_frames-append [] seen c whole so_far in
    let ih =
      feed_all_from (seen ++ c) chunks (EndsWhole-append seen c whole w) all
        (rw (append_assoc seen c (concat chunks)) clean) in
    let fed = feed_frames (feed_frames [] seen).1 c in
    after_assoc (feed_frames [] seen).0 fed.0 (feed_all fed.1 chunks)
    ∙ (rw step at ih)
    ∙ ap (feed_frames []) (append_assoc seen c (concat chunks))

fed_nothing : feed_frames [] [] ≡ ([], [])
unfolding feed_frames crlf_to_lf from_utf8_lossy drain take_frames take_frame split_frame
fed_nothing = refl

-- Feeding a body chunk by chunk gives the frames, and leaves the rest, of feeding it whole, if every
-- chunk ends between two characters and the decoded body holds no "\r\r\n".
pub feed_all-concat :
    (chunks : List (List ℕ))
    → All EndsWhole chunks
    → NoCrCrlf (from_utf8_lossy (concat chunks))
    → feed_all [] chunks ≡ feed_frames [] (concat chunks)
unfolding lead_after
feed_all-concat chunks whole clean = rw fed_nothing at (feed_all_from [] chunks refl whole clean)
