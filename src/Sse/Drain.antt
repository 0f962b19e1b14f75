-- ===== src/Sse/Drain.antt =====
-- What `take_frame` cuts off, and the loop of `feed_frames` without its fuel.
use local_proxy.Base.{
  ℕ, zero, suc, ◌+◌, ◌<◌, none, some, [], ◌∷◌, ◌++◌, ◌≡◌, ap, arith, Text, length, length-append,
  Option-cases, inl, inr,
}
use local_proxy.Sse.Buffer.{split_frame, take_frame, take_frames, drain}
use local_proxy.Sse.Frame.{parse_frame}

-- A frame's text ends at the first blank line, whatever stands behind it.
pub split_frame-eq-some :
    (s a b u : Text)
    → split_frame s ≡ some (a, b)
    → (s ≡ a ++ b'\n' ∷ b'\n' ∷ b) × (split_frame (a ++ b'\n' ∷ b'\n' ∷ u) ≡ some (a, u))
unfolding split_frame
split_frame-eq-some [] a b u h = cc
split_frame-eq-some (c ∷ []) a b u h = ground arith
split_frame-eq-some (c ∷ d ∷ s) [] b u h = ground arith
split_frame-eq-some (c ∷ d ∷ s) (x ∷ []) b u h = ground (arith, split_frame-eq-some (d ∷ s) [] b u)
split_frame-eq-some (c ∷ d ∷ s) (x ∷ y ∷ a) b u h =
    ground (arith, split_frame-eq-some (d ∷ s) (y ∷ a) b u)

pub length-split_frame :
    (s a b : Text) → split_frame s ≡ some (a, b) → length b + 2 + length a ≡ length s
length-split_frame s a b h =
    let (e, _) = split_frame-eq-some s a b [] h in
    omega (arith, ap length e, length-append {0} a (b'\n' ∷ b'\n' ∷ b))

take_frames-fuel :
    (f g : ℕ) (s : Text) → length s < f → length s < g → take_frames f s ≡ take_frames g s
unfolding take_frames take_frame
take_frames-fuel zero g s h k = absurd (omega arith)
take_frames-fuel (suc f) zero s h k = absurd (omega arith)
take_frames-fuel (suc f) (suc g) s h k = elim (Option-cases (split_frame s)) [
  | inl e ↦ rw (e, take_frames, take_frame)
  | inr ((a, b), e) ↦
      let shorter = length-split_frame s a b e in
      rw (e, take_frames, take_frame) (rw (take_frames-fuel f g b (omega arith) (omega arith)))
]

pub drain-none : (s : Text) → split_frame s ≡ none → drain s ≡ ([], s)
unfolding drain take_frames take_frame
drain-none s e = rw (e, drain, take_frames, take_frame)

pub drain-some :
    (s a b : Text)
    → split_frame s ≡ some (a, b)
    → drain s ≡ (parse_frame a ∷ (drain b).0, (drain b).1)
unfolding drain take_frames take_frame
drain-some s a b e =
    let shorter = length-split_frame s a b e in
    rw (e, drain, take_frames, take_frame)
      (rw (take_frames-fuel (length s) (suc (length b)) b (omega arith) (omega arith)))

-- The loop ends with no whole frame left in the buffer.
drained_below : (n : ℕ) (s : Text) → length s < n → split_frame (drain s).1 ≡ none
drained_below zero s h = absurd (omega arith)
drained_below (suc n) s h = elim (Option-cases (split_frame s)) [
  | inl e ↦ rw (drain-none s e) e
  | inr ((a, b), e) ↦
      let shorter = length-split_frame s a b e in
      rw (drain-some s a b e) (drained_below n b (omega arith))
]

pub split_frame-drain : (s : Text) → split_frame (drain s).1 ≡ none
split_frame-drain s = drained_below (suc (length s)) s (omega arith)
