-- ===== src/Sse/Crlf.antt =====
-- The line-ending normalisation of src/domain/sse.rs on a buffer that grows: one pass over the
-- whole beside a second pass over joined text.
use local_proxy.Base.{
  Bool, false, ◌&&◌, [], ◌∷◌, ◌++◌, ◌≡◌, refl, arith, ◌==◌, Text, Bool-cases, inl, inr,
}
use local_proxy.Sse.Buffer.{starts_lf, crlf_to_lf}

-- No "\r\n" is left in the text.
abbrev pub NoCrlf : Text → Type 0
NoCrlf [] = Unit
NoCrlf (c ∷ s) = ((c == b'\r' && starts_lf s) ≡ false) × NoCrlf s

abbrev pub starts_crlf : Text → Bool
starts_crlf [] = false
starts_crlf (c ∷ s) = c == b'\r' && starts_lf s

-- No "\r\r\n": one pass leaves no "\r\n".
abbrev pub NoCrCrlf : Text → Type 0
NoCrCrlf [] = Unit
NoCrCrlf (c ∷ s) = ((c == b'\r' && starts_crlf s) ≡ false) × NoCrCrlf s

pub NoCrCrlf-prefix : (s t : Text) → NoCrCrlf (s ++ t) → NoCrCrlf s
NoCrCrlf-prefix [] t h = tt
NoCrCrlf-prefix (c ∷ []) t h = (ground arith, tt)
NoCrCrlf-prefix (c ∷ d ∷ []) t h = (ground arith, NoCrCrlf-prefix (d ∷ []) t h.1)
NoCrCrlf-prefix (c ∷ d ∷ e ∷ s) t h = (h.0, NoCrCrlf-prefix (d ∷ e ∷ s) t h.1)

-- Unless a "\r\n" stands there, the pass keeps the first character.
starts_lf-crlf_to_lf : (s : Text) → starts_crlf s ≡ false → starts_lf (crlf_to_lf s) ≡ starts_lf s
unfolding crlf_to_lf
starts_lf-crlf_to_lf [] h = refl
starts_lf-crlf_to_lf (c ∷ s) h = rw h

pub crlf_to_lf-NoCrlf : (s : Text) → NoCrCrlf s → NoCrlf (crlf_to_lf s)
unfolding crlf_to_lf
crlf_to_lf-NoCrlf [] h = tt
crlf_to_lf-NoCrlf (c ∷ s) (h, k) = elim (Bool-cases (c == b'\r' && starts_lf s)) [
  | inl pair ↦ rw pair (crlf_to_lf-NoCrlf s k)
  | inr other ↦ rw other (ground (arith, starts_lf-crlf_to_lf s), crlf_to_lf-NoCrlf s k)
]

-- A later pass over more text undoes nothing and misses nothing.
pub crlf_to_lf-append :
    (s t : Text) → NoCrCrlf s → crlf_to_lf (crlf_to_lf s ++ t) ≡ crlf_to_lf (s ++ t)
unfolding crlf_to_lf
crlf_to_lf-append [] t h = refl
crlf_to_lf-append (c ∷ []) t h = ground arith
crlf_to_lf-append (c ∷ d ∷ s) t (h, k) =
    ground (arith, crlf_to_lf-append (d ∷ s) t k, starts_lf-crlf_to_lf (d ∷ s))

-- The text before a "\n" is final.
pub crlf_to_lf-prefix :
    (s t u : Text)
    → NoCrlf (s ++ b'\n' ∷ t)
    → crlf_to_lf (s ++ b'\n' ∷ u) ≡ s ++ b'\n' ∷ crlf_to_lf u
unfolding crlf_to_lf
crlf_to_lf-prefix [] t u h = refl
crlf_to_lf-prefix (c ∷ []) t u h = ground arith
crlf_to_lf-prefix (c ∷ d ∷ s) t u h = ground (arith, crlf_to_lf-prefix (d ∷ s) t u h.1)
