-- ===== src/Ir/Media.antt =====
-- `Image::to_url` and `Image::from_url` of src/domain/ir/mod.rs.
use local_proxy.Base.{
  ℕ, zero, suc, none, some, [], ◌∷◌, ◌++◌, ◌≡◌, refl, sym, ap, ◌∙◌, Text, codes, length,
  strip_prefix, strip_suffix, split_once, strip_prefix-append, strip_suffix-append,
  split_once-append, Lacks, append_assoc,
}
use local_proxy.Ir.Types.{Image}
use local_proxy.Json.{get_or}

abbrev pub base64_mark : Text
base64_mark = codes ";base64"

-- `format!("data:{media_type};base64,{data}")`.
unfoldable pub to_url : Image → Text
to_url (Image.url u) = u
to_url (Image.base64 media_type payload) =
    codes "data:" ++ (media_type ++ (base64_mark ++ b',' ∷ payload))

-- `trim_end_matches`; a text holds fewer marks than characters.
unfoldable pub trim_marks : ℕ → Text → Text
trim_marks zero s = s
trim_marks (suc fuel) s = elim (strip_suffix base64_mark s) [
  | none ↦ s
  | some rest ↦ trim_marks fuel rest
]

abbrev pub of_parts : Text × Text → Image
of_parts (meta, payload) = Image.base64 (trim_marks (length meta) meta) payload

unfoldable pub from_url : Text → Image
from_url url = elim (strip_prefix (codes "data:") url) [
  | none ↦ Image.url url
  | some rest ↦ of_parts (get_or (split_once b',' rest) (rest, []))
]

-- A text that ends in no mark keeps its end, and loses one mark put behind it.
trim_marks-none : (fuel : ℕ) (s : Text) → strip_suffix base64_mark s ≡ none → trim_marks fuel s ≡ s
unfolding trim_marks
trim_marks-none zero s h = refl
trim_marks-none (suc fuel) s h = rw (trim_marks, h) refl

trim_marks-append :
    (fuel : ℕ) (s : Text)
    → strip_suffix base64_mark s ≡ none
    → trim_marks (suc fuel) (s ++ base64_mark) ≡ s
unfolding trim_marks
trim_marks-append fuel s h =
    rw (trim_marks, strip_suffix-append base64_mark s) (trim_marks-none fuel s h)

length-mark : (s : Text) → (n : ℕ) × (length (s ++ base64_mark) ≡ suc n)
unfolding codes
length-mark [] = (6, refl)
length-mark (c ∷ s) = (length (s ++ base64_mark), refl)

Lacks-mark : (s : Text) → Lacks b',' s → Lacks b',' (s ++ base64_mark)
unfolding codes
Lacks-mark [] h = (refl, (refl, (refl, (refl, (refl, (refl, (refl, record {})))))))
Lacks-mark (c ∷ s) (e, h) = (e, Lacks-mark s h)

from_url-data :
    (meta payload : Text)
    → Lacks b',' meta
    → from_url (codes "data:" ++ (meta ++ b',' ∷ payload))
      ≡ Image.base64 (trim_marks (length meta) meta) payload
unfolding from_url
from_url-data meta payload l =
    rw
      (
        from_url,
        strip_prefix-append (codes "data:") (meta ++ b',' ∷ payload),
        split_once-append b',' meta payload l,
      )
      refl

trimmed :
    (s : Text)
    → strip_suffix base64_mark s ≡ none
    → trim_marks (length (s ++ base64_mark)) (s ++ base64_mark) ≡ s
trimmed s h = let (n, e) = length-mark s in rw (e) (trim_marks-append n s h)

-- An inline image, of a media type without a comma that does not end in the mark itself, is read back
-- from its URL. But a `data:` URL whose bytes are not in base64 is read as if they were, and printed
-- with the mark that it did not have.
pub from_url-to_url :
    (media_type payload : Text)
    → Lacks b',' media_type
    → strip_suffix base64_mark media_type ≡ none
    → (from_url (to_url (Image.base64 media_type payload)) ≡ Image.base64 media_type payload)
      × (to_url (from_url (codes "data:" ++ (media_type ++ b',' ∷ payload)))
          ≡ codes "data:" ++ (media_type ++ (base64_mark ++ b',' ∷ payload)))
unfolding to_url
from_url-to_url media_type payload l h = (
  ap (λ s. from_url (codes "data:" ++ s))
        (sym (append_assoc media_type base64_mark (b',' ∷ payload)))
      ∙ from_url-data (media_type ++ base64_mark) payload (Lacks-mark media_type l)
      ∙ ap (λ m. Image.base64 m payload) (trimmed media_type h),
  ap to_url (
      from_url-data media_type payload l
      ∙ ap (λ m. Image.base64 m payload) (trim_marks-none (length media_type) media_type h)),
)
