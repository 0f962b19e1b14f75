-- ===== src/Sse/Utf8.antt =====
-- `String::from_utf8_lossy`, which src/domain/sse.rs calls on each chunk: a maximal part of an
-- ill-formed sequence becomes one U+FFFD.
use local_proxy.Base.{
  ℕ, ◌+◌, ◌-◌, ◌*◌, Bool, ◌&&◌, List, [], ◌∷◌, ◌++◌, ◌≡◌, refl, leb, ltb, ◌==◌, if◌then◌else◌, Text,
  append_assoc,
}

-- Between two characters, or inside one that wants `need` more bytes, the next from `lo` to `hi`.
pub data Lead : Type 0 where
  boundary : Lead
  inside : (need lo hi acc : ℕ) → Lead

abbrev pub replacement : ℕ
replacement = 0xfffd

abbrev between : ℕ → ℕ → ℕ → Bool
between lo hi b = leb lo b && leb b hi

-- What the first byte of a character emits, and what it waits for.
first_byte : ℕ → Text × Lead
first_byte b =
    if ltb b 0x80
    then (b ∷ [], boundary)
    else if between 0xc2 0xdf b
    then ([], inside 1 0x80 0xbf (b - 0xc0))
    else if b == 0xe0
    then ([], inside 2 0xa0 0xbf 0)
    else if b == 0xed
    then ([], inside 2 0x80 0x9f 0xd)
    else if between 0xe1 0xef b
    then ([], inside 2 0x80 0xbf (b - 0xe0))
    else if b == 0xf0
    then ([], inside 3 0x90 0xbf 0)
    else if between 0xf1 0xf3 b
    then ([], inside 3 0x80 0xbf (b - 0xf0))
    else if b == 0xf4
    then ([], inside 3 0x80 0x8f 4)
    else (replacement ∷ [], boundary)

pub step : Lead → ℕ → Text × Lead
unfolding first_byte
step boundary b = first_byte b
step (inside need lo hi acc) b =
    let value = acc * 64 + (b - 0x80) in
    let (out, next) = first_byte b in
    if between lo hi b
    then if need == 1 then (value ∷ [], boundary) else ([], inside (need - 1) 0x80 0xbf value)
    else (replacement ∷ out, next)

pub decode_from : Lead → List ℕ → Text
decode_from boundary [] = []
decode_from (inside _ _ _ _) [] = replacement ∷ []
decode_from l (b ∷ bs) = (step l b).0 ++ decode_from (step l b).1 bs

unfoldable pub lead_after : Lead → List ℕ → Lead
unfolding step
lead_after l [] = l
lead_after l (b ∷ bs) = lead_after (step l b).1 bs

unfoldable pub from_utf8_lossy : List ℕ → Text
unfolding decode_from step
from_utf8_lossy bytes = decode_from boundary bytes

-- The bytes end between two characters.
abbrev pub EndsWhole : List ℕ → Type 0
EndsWhole bytes = lead_after boundary bytes ≡ boundary

decode_from-append :
    (l : Lead) (xs ys : List ℕ)
    → lead_after l xs ≡ boundary
    → decode_from l (xs ++ ys) ≡ decode_from l xs ++ decode_from boundary ys
unfolding decode_from lead_after
decode_from-append boundary [] ys h = refl
decode_from-append (inside _ _ _ _) [] ys h = cc
decode_from-append boundary (b ∷ bs) ys h =
    rw (decode_from-append (step boundary b).1 bs ys h) (rw append_assoc)
decode_from-append (inside n lo hi a) (b ∷ bs) ys h =
    rw (decode_from-append (step (inside n lo hi a) b).1 bs ys h) (rw append_assoc)

pub from_utf8_lossy-append :
    (xs ys : List ℕ)
    → EndsWhole xs
    → from_utf8_lossy (xs ++ ys) ≡ from_utf8_lossy xs ++ from_utf8_lossy ys
unfolding from_utf8_lossy
from_utf8_lossy-append xs ys h = decode_from-append boundary xs ys h

lead_after-append :
    (l : Lead) (xs ys : List ℕ) → lead_after l (xs ++ ys) ≡ lead_after (lead_after l xs) ys
unfolding lead_after
lead_after-append l [] ys = refl
lead_after-append l (b ∷ bs) ys = lead_after-append (step l b).1 bs ys

pub EndsWhole-append : (xs ys : List ℕ) → EndsWhole xs → EndsWhole ys → EndsWhole (xs ++ ys)
EndsWhole-append xs ys h k = rw (lead_after-append boundary xs ys, h) k
