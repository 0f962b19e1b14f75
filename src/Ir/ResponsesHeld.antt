-- ===== src/Ir/ResponsesHeld.antt =====
-- What `Decoder` of src/domain/ir/responses.rs holds of its blocks: the indices of its calls and of its
-- prose.
use local_proxy.Base.{
  not, is_some, ==-refl, ℕ, ◌+◌, Bool, true, ◌&&◌, Option, none, some, List, [], ◌∷◌, ◌++◌, ◌≡◌,
  refl, arith, Text, ltb,
}
use local_proxy.Ir.Emitter.{mem, remove, Emitter}
use local_proxy.Ir.Responses.{Decoder, tool_index}
use local_proxy.Ir.OpenaiLife.{differs, holds, mem-append, mem-remove}

-- Every index that the decoder holds was given out.
unfoldable pub given : ℕ → List (Text × ℕ) → Bool
given n [] = true
given n ((k, i) ∷ rest) = ltb i n && given n rest

unfoldable pub held : ℕ → Option ℕ → Bool
held n none = true
held n (some i) = ltb i n

pub given-append :
    (n : ℕ) (key : Text) (ts : List (Text × ℕ))
    → given n ts ≡ true
    → given (n + 1) (ts ++ (key, n) ∷ []) ≡ true
unfolding given
given-append n key [] h = ground arith
given-append n key ((k, i) ∷ ts) h = ground (arith, given-append n key ts)

pub given_suc : (n : ℕ) (ts : List (Text × ℕ)) → given n ts ≡ true → given (n + 1) ts ≡ true
unfolding given
given_suc n [] h = refl
given_suc n ((k, i) ∷ ts) h = ground (arith, given_suc n ts)

pub held_suc : (n : ℕ) (p : Option ℕ) → held n p ≡ true → held (n + 1) p ≡ true
unfolding held
held_suc n none h = refl
held_suc n (some i) h = ground arith

pub tool_index-held :
    (n : ℕ) (key : Text) (ts : List (Text × ℕ))
    → given n ts ≡ true
    → held n (tool_index key ts) ≡ true
unfolding given tool_index held
tool_index-held n key [] h = refl
tool_index-held n key ((k, i) ∷ ts) h = ground (arith, tool_index-held n key ts)

-- The blocks of the calls.
unfoldable pub indices : List (Text × ℕ) → List ℕ
indices [] = []
indices ((k, i) ∷ rest) = i ∷ indices rest

pub indices-append :
    (key : Text) (n : ℕ) (ts : List (Text × ℕ))
    → indices (ts ++ (key, n) ∷ []) ≡ indices ts ++ n ∷ []
unfolding indices
indices-append key n [] = refl
indices-append key n ((k, i) ∷ ts) = rw (indices-append key n ts) refl

-- The prose block `p` is the block of no call.
unfoldable pub apart : Option ℕ → List (Text × ℕ) → Bool
apart p [] = true
apart p ((k, i) ∷ rest) = differs p i && apart p rest

pub apart-none : (ts : List (Text × ℕ)) → apart none ts ≡ true
unfolding apart differs
apart-none [] = refl
apart-none ((k, i) ∷ ts) = ground (arith, apart-none ts)

pub apart-append :
    (key : Text) (n : ℕ) (p : Option ℕ) (ts : List (Text × ℕ))
    → held n p ≡ true
    → apart p ts ≡ true
    → apart p (ts ++ (key, n) ∷ []) ≡ true
unfolding apart differs held
apart-append key n none [] l a = refl
apart-append key n (some i) [] l a = ground arith
apart-append key n p ((k, i) ∷ ts) l a = ground (arith, apart-append key n p ts l)

pub apart-fresh : (n : ℕ) (ts : List (Text × ℕ)) → given n ts ≡ true → apart (some n) ts ≡ true
unfolding apart differs given
apart-fresh n [] g = refl
apart-fresh n ((k, i) ∷ ts) g = ground (arith, apart-fresh n ts)

-- The block of a call is not the prose block.
pub tool_index-differs :
    (p : Option ℕ) (key : Text) (i : ℕ) (ts : List (Text × ℕ))
    → apart p ts ≡ true
    → tool_index key ts ≡ some i
    → differs p i ≡ true
unfolding apart tool_index
tool_index-differs p key i [] a e = ground arith
tool_index-differs p key i ((k, j) ∷ ts) a e = ground (arith, tool_index-differs p key i ts)

pub tool_index-mem :
    (key : Text) (i : ℕ) (ts : List (Text × ℕ))
    → tool_index key ts ≡ some i
    → mem i (indices ts) ≡ true
unfolding indices tool_index mem
tool_index-mem key i [] e = ground arith
tool_index-mem key i ((k, j) ∷ ts) e = ground (arith, tool_index-mem key i ts, ==-refl i)

pub holds-append :
    (n : ℕ) (p : Option ℕ) (js : List ℕ) → holds js p ≡ true → holds (js ++ n ∷ []) p ≡ true
unfolding holds
holds-append n none js h = refl
holds-append n (some i) js h = ground (arith, mem-append i n js)

pub holds-remove :
    (i : ℕ) (p : Option ℕ) (js : List ℕ)
    → holds js p ≡ true
    → differs p i ≡ true
    → holds (remove i js) p ≡ true
unfolding holds differs
holds-remove i none js h d = refl
holds-remove i (some j) js h d = ground (arith, mem-remove j i js)

-- The block of the prose is open, was given out, and is the block of no call.
unfoldable pub spoken : Emitter → List (Text × ℕ) → Option ℕ → Bool
spoken e ts p = held e.next p && (holds e.opened p && apart p ts)

unfoldable pub lone : Option ℕ → Option ℕ → Bool
lone none p = true
lone (some i) p = not (is_some p)

unfoldable pub fits : Decoder → Bool
fits d =
    (lone d.text d.reasoning && given d.em.next d.tools)
    && (spoken d.em d.tools d.text && spoken d.em d.tools d.reasoning)
