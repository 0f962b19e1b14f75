-- ===== src/Ir/OpenaiLife.antt =====
-- The invariant of the state of `Decoder` of src/domain/ir/openai.rs: lists of block indices, and
-- which index is whose.
use local_proxy.Base.{
  ℕ, ◌+◌, Bool, true, false, not, ◌&&◌, ◌||◌, Option, none, some, List, [], ◌∷◌, ◌++◌, ◌≡◌, refl,
  arith, ◌==◌, ltb,
}
use local_proxy.Ir.Emitter.{mem, remove}
use local_proxy.Ir.Openai.{find_tool}

-- Every open block has an index below `n`.
unfoldable pub below : ℕ → List ℕ → Bool
below n [] = true
below n (j ∷ js) = ltb j n && below n js

pub below-mem : (n i : ℕ) (js : List ℕ) → below n js ≡ true → mem i js ≡ true → ltb i n ≡ true
unfolding below mem
below-mem n i [] b m = ground arith
below-mem n i (j ∷ js) b m = ground (arith, below-mem n i js)

pub below-remove : (n i : ℕ) (js : List ℕ) → below n js ≡ true → below n (remove i js) ≡ true
unfolding below remove
below-remove n i [] b = refl
below-remove n i (j ∷ js) b = ground (arith, below-remove n i js)

pub below-append : (n : ℕ) (js : List ℕ) → below n js ≡ true → below (n + 1) (js ++ n ∷ []) ≡ true
unfolding below
below-append n [] b = ground arith
below-append n (j ∷ js) b = ground (arith, below-append n js)

pub mem-append : (i n : ℕ) (js : List ℕ) → mem i (js ++ n ∷ []) ≡ (mem i js || n == i)
unfolding mem
mem-append i n [] = ground arith
mem-append i n (j ∷ js) = ground (arith, mem-append i n js)

pub mem-remove :
    (i j : ℕ) (js : List ℕ) → mem i js ≡ true → (j == i) ≡ false → mem i (remove j js) ≡ true
unfolding mem remove
mem-remove i j [] m h = ground arith
mem-remove i j (k ∷ js) m h = ground (arith, mem-remove i j js)

unfoldable pub holds : List ℕ → Option ℕ → Bool
holds opened none = true
holds opened (some i) = mem i opened

unfoldable pub differs : Option ℕ → ℕ → Bool
differs none i = true
differs (some j) i = not (j == i)

-- The blocks of the tool calls are open, and the prose block `p` is none of them.
unfoldable pub safe : List ℕ → Option ℕ → List (ℕ × ℕ) → Bool
safe opened p [] = true
safe opened p ((u, i) ∷ rest) = (mem i opened && differs p i) && safe opened p rest

pub safe-none :
    (opened : List ℕ) (p : Option ℕ) (ts : List (ℕ × ℕ))
    → safe opened p ts ≡ true
    → safe opened none ts ≡ true
unfolding safe differs
safe-none opened p [] h = refl
safe-none opened p ((u, i) ∷ ts) h = ground (arith, safe-none opened p ts)

pub safe-remove :
    (opened : List ℕ) (j : ℕ) (ts : List (ℕ × ℕ))
    → safe opened (some j) ts ≡ true
    → safe (remove j opened) none ts ≡ true
unfolding safe differs
safe-remove opened j [] h = refl
safe-remove opened j ((u, i) ∷ ts) h =
    ground (arith, safe-remove opened j ts, mem-remove i j opened)

pub safe-open :
    (opened : List ℕ) (n : ℕ) (ts : List (ℕ × ℕ))
    → below n opened ≡ true
    → safe opened none ts ≡ true
    → safe (opened ++ n ∷ []) (some n) ts ≡ true
unfolding safe differs
safe-open opened n [] b h = refl
safe-open opened n ((u, i) ∷ ts) b h =
    ground (arith, safe-open opened n ts b, mem-append i n opened, below-mem n i opened b)

pub safe-push :
    (opened : List ℕ) (n u : ℕ) (ts : List (ℕ × ℕ))
    → safe opened none ts ≡ true
    → safe (opened ++ n ∷ []) none (ts ++ (u, n) ∷ []) ≡ true
unfolding safe differs
safe-push opened n u [] h = ground (arith, mem-append n n opened)
safe-push opened n u ((v, i) ∷ ts) h =
    ground (arith, safe-push opened n u ts, mem-append i n opened)

pub find_tool-mem :
    (opened : List ℕ) (p : Option ℕ) (u i : ℕ) (ts : List (ℕ × ℕ))
    → safe opened p ts ≡ true
    → find_tool u ts ≡ some i
    → mem i opened ≡ true
unfolding safe find_tool
find_tool-mem opened p u i [] h f = ground arith
find_tool-mem opened p u i ((v, j) ∷ ts) h f = ground (arith, find_tool-mem opened p u i ts)
