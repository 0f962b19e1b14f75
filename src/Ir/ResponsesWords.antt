-- ===== src/Ir/ResponsesWords.antt =====
-- The words that `Decoder` of src/domain/ir/responses.rs sends on, beside those that the payloads
-- carry.
use local_proxy.Base.{
  ℕ, Bool, true, false, ◌||◌, Option, none, some, List, [], ◌∷◌, ◌++◌, ◌≡◌, refl, arith, ap, ◌∙◌,
  if◌then◌else◌, Text, text_eq, codes, is_some, contains_text, append-nil, append_assoc,
}
use local_proxy.Ir.Emitter.{Emitter, start, open_block, push_delta, close, and_push}
use local_proxy.Ir.Openai.{close_option}
use local_proxy.Ir.Responses.{
  Decoder, call_id, item_key, tool_index, close_at, take_text, take_reasoning, close_prose,
  push_tool, open_tool, open_prose, prose_at, prose, arguments_at,
}
use local_proxy.Ir.Types.{Event, BlockKind}
use local_proxy.Json.{Value, null, get, get_or, str_of}

-- All that the events say, in order.
abbrev pub words_in : List Event → Text
words_in [] = []
words_in (Event.delta i words ∷ es) = words ++ words_in es
words_in (_ ∷ es) = words_in es

-- What a payload says, and the calls that are known after it, by their keys: the words of a text or
-- of a reasoning, the arguments of a call that is known, or all arguments of one that is not.
abbrev pub told_by_item : List Text → Text → Value → Text × List Text
told_by_item known key item =
    if contains_text known key
    then ([], known)
    else (str_of item (codes "arguments"), known ++ key ∷ [])

abbrev pub told_by : List Text → Value → Text × List Text
told_by known v =
    let type = str_of v (codes "type") in
    let item = get_or (get (codes "item") v) null in
    let words = str_of v (codes "delta") in
    let is_call = text_eq (str_of item (codes "type")) (codes "function_call") in
    let key = item_key v (str_of item (codes "id")) in
    if text_eq type (codes "response.output_item.added")
    then (if is_call then ([], known ++ key ∷ []) else ([], known))
    else if text_eq type (codes "response.output_text.delta")
    then (words, known)
    else if text_eq type (codes "response.reasoning_summary_text.delta")
        || text_eq type (codes "response.reasoning_text.delta")
    then (words, known)
    else if text_eq type (codes "response.function_call_arguments.delta")
    then (
      if contains_text known (item_key v (str_of v (codes "item_id"))) then words else [],
      known,
    )
    else if text_eq type (codes "response.output_item.done")
    then (if is_call then told_by_item known key item else ([], known))
    else ([], known)

abbrev pub told : List Text → List Value → Text
told known [] = []
told known (v ∷ vs) = (told_by known v).0 ++ told (told_by known v).1 vs

abbrev pub keys : List (Text × ℕ) → List Text
keys [] = []
keys ((k, i) ∷ rest) = k ∷ keys rest

pub keys-append :
    (key : Text) (n : ℕ) (ts : List (Text × ℕ)) → keys (ts ++ (key, n) ∷ []) ≡ keys ts ++ key ∷ []
keys-append key n [] = refl
keys-append key n ((k, i) ∷ ts) = ap (λ ks. k ∷ ks) (keys-append key n ts)

pub contains_text-keys :
    (key : Text) (ts : List (Text × ℕ)) → contains_text (keys ts) key ≡ is_some (tool_index key ts)
unfolding contains_text tool_index
contains_text-keys key [] = refl
contains_text-keys key ((k, i) ∷ ts) = ground (arith, contains_text-keys key ts)

pub words_in-append : (xs ys : List Event) → words_in (xs ++ ys) ≡ words_in xs ++ words_in ys
words_in-append [] ys = refl
words_in-append (Event.delta i w ∷ es) ys =
    rw (words_in-append es ys, append_assoc w (words_in es) (words_in ys)) refl
words_in-append (Event.start id model ∷ es) ys = words_in-append es ys
words_in-append (Event.block_start i kind ∷ es) ys = words_in-append es ys
words_in-append (Event.block_stop i ∷ es) ys = words_in-append es ys
words_in-append (Event.usage u ∷ es) ys = words_in-append es ys
words_in-append (Event.finish reason ∷ es) ys = words_in-append es ys

pub words_in-push_delta : (i : ℕ) (words : Text) → words_in (push_delta i words) ≡ words
unfolding push_delta
words_in-push_delta i [] = refl
words_in-push_delta i (c ∷ words) = append-nil (c ∷ words)

pub words_in-start : (e : Emitter) (id model : Text) → words_in (start e id model).1 ≡ []
unfolding start
words_in-start e id model = ground arith

pub words_in-open_block : (e : Emitter) (kind : BlockKind) → words_in (open_block e kind).1 ≡ []
unfolding open_block
words_in-open_block e kind =
    words_in-append (start e [] []).1 (Event.block_start (start e [] []).0.next kind ∷ [])
    ∙ rw (words_in-start e [] []) refl

pub words_in-close : (e : Emitter) (i : ℕ) → words_in (close e i).1 ≡ []
unfolding close
words_in-close e i = ground arith

-- The events say `p.0`, and the calls that are known after them are `p.1`.
abbrev pub Tells : Decoder × List Event → Text × List Text → Type 0
Tells r p = (words_in r.1 ≡ p.0) × (keys r.0.tools ≡ p.1)

-- The events say nothing, and no call comes to be known.
abbrev pub Quiet : Decoder → Decoder × List Event → Type 0
Quiet d r = Tells r ([], keys d.tools)

pub Quiet-and_push :
    (d : Decoder) (r : Decoder × List Event) (f : Decoder → Decoder × List Event)
    (p : List Text → Text × List Text)
    → Quiet d r
    → Tells (f r.0) (p (keys r.0.tools))
    → Tells (and_push r f) (p (keys d.tools))
Quiet-and_push d (d1, out) f p (w, k) (w2, k2) =
    rw⁻¹ (k) (rw (words_in-append out (f d1).1, w) w2, k2)

pub if_Tells :
    (b : Bool) (x y : Decoder × List Event) (p q : Text × List Text)
    → Tells x p
    → Tells y q
    → Tells (if b then x else y) (if b then p else q)
if_Tells true x y p q h k = h
if_Tells false x y p q h k = k

pub nothing : (d : Decoder) → Quiet d (d, [])
nothing d = (refl, refl)

pub close_at-Quiet : (o : Option ℕ) (d : Decoder) → Quiet d (close_at o d)
unfolding close_at close_option
close_at-Quiet none d = (refl, refl)
close_at-Quiet (some i) d = (words_in-close d.em i, refl)

pub words_in-close_option : (e : Emitter) (o : Option ℕ) → words_in (close_option e o).1 ≡ []
unfolding close_option
words_in-close_option e none = refl
words_in-close_option e (some i) = words_in-close e i

pub take_text-Quiet : (d : Decoder) → Quiet d (take_text d)
unfolding take_text
take_text-Quiet d = (words_in-close_option d.em d.text, refl)

pub take_reasoning-Quiet : (d : Decoder) → Quiet d (take_reasoning d)
unfolding take_reasoning
take_reasoning-Quiet d = (words_in-close_option d.em d.reasoning, refl)

pub close_prose-Quiet : (d : Decoder) → Quiet d (close_prose d)
unfolding close_prose
close_prose-Quiet d =
    Quiet-and_push d (take_text d) take_reasoning (λ ks. ([], ks)) (take_text-Quiet d)
      (take_reasoning-Quiet (take_text d).0)

pub push_tool-Tells :
    (key : Text) (item : Value) (d : Decoder)
    → Tells (push_tool key item d) ([], keys d.tools ++ key ∷ [])
unfolding push_tool
push_tool-Tells key item d = (
  words_in-open_block d.em (BlockKind.tool_call (call_id item) (str_of item (codes "name"))),
  keys-append key d.em.next d.tools,
)

pub open_tool-Tells :
    (key : Text) (item : Value) (d : Decoder)
    → Tells (open_tool key item d) ([], keys d.tools ++ key ∷ [])
unfolding open_tool
open_tool-Tells key item d =
    Quiet-and_push d (close_prose d) (push_tool key item) (λ ks. ([], ks ++ key ∷ []))
      (close_prose-Quiet d) (push_tool-Tells key item (close_prose d).0)

pub opened_words :
    (e : Emitter) (kind : BlockKind) (words : Text)
    → words_in ((open_block e kind).1 ++ push_delta e.next words) ≡ words
opened_words e kind words =
    words_in-append (open_block e kind).1 (push_delta e.next words)
    ∙ rw (words_in-open_block e kind) (words_in-push_delta e.next words)

pub open_prose-Tells :
    (reasoning : Bool) (words : Text) (d : Decoder)
    → Tells (open_prose reasoning words d) (words, keys d.tools)
unfolding open_prose
open_prose-Tells true words d = (opened_words d.em BlockKind.reasoning words, refl)
open_prose-Tells false words d = (opened_words d.em BlockKind.text words, refl)

pub prose_at-Tells :
    (reasoning : Bool) (mine other : Option ℕ) (words : Text) (d : Decoder)
    → Tells (prose_at reasoning mine other words d) (words, keys d.tools)
unfolding prose_at
prose_at-Tells reasoning (some i) other words d = (words_in-push_delta i words, refl)
prose_at-Tells reasoning none other words d =
    Quiet-and_push d (close_at other d) (open_prose reasoning words) (λ ks. (words, ks))
      (close_at-Quiet other d) (open_prose-Tells reasoning words (close_at other d).0)

pub prose-Tells :
    (reasoning : Bool) (words : Text) (d : Decoder)
    → Tells (prose reasoning words d) (words, keys d.tools)
unfolding prose
prose-Tells true words d = prose_at-Tells true d.reasoning d.text words d
prose-Tells false words d = prose_at-Tells false d.text d.reasoning words d

pub arguments_at-Tells :
    (o : Option ℕ) (words : Text) (d : Decoder)
    → Tells (arguments_at o words d) (if is_some o then words else [], keys d.tools)
unfolding arguments_at
arguments_at-Tells none words d = (refl, refl)
arguments_at-Tells (some i) words d = (words_in-push_delta i words, refl)
