-- ===== src/Ir/OpenaiReads.antt =====
-- One event through the encoder of src/domain/ir/openai.rs, once the stream is open.
use local_proxy.Base.{
  ℕ, suc, ◌+◌, ◌<◌, Bool, true, false, not, ◌&&◌, ◌||◌, Option, none, some, List, [], ◌∷◌, ◌++◌,
  ◌≡◌, refl, sym, ◌==◌, if◌then◌else◌, Text, text_eq, text_lt, codes, ltb, arith, Bool-cases, inl,
  inr, some_inj, length, length-append,
}
use local_proxy.Ir.AnthropicEncoder.{kind_of}
use local_proxy.Ir.Emitter.{mem, is_tool}
use local_proxy.Ir.OpenaiClient.{Chunk, read, Phase, next, reads}
use local_proxy.Ir.OpenaiEncoder.{
  Encoder, position, tool_ordinal, chunk, role_delta, tool_start, tool_arguments, delta_value,
  done_line, last_chunk, on_block, on_event,
}
use local_proxy.Ir.OpenaiLife.{below}
use local_proxy.Ir.Protocol.{Check, check}
use local_proxy.Ir.Steps.{steps}
use local_proxy.Ir.Types.{Event, BlockKind, StopReason}
use local_proxy.Json.{get_field, insert_field}

pub read-role : (enc : Encoder) → read (chunk enc role_delta none) ≡ some Chunk.role
unfolding read chunk role_delta get_field insert_field text_eq text_lt codes
read-role enc = refl

abbrev delta_chunk : Option BlockKind → ℕ → Chunk
delta_chunk none n = Chunk.content
delta_chunk (some BlockKind.text) n = Chunk.content
delta_chunk (some BlockKind.reasoning) n = Chunk.content
delta_chunk (some (BlockKind.tool_call id name)) n = Chunk.tool_arguments n

read-delta :
    (enc : Encoder) (o : Option BlockKind) (n : ℕ) (words : Text)
    → read (chunk enc (delta_value o n words) none) ≡ some (delta_chunk o n)
unfolding read chunk delta_value tool_arguments get_field insert_field text_eq text_lt codes
read-delta enc none n words = refl
read-delta enc (some BlockKind.text) n words = refl
read-delta enc (some BlockKind.reasoning) n words = refl
read-delta enc (some (BlockKind.tool_call id name)) n words = refl

read-tool_start :
    (enc : Encoder) (n : ℕ) (id name : Text)
    → read (chunk enc (tool_start n id name) none) ≡ some (Chunk.tool_start n)
unfolding read chunk tool_start get_field insert_field text_eq text_lt codes
read-tool_start enc n id name = refl

read-last_chunk :
    (enc : Encoder) (stop : StopReason) → read (last_chunk enc stop) ≡ some Chunk.finished
unfolding read last_chunk chunk get_field insert_field text_eq text_lt codes
read-last_chunk enc stop = elim (Bool-cases (ltb 0 enc.usage.input || ltb 0 enc.usage.output)) [
  | inl e ↦ rw (e) refl
  | inr e ↦ rw (e) refl
]

read-done_line : read done_line ≡ some Chunk.ended
unfolding read text_eq codes
read-done_line = refl

-- The number of a call that has just been added, and of one that is there.
position-append :
    (n : ℕ) (tools : List ℕ)
    → below n tools ≡ true
    → position n (tools ++ n ∷ []) ≡ some (length tools)
unfolding position below
position-append n [] h = ground arith
position-append n (j ∷ js) h = ground (arith, position-append n js)

position-mem :
    (i : ℕ) (tools : List ℕ)
    → mem i tools ≡ true
    → (n : ℕ) × (position i tools ≡ some n) × (n < length tools)
unfolding position mem
position-mem i [] h = absurd (ground arith)
position-mem i (j ∷ js) h = elim (Bool-cases (j == i)) [
  | inl e ↦ (0, ground arith, ground arith)
  | inr e ↦ let (n, p, l) = position-mem i js (ground arith) in (suc n, ground arith, ground arith)
]

tool_ordinal-append :
    (n : ℕ) (tools : List ℕ)
    → below n tools ≡ true
    → tool_ordinal n (tools ++ n ∷ []) ≡ length tools
unfolding tool_ordinal
tool_ordinal-append n tools h = ground (arith, position-append n tools h)

tool_ordinal-mem :
    (i : ℕ) (tools : List ℕ) → mem i tools ≡ true → ltb (tool_ordinal i tools) (length tools) ≡ true
unfolding tool_ordinal
tool_ordinal-mem i tools h = let (n, p, l) = position-mem i tools h in ground (arith, p, l)

mem_last : (i n : ℕ) (tools : List ℕ) → mem i tools ≡ true → mem i (tools ++ n ∷ []) ≡ true
unfolding mem
mem_last i n [] h = ground arith
mem_last i n (j ∷ js) h = ground (arith, mem_last i n js)

mem_end : (n : ℕ) (tools : List ℕ) → mem n (tools ++ n ∷ []) ≡ true
unfolding mem
mem_end n [] = ground arith
mem_end n (j ∷ js) = ground (arith, mem_end n js)

below_suc : (n : ℕ) (tools : List ℕ) → below n tools ≡ true → below (n + 1) tools ≡ true
unfolding below
below_suc n [] h = refl
below_suc n (j ∷ js) h = ground (arith, below_suc n js)

below_last :
    (n : ℕ) (tools : List ℕ) → below n tools ≡ true → below (n + 1) (tools ++ n ∷ []) ≡ true
unfolding below
below_last n [] h = ground arith
below_last n (j ∷ js) h = ground (arith, below_last n js)

-- Every block of a tool call is among the tools.
unfoldable pub known : List (ℕ × BlockKind) → List ℕ → Bool
known [] tools = true
known ((i, k) ∷ rest) tools = (not (is_tool k) || mem i tools) && known rest tools

known_last :
    (kinds : List (ℕ × BlockKind)) (n : ℕ) (tools : List ℕ)
    → known kinds tools ≡ true
    → known kinds (tools ++ n ∷ []) ≡ true
unfolding known
known_last [] n tools h = refl
known_last ((i, k) ∷ rest) n tools h = ground (arith, known_last rest n tools, mem_last i n tools)

known-append :
    (kinds : List (ℕ × BlockKind)) (i : ℕ) (k : BlockKind) (tools : List ℕ)
    → known kinds tools ≡ true
    → (not (is_tool k) || mem i tools) ≡ true
    → known (kinds ++ (i, k) ∷ []) tools ≡ true
unfolding known
known-append [] i k tools h m = ground arith
known-append ((j, l) ∷ rest) i k tools h m = ground (arith, known-append rest i k tools)

kind_of-known :
    (kinds : List (ℕ × BlockKind)) (i : ℕ) (id name : Text) (tools : List ℕ)
    → known kinds tools ≡ true
    → kind_of i kinds ≡ some (BlockKind.tool_call id name)
    → mem i tools ≡ true
unfolding known kind_of
kind_of-known [] i id name tools h e = absurd (ground arith)
kind_of-known ((j, k) ∷ rest) i id name tools h e = elim (Bool-cases (j == i)) [
  | inl q ↦
      let w : some k ≡ some (BlockKind.tool_call id name) = ground arith in
      let m : (not (is_tool k) || mem j tools) ≡ true = ground arith in
      let t : is_tool k ≡ true = rw (some_inj w) refl in ground arith
  | inr q ↦ kind_of-known rest i id name tools (ground arith) (ground arith)
]

-- Where the client is.
abbrev pub phase_of : Check → Encoder → Phase
phase_of c enc =
    if c.finished
    then Phase.over
    else if c.started
    then Phase.streaming (length enc.tools)
    else Phase.waiting

pub record Follows (c : Check) (enc : Encoder) : Type 0 where
  pub numbered : below c.seen enc.tools ≡ true
  pub kept : known enc.kinds enc.tools ≡ true

module _ (strict : Bool) where
  on_block-reads :
      (c d : Check) (i : ℕ) (kind : BlockKind) (enc : Encoder)
      → c.started ≡ true
      → Follows c enc
      → check strict c (Event.block_start i kind) ≡ some d
      → (reads (phase_of c enc) (on_block i kind enc).1 ≡ some (phase_of d (on_block i kind enc).0))
        × Follows d (on_block i kind enc).0
  unfolding on_block check steps next
  on_block-reads c d i BlockKind.text enc s f h = (
    ground arith,
    record {
      numbered = ground (arith, below_suc c.seen enc.tools);
      kept = known-append enc.kinds i BlockKind.text enc.tools f.kept refl;
    },
  )
  on_block-reads c d i BlockKind.reasoning enc s f h = (
    ground arith,
    record {
      numbered = ground (arith, below_suc c.seen enc.tools);
      kept = known-append enc.kinds i BlockKind.reasoning enc.tools f.kept refl;
    },
  )
  on_block-reads c d i (BlockKind.tool_call id name) enc s f h =
      let e : c.seen ≡ i = ground arith in
      let b : below i enc.tools ≡ true = rw (e) at (f.numbered) in
      let enc' = (on_block i (BlockKind.tool_call id name) enc).0 in
      (
        ground (
          arith,
          tool_ordinal-append i enc.tools b,
          length-append enc.tools (i ∷ []),
          read-tool_start enc' (tool_ordinal i enc'.tools) id name,
        ),
        record {
          numbered = ground (arith, below_last i enc.tools);
          kept =
              known-append enc.kinds i (BlockKind.tool_call id name) (enc.tools ++ i ∷ [])
                (known_last enc.kinds i enc.tools f.kept) (mem_end i enc.tools);
        },
      )

  delta-reads :
      (c : Check) (i : ℕ) (words : Text) (enc : Encoder) (o : Option BlockKind)
      → c.started ≡ true
      → c.finished ≡ false
      → Follows c enc
      → kind_of i enc.kinds ≡ o
      → reads
          (phase_of c enc)
          (chunk enc (delta_value o (tool_ordinal i enc.tools) words) none ∷ [])
        ≡ some (phase_of c enc)
  unfolding steps next
  delta-reads c i words enc none s n f e =
      ground (arith, read-delta enc none (tool_ordinal i enc.tools) words)
  delta-reads c i words enc (some BlockKind.text) s n f e =
      ground (arith, read-delta enc (some BlockKind.text) (tool_ordinal i enc.tools) words)
  delta-reads c i words enc (some BlockKind.reasoning) s n f e =
      ground (arith, read-delta enc (some BlockKind.reasoning) (tool_ordinal i enc.tools) words)
  delta-reads c i words enc (some (BlockKind.tool_call id name)) s n f e = ground (
    arith,
    tool_ordinal-mem i enc.tools (kind_of-known enc.kinds i id name enc.tools f.kept e),
    read-delta enc (some (BlockKind.tool_call id name)) (tool_ordinal i enc.tools) words,
  )

  pub on_event-reads :
      (c d : Check) (e : Event) (enc : Encoder)
      → c.started ≡ true
      → Follows c enc
      → check strict c e ≡ some d
      → (reads (phase_of c enc) (on_event enc e).1 ≡ some (phase_of d (on_event enc e).0))
        × Follows d (on_event enc e).0
  unfolding on_event check steps next
  on_event-reads c d (Event.start id model) enc s f h = absurd (ground arith)
  on_event-reads c d (Event.block_start i kind) enc s f h = on_block-reads c d i kind enc s f h
  on_event-reads c d (Event.delta i words) enc s f h =
      let e : c ≡ d = ground arith in
      rw (sym e) (delta-reads c i words enc (kind_of i enc.kinds) s (ground arith) f refl, f)
  on_event-reads c d (Event.block_stop i) enc s f h =
      (ground arith, record { numbered = ground arith; kept = f.kept })
  on_event-reads c d (Event.usage u) enc s f h =
      (ground arith, record { numbered = ground arith; kept = f.kept })
  on_event-reads c d (Event.finish stop) enc s f h = (
    ground (arith, read-last_chunk enc stop, read-done_line),
    record { numbered = ground arith; kept = f.kept },
  )
