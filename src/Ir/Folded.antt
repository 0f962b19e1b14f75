-- ===== src/Ir/Folded.antt =====
-- `fold` of src/domain/ir/mod.rs beside a description of its result, block by block.
use local_proxy.Base.{
  ℕ, ◌+◌, Bool, true, false, ◌&&◌, Option, none, some, List, [], ◌∷◌, ◌++◌, ◌≡◌, refl, sym, ap, ◌∙◌,
  arith, ◌==◌, if◌then◌else◌, Text, leb, map, append_assoc, append-nil, Bool-cases, inl, inr,
}
use local_proxy.Ir.Fold.{
  FoldBlock, no_response, empty_part, push_part, push_block, push_delta_at, fold_event, fold_events,
  parse_args, finish_block, fold,
}
use local_proxy.Ir.Protocol.{Check, new_check, check, accepts}
use local_proxy.Ir.Types.{Event, BlockKind, Part, Response}
use local_proxy.Json.{Value, and_then-eq-some}

-- The text that the events say of the block with an index.
unfoldable pub said : ℕ → List Event → Text
said i [] = []
said i (Event.delta j words ∷ es) = let rest = said i es in if j == i then words ++ rest else rest
said i (Event.start id model ∷ es) = said i es
said i (Event.block_start j kind ∷ es) = said i es
said i (Event.block_stop j ∷ es) = said i es
said i (Event.usage u ∷ es) = said i es
said i (Event.finish stop ∷ es) = said i es

unfoldable rising : ℕ → ℕ → List FoldBlock → Bool
rising lo hi [] = leb lo hi
rising lo hi (b ∷ bs) = leb lo b.index && rising (b.index + 1) hi bs

rising-append :
    (lo hi : ℕ) (bs : List FoldBlock) (b : FoldBlock)
    → b.index ≡ hi
    → rising lo hi bs ≡ true
    → rising lo (hi + 1) (bs ++ b ∷ []) ≡ true
unfolding rising
rising-append lo hi [] b e h = ground arith
rising-append lo hi (a ∷ bs) b e h = ground (arith, rising-append (a.index + 1) hi bs b e)

rising-push_delta_at :
    (lo hi i : ℕ) (words : Text) (bs : List FoldBlock)
    → rising lo hi (push_delta_at i words bs) ≡ rising lo hi bs
unfolding rising push_delta_at
rising-push_delta_at lo hi i words [] = refl
rising-push_delta_at lo hi i words (b ∷ bs) =
    ground (arith, rising-push_delta_at (b.index + 1) hi i words bs)

module _ (parse_json : Text → Option Value) where
  -- The part that a block of a kind is, by the whole of its text.
  unfoldable pub part_of : BlockKind → Text → Part
  part_of BlockKind.text words = Part.text words
  part_of BlockKind.reasoning words = Part.reasoning words none
  part_of (BlockKind.tool_call id name) words =
      Part.tool_call (record { id = id; name = name; arguments = parse_args parse_json words })

  -- The parts of the events: one for each block, of all that is said of it.
  unfoldable pub parts : List Event → List Part
  parts [] = []
  parts (Event.block_start i kind ∷ es) = part_of kind (said i es) ∷ parts es
  parts (Event.start id model ∷ es) = parts es
  parts (Event.delta i words ∷ es) = parts es
  parts (Event.block_stop i ∷ es) = parts es
  parts (Event.usage u ∷ es) = parts es
  parts (Event.finish stop ∷ es) = parts es

  abbrev done : FoldBlock → Part
  done b = finish_block parse_json b.args b.part

  -- A block with more text, at its end.
  abbrev ended : List Event → FoldBlock → Part
  ended es b = done (push_block (said b.index es) b)

  push_part-nil : (part : Part) (args : Text) → push_part [] part args ≡ (part, args)
  unfolding push_part
  push_part-nil (Part.text t) args = rw (append-nil t) refl
  push_part-nil (Part.reasoning t s) args = rw (append-nil t) refl
  push_part-nil (Part.image i) args = rw (append-nil args) refl
  push_part-nil (Part.tool_call c) args = rw (append-nil args) refl
  push_part-nil (Part.tool_result r) args = rw (append-nil args) refl

  push_part-push_part :
      (xs ys : Text) (part : Part) (args : Text)
      → push_part ys (push_part xs part args).0 (push_part xs part args).1
        ≡ push_part (xs ++ ys) part args
  unfolding push_part
  push_part-push_part xs ys (Part.text t) args = rw (append_assoc t xs ys) refl
  push_part-push_part xs ys (Part.reasoning t s) args = rw (append_assoc t xs ys) refl
  push_part-push_part xs ys (Part.image i) args = rw (append_assoc args xs ys) refl
  push_part-push_part xs ys (Part.tool_call c) args = rw (append_assoc args xs ys) refl
  push_part-push_part xs ys (Part.tool_result r) args = rw (append_assoc args xs ys) refl

  new_block-ended :
      (kind : BlockKind) (words : Text)
      → done (push_block words (record { index = 0; part = empty_part kind; args = [] }))
        ≡ part_of kind words
  unfolding push_part empty_part finish_block part_of
  new_block-ended BlockKind.text words = refl
  new_block-ended BlockKind.reasoning words = refl
  new_block-ended (BlockKind.tool_call id name) words = refl

  ended-nil : (bs : List FoldBlock) → map done bs ≡ map (ended []) bs
  unfolding said
  ended-nil [] = refl
  ended-nil (b ∷ bs) = rw (push_part-nil b.part b.args, ended-nil bs) refl

  -- What is said of one block is not said of those behind it.
  ended-above :
      (i lo hi : ℕ) (words : Text) (es : List Event) (bs : List FoldBlock)
      → leb (i + 1) lo ≡ true
      → rising lo hi bs ≡ true
      → map (ended es) bs ≡ map (ended (Event.delta i words ∷ es)) bs
  unfolding said rising
  ended-above i lo hi words es [] l h = refl
  ended-above i lo hi words es (b ∷ bs) l h =
      let n : (i == b.index) ≡ false = ground arith in
      rw (n, ended-above i (b.index + 1) hi words es bs (ground arith) (ground arith)) refl

  ended-delta :
      (i lo hi : ℕ) (words : Text) (es : List Event) (bs : List FoldBlock)
      → rising lo hi bs ≡ true
      → map (ended es) (push_delta_at i words bs) ≡ map (ended (Event.delta i words ∷ es)) bs
  unfolding said rising push_delta_at
  ended-delta i lo hi words es [] h = refl
  ended-delta i lo hi words es (b ∷ bs) h = elim (Bool-cases (b.index == i)) [
    | inl e ↦
        let n : (i == b.index) ≡ true = ground arith in
        rw
          (
            e,
            n,
            push_part-push_part words (said b.index es) b.part b.args,
            ended-above i (b.index + 1) hi words es bs (ground arith) (ground arith),
          )
          refl
    | inr e ↦
        let n : (i == b.index) ≡ false = ground arith in
        rw (e, n, ended-delta i (b.index + 1) hi words es bs (ground arith)) refl
  ]

  map-append-one :
      (f : FoldBlock → Part) (bs : List FoldBlock) (b : FoldBlock) (ps : List Part)
      → map f (bs ++ b ∷ []) ++ ps ≡ map f bs ++ f b ∷ ps
  map-append-one f [] b ps = refl
  map-append-one f (a ∷ bs) b ps = rw (map-append-one f bs b ps) refl

  new_block :
      (i : ℕ) (kind : BlockKind) (es : List Event)
      → ended es (record { index = i; part = empty_part kind; args = [] })
        ≡ part_of kind (said i es)
  new_block i kind es = new_block-ended kind (said i es)

  module _ (strict : Bool) where
    fold_events-parts :
        (es : List Event) (c d : Check) (r : Response) (bs : List FoldBlock)
        → rising 0 c.seen bs ≡ true
        → accepts strict c es ≡ some d
        → map done (fold_events es (r, bs)).1 ≡ map (ended es) bs ++ parts es
    unfolding accepts check fold_events fold_event parts said
    fold_events-parts [] c d r bs g h = ended-nil bs ∙ sym (append-nil (map (ended []) bs))
    fold_events-parts (Event.start id model ∷ es) c d r bs g h =
        let (m, a, b) =
          and_then-eq-some (check strict c (Event.start id model)) (λ m. accepts strict m es) d h in
        fold_events-parts es m d (record r { id = id; model = model }) bs (ground arith) b
    fold_events-parts (Event.block_start i kind ∷ es) c d r bs g h =
        let (m, a, b) =
          and_then-eq-some (check strict c (Event.block_start i kind)) (λ m. accepts strict m es) d
            h in
        let new : FoldBlock = record { index = i; part = empty_part kind; args = [] } in
        let q : i ≡ c.seen = ground arith in
        let s : m.seen ≡ c.seen + 1 = ground arith in
        fold_events-parts es m d r (bs ++ new ∷ []) (rw (s) (rising-append 0 c.seen bs new q g)) b
        ∙ map-append-one (ended es) bs new (parts es)
        ∙ ap (λ p. map (ended es) bs ++ p ∷ parts es) (new_block i kind es)
    fold_events-parts (Event.delta i words ∷ es) c d r bs g h =
        let (m, a, b) =
          and_then-eq-some (check strict c (Event.delta i words)) (λ m. accepts strict m es) d h in
        let s : m.seen ≡ c.seen = ground arith in
        fold_events-parts es m d r (push_delta_at i words bs)
          (rw (s) (rising-push_delta_at 0 c.seen i words bs ∙ g)) b
        ∙ ap (λ ps. ps ++ parts es) (ended-delta i 0 c.seen words es bs g)
    fold_events-parts (Event.block_stop i ∷ es) c d r bs g h =
        let (m, a, b) =
          and_then-eq-some (check strict c (Event.block_stop i)) (λ m. accepts strict m es) d h in
        fold_events-parts es m d r bs (ground arith) b
    fold_events-parts (Event.usage u ∷ es) c d r bs g h =
        let (m, a, b) =
          and_then-eq-some (check strict c (Event.usage u)) (λ m. accepts strict m es) d h in
        fold_events-parts es m d (record r { usage = u }) bs (ground arith) b
    fold_events-parts (Event.finish stop ∷ es) c d r bs g h =
        let (m, a, b) =
          and_then-eq-some (check strict c (Event.finish stop)) (λ m. accepts strict m es) d h in
        fold_events-parts es m d (record r { stop = stop }) bs (ground arith) b

    -- A response folded from a well-formed stream has one part for each block, in the order in which
    -- they opened: of the block's kind, with all that the deltas for its index say after its start,
    -- in order, read as the arguments if it is a call.
    pub fold-parts :
        (es : List Event) (c : Check)
        → accepts strict new_check es ≡ some c
        → (fold parse_json es).content ≡ parts es
    unfolding fold rising
    fold-parts es c h = fold_events-parts es new_check c no_response [] refl h
