-- ===== src/Ir/Fold.antt =====
-- `fold` of src/domain/ir/mod.rs: the response that a whole sequence of events makes.
use local_proxy.Base.{
  ℕ, Option, none, some, List, [], ◌∷◌, ◌++◌, ◌==◌, if◌then◌else◌, Text, is_blank, map,
}
use local_proxy.Ir.Types.{Event, BlockKind, Part, Response, StopReason}
use local_proxy.Json.{Value, null, string, obj}
use local_proxy.Usage.{no_usage}

-- A block, with the arguments of its call as they come.
pub record FoldBlock : Type 0 where
  pub index : ℕ
  pub part : Part
  pub args : Text

abbrev pub no_response : Response
no_response = record {
  id = [];
  model = [];
  content = [];
  stop = StopReason.end_turn;
  created = none;
  usage = no_usage;
  ext = [];
}

unfoldable pub empty_part : BlockKind → Part
empty_part BlockKind.text = Part.text []
empty_part BlockKind.reasoning = Part.reasoning [] none
empty_part (BlockKind.tool_call id name) =
    Part.tool_call (record { id = id; name = name; arguments = null })

unfoldable pub push_part : (words : Text) → Part → (args : Text) → Part × Text
push_part words (Part.text t) args = (Part.text (t ++ words), args)
push_part words (Part.reasoning t signature) args = (Part.reasoning (t ++ words) signature, args)
push_part words part args = (part, args ++ words)

abbrev pub push_block : (words : Text) → FoldBlock → FoldBlock
push_block words b =
    let (part, args) = push_part words b.part b.args in
    record { index = b.index; part = part; args = args }

-- The first block with the index takes the text.
unfoldable pub push_delta_at : ℕ → Text → List FoldBlock → List FoldBlock
push_delta_at i words [] = []
push_delta_at i words (b ∷ bs) =
    let rest = b ∷ push_delta_at i words bs in
    if b.index == i then push_block words b ∷ bs else rest

unfoldable pub fold_event : Event → Response × List FoldBlock → Response × List FoldBlock
fold_event (Event.start id model) (r, bs) = (record r { id = id; model = model }, bs)
fold_event (Event.block_start i kind) (r, bs) =
    (r, bs ++ record { index = i; part = empty_part kind; args = [] } ∷ [])
fold_event (Event.delta i words) (r, bs) = (r, push_delta_at i words bs)
fold_event (Event.usage u) (r, bs) = (record r { usage = u }, bs)
fold_event (Event.finish stop) (r, bs) = (record r { stop = stop }, bs)
fold_event (Event.block_stop i) (r, bs) = (r, bs)

unfoldable pub fold_events : List Event → Response × List FoldBlock → Response × List FoldBlock
fold_events [] st = st
fold_events (e ∷ es) st = fold_events es (fold_event e st)

module _ (parse_json : Text → Option Value) where
  unfoldable pub parse_args : Text → Value
  parse_args raw =
      if is_blank raw then obj [] else elim (parse_json raw) [ some v ↦ v | none ↦ string raw ]

  unfoldable pub finish_block : (args : Text) → Part → Part
  finish_block args (Part.tool_call call) =
      Part.tool_call (record call { arguments = parse_args args })
  finish_block args part = part

  unfoldable pub fold : List Event → Response
  fold es =
      let (r, bs) = fold_events es (no_response, []) in
      record r { content = map (λ b. finish_block b.args b.part) bs }
