-- ===== src/Ir/OpenaiDeltas.antt =====
-- The deltas of one choice in `Decoder` of src/domain/ir/openai.rs, with the invariant of its
-- state.
use local_proxy.Base.{
  ℕ, suc, ◌+◌, ◌<◌, ◌≤◌, true, Option, none, some, List, [], ◌∷◌, ◌≡◌, refl, arith, Text, codes,
  is_empty, Bool-cases, inl, inr, length,
}
use local_proxy.Ir.Emitter.{mem, push_delta, u32_mod}
use local_proxy.Ir.Openai.{
  Decoder, new_decoder, take_text, take_reasoning, close_prose, open_reasoning, open_text,
  open_tool, reasoning_of, reasoning_at, reasoning_delta, text_at, text_delta, find_tool, tool_at,
  tool_kind, tool_delta, tool_deltas, note_stop, on_choice, deltas, prose_deltas, choice_delta,
}
use local_proxy.Ir.OpenaiLife.{holds, find_tool-mem, below, safe}
use local_proxy.Ir.OpenaiSteps.{
  ready, Ready, Steps, and_push-Steps, stay, unfinished, take_text-Steps, take_reasoning-Steps,
  open_reasoning-Steps, open_text-Steps, open_tool-Steps,
}
use local_proxy.Ir.Simulation.{push_delta-accepts}
use local_proxy.Ir.Types.{BlockKind}
use local_proxy.Json.{
  Value, get, get_or, as_str, and_then, or_none, str_of, nat_of, elements_of, null,
}

pub Ready-less : (k m : ℕ) (d : Decoder) → m ≤ k → Ready k d → Ready m d
Ready-less k m d l (h, b) = (h, omega arith)

speaks :
    (k i : ℕ) (d : Decoder) (words : Text)
    → Ready k d
    → mem i d.em.opened ≡ true
    → Steps k d (d, push_delta i words)
speaks k i d words h m = (push_delta-accepts true d.em i words (unfinished d h.0) (ground arith), h)

text-mem : (d : Decoder) (i : ℕ) → ready d ≡ true → d.text ≡ some i → mem i d.em.opened ≡ true
unfolding ready holds
text-mem d i h e = ground arith

reasoning-mem :
    (d : Decoder) (i : ℕ) → ready d ≡ true → d.reasoning ≡ some i → mem i d.em.opened ≡ true
unfolding ready holds
reasoning-mem d i h e = ground arith

reasoning_at-Steps :
    (k : ℕ) (d : Decoder) (words : Text) (o : Option ℕ)
    → Ready (suc k) d
    → d.reasoning ≡ o
    → Steps k d (reasoning_at d words o)
unfolding reasoning_at take_text
reasoning_at-Steps k d words (some i) h e =
    speaks k i d words (Ready-less (suc k) k d (omega arith) h) (reasoning-mem d i h.0 e)
reasoning_at-Steps k d words none h e =
    and_push-Steps (suc k) k d (take_text d) (open_reasoning words) (take_text-Steps (suc k) d h)
      (λ g. open_reasoning-Steps k (take_text d).0 words g refl e)

text_at-Steps :
    (k : ℕ) (d : Decoder) (words : Text) (o : Option ℕ)
    → Ready (suc k) d
    → d.text ≡ o
    → Steps k d (text_at d words o)
unfolding text_at take_reasoning
text_at-Steps k d words (some i) h e =
    speaks k i d words (Ready-less (suc k) k d (omega arith) h) (text-mem d i h.0 e)
text_at-Steps k d words none h e =
    and_push-Steps (suc k) k d (take_reasoning d) (open_text words)
      (take_reasoning-Steps (suc k) d h)
      (λ g. open_text-Steps k (take_reasoning d).0 words g e refl)

reasoning_delta-Steps :
    (k : ℕ) (d : Decoder) (words : Text) → Ready (suc k) d → Steps k d (reasoning_delta words d)
unfolding reasoning_delta
reasoning_delta-Steps k d words h = elim (Bool-cases (is_empty words)) [
  | inl e ↦ rw (e) (stay k d (Ready-less (suc k) k d (omega arith) h))
  | inr e ↦ rw (e) (reasoning_at-Steps k d words d.reasoning h refl)
]

text_delta-Steps :
    (k : ℕ) (d : Decoder) (words : Text) → Ready (suc k) d → Steps k d (text_delta words d)
unfolding text_delta
text_delta-Steps k d words h = elim (Bool-cases (is_empty words)) [
  | inl e ↦ rw (e) (stay k d (Ready-less (suc k) k d (omega arith) h))
  | inr e ↦ rw (e) (text_at-Steps k d words d.text h refl)
]

close_prose-Steps : (k : ℕ) (d : Decoder) → Ready k d → Steps k d (close_prose d)
unfolding close_prose
close_prose-Steps k d h =
    and_push-Steps k k d (take_text d) take_reasoning (take_text-Steps k d h)
      (take_reasoning-Steps k (take_text d).0)

close_prose-text : (d : Decoder) → (close_prose d).0.text ≡ none
unfolding close_prose take_text take_reasoning
close_prose-text d = refl

close_prose-reasoning : (d : Decoder) → (close_prose d).0.reasoning ≡ none
unfolding close_prose take_text take_reasoning
close_prose-reasoning d = refl

tool_at-Steps :
    (k u : ℕ) (kind : BlockKind) (d : Decoder) (words : Text) (o : Option ℕ)
    → Ready (suc k) d
    → find_tool u d.tools ≡ o
    → Steps k d (tool_at u kind words d o)
unfolding tool_at ready
tool_at-Steps k u kind d words (some i) h e =
    speaks k i d words (Ready-less (suc k) k d (omega arith) h)
      (find_tool-mem d.em.opened (or_none d.text d.reasoning) u i d.tools (ground (arith, h.0)) e)
tool_at-Steps k u kind d words none h e =
    and_push-Steps (suc k) k d (close_prose d) (open_tool u kind words)
      (close_prose-Steps (suc k) d h)
      (λ g.
        open_tool-Steps k (close_prose d).0 words g u kind (close_prose-text d)
          (close_prose-reasoning d))

tool_deltas-Steps :
    (k : ℕ) (tcs : List Value) (d : Decoder)
    → Ready (length tcs + k) d
    → Steps k d (tool_deltas tcs d)
unfolding tool_deltas tool_delta
tool_deltas-Steps k [] d h = stay k d (Ready-less (0 + k) k d (omega arith) h)
tool_deltas-Steps k (tc ∷ tcs) d h =
    and_push-Steps (length tcs + k) k d (tool_delta tc d) (tool_deltas tcs)
      (tool_at-Steps (length tcs + k) (get_or (nat_of tc (codes "index")) 0)
        (tool_kind (get_or (nat_of tc (codes "index")) 0) tc) d
        (str_of (get_or (get (codes "function") tc) null) (codes "arguments"))
        (find_tool (get_or (nat_of tc (codes "index")) 0) d.tools)
        (Ready-less (suc (length tcs) + k) (suc (length tcs + k)) d (omega arith) h) refl)
      (tool_deltas-Steps k tcs (tool_delta tc d).0)

pub new_decoder-Ready : (k : ℕ) → k < u32_mod → Ready k new_decoder
unfolding ready below holds safe
new_decoder-Ready k h = (refl, omega arith)

note_stop-Steps : (k : ℕ) (o : Option Text) (d : Decoder) → Ready k d → Steps k d (note_stop o d)
unfolding note_stop ready
note_stop-Steps k none d h = stay k d h
note_stop-Steps k (some reason) d h = stay k d h

-- The blocks that a choice may open.
abbrev pub choice_weight : Option Value → ℕ
choice_weight none = 0
choice_weight (some choice) = 2 + length (elements_of (choice_delta choice) (codes "tool_calls"))

prose_deltas-Steps :
    (k : ℕ) (delta : Value) (d : Decoder) → Ready (2 + k) d → Steps k d (prose_deltas delta d)
unfolding prose_deltas
prose_deltas-Steps k delta d h =
    and_push-Steps (suc k) k d (reasoning_delta (reasoning_of delta) d)
      (text_delta (str_of delta (codes "content")))
      (reasoning_delta-Steps (suc k) d (reasoning_of delta)
        (Ready-less (2 + k) (suc (suc k)) d (omega arith) h))
      (text_delta-Steps k (reasoning_delta (reasoning_of delta) d).0
        (str_of delta (codes "content")))

deltas-Steps :
    (k : ℕ) (delta : Value) (d : Decoder)
    → Ready (2 + length (elements_of delta (codes "tool_calls")) + k) d
    → Steps k d (deltas delta d)
unfolding deltas
deltas-Steps k delta d h =
    let tcs = elements_of delta (codes "tool_calls") in
    and_push-Steps (length tcs + k) k d (prose_deltas delta d) (tool_deltas tcs)
      (prose_deltas-Steps (length tcs + k) delta d
        (Ready-less (2 + length tcs + k) (2 + (length tcs + k)) d (omega arith) h))
      (tool_deltas-Steps k tcs (prose_deltas delta d).0)

pub on_choice-Steps :
    (k : ℕ) (o : Option Value) (d : Decoder)
    → Ready (choice_weight o + k) d
    → Steps k d (on_choice o d)
unfolding on_choice
on_choice-Steps k none d h = stay k d (Ready-less (0 + k) k d (omega arith) h)
on_choice-Steps k (some choice) d h =
    and_push-Steps k k d (deltas (choice_delta choice) d)
      (note_stop (and_then (get (codes "finish_reason") choice) as_str))
      (deltas-Steps k (choice_delta choice) d h)
      (note_stop-Steps k (and_then (get (codes "finish_reason") choice) as_str)
        (deltas (choice_delta choice) d).0)
