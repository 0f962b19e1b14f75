-- ===== src/Ir/ResponsesTypes.antt =====
-- The event types of `Decoder` of src/domain/ir/responses.rs, by the pushes that they take.
use local_proxy.Base.{
  ℕ, ◌+◌, ◌<◌, Bool, true, false, ◌||◌, Option, none, some, List, ◌++◌, ◌≡◌, refl, arith, Text,
  text_eq, codes, ltb,
}
use local_proxy.Ir.Emitter.{mem, Emitter, start, open_block, push_delta, and_push, u32_mod}
use local_proxy.Ir.Protocol.{accepts, accepts_both}
use local_proxy.Ir.Responses.{
  Decoder, item_key, tool_index, close_at, close_prose, push_tool, open_tool, open_prose, prose_at,
  prose, whole_call, call_done, item_done, item_added, on_type,
}
use local_proxy.Ir.Late.{hear, heard, open_block-hear, push_delta-hear}
use local_proxy.Ir.OpenaiLife.{differs, holds, mem-append}
use local_proxy.Ir.Steps.{steps, steps_both}
use local_proxy.Ir.Simulation.{view, open_block-accepts, push_delta-accepts}
use local_proxy.Ir.Types.{BlockKind}
use local_proxy.Json.{Value, str_of}
use local_proxy.Ir.ResponsesHeld.{
  given, held, given_suc, indices, indices-append, apart-fresh, tool_index-differs, spoken, lone,
  fits,
}
use local_proxy.Ir.ResponsesSteps.{
  Ready, Loose, Steps, and_push-Says, and_push-Steps, if_Steps, stay, less, spoken-none,
  close_call-Steps, close_at-Loose, take_text-Steps, take_reasoning-Steps, close_prose-Steps,
  speaks, arguments_at-Steps, push_tool-Steps,
}

-- Opening what is next, once the prose has closed.
open_tool-Steps :
    (k : ℕ) (key : Text) (item : Value) (d : Decoder)
    → Ready (1 + k) d
    → Steps k d (open_tool key item d)
unfolding open_tool
open_tool-Steps k key item d h =
    and_push-Steps (1 + k) k d (close_prose d) (push_tool key item) (close_prose-Steps (1 + k) d h)
      (push_tool-Steps k key item (close_prose d).0)

opens :
    (e : Emitter) (kind : BlockKind) (words : Text)
    → e.finished ≡ false
    → e.next + 1 < u32_mod
    → accepts false (view e) ((open_block e kind).1 ++ push_delta e.next words)
      ≡ some (view (open_block e kind).0)
unfolding open_block start
opens e kind words f b =
    accepts_both false (view e) (view (open_block e kind).0) (view (open_block e kind).0)
      (open_block e kind).1 (push_delta e.next words) (open_block-accepts false e kind f b)
      (push_delta-accepts false (open_block e kind).0 e.next words (ground arith) (ground arith))

opens-hear :
    (e : Emitter) (calls : List ℕ) (kind : BlockKind) (words : Text)
    → steps hear (heard e calls) (open_block e kind).1 ≡ some (heard (open_block e kind).0 calls)
    → steps hear (heard e calls) ((open_block e kind).1 ++ push_delta e.next words)
      ≡ some (heard (open_block e kind).0 calls)
unfolding open_block start
opens-hear e calls kind words h =
    let after = heard (open_block e kind).0 calls in
    steps_both hear (heard e calls) after after (open_block e kind).1 (push_delta e.next words) h
      (push_delta-hear after e.next words (ground (arith, mem-append e.next e.next e.opened)))

spoken-fresh :
    (e : Emitter) (kind : BlockKind) (ts : List (Text × ℕ))
    → given e.next ts ≡ true
    → e.next + 1 < u32_mod
    → spoken (open_block e kind).0 ts (some e.next) ≡ true
unfolding spoken open_block start held holds
spoken-fresh e kind ts g b =
    ground (arith, mem-append e.next e.next e.opened, apart-fresh e.next ts)

open_prose-Steps :
    (k : ℕ) (reasoning : Bool) (words : Text) (d : Decoder)
    → Loose (1 + k) d
    → Steps k d (open_prose reasoning words d)
unfolding open_prose open_block start fits lone
open_prose-Steps k true words d (f, g, b) =
    let kind = BlockKind.reasoning in
    let e = (open_block d.em kind).0 in
    (
      (
        opens d.em kind words f (omega arith),
        opens-hear d.em (indices d.tools) kind words (open_block-hear d.em (indices d.tools) kind),
      ),
      (
        ground arith,
        ground (
          arith,
          given_suc d.em.next d.tools,
          spoken-fresh d.em kind d.tools,
          spoken-none e d.tools,
        ),
        ground arith,
      ),
    )
open_prose-Steps k false words d (f, g, b) =
    let kind = BlockKind.text in
    let e = (open_block d.em kind).0 in
    (
      (
        opens d.em kind words f (omega arith),
        opens-hear d.em (indices d.tools) kind words (open_block-hear d.em (indices d.tools) kind),
      ),
      (
        ground arith,
        ground (
          arith,
          given_suc d.em.next d.tools,
          spoken-fresh d.em kind d.tools,
          spoken-none e d.tools,
        ),
        ground arith,
      ),
    )

prose_at-Steps :
    (k : ℕ) (reasoning : Bool) (mine other : Option ℕ) (words : Text) (d : Decoder)
    → spoken d.em d.tools mine ≡ true
    → Ready (1 + k) d
    → Steps k d (prose_at reasoning mine other words d)
unfolding prose_at spoken held holds
prose_at-Steps k reasoning (some i) other words d l h =
    speaks k i words d (ground arith) (ground arith) (less k d h)
prose_at-Steps k reasoning none other words d l h =
    let (a, loose) = close_at-Loose (1 + k) other d h in
    let (b, ready) = open_prose-Steps k reasoning words (close_at other d).0 loose in
    (and_push-Says d (close_at other d) (open_prose reasoning words) a b, ready)

prose-Steps :
    (k : ℕ) (reasoning : Bool) (words : Text) (d : Decoder)
    → Ready (1 + k) d
    → Steps k d (prose reasoning words d)
unfolding prose fits
prose-Steps k true words d h =
    prose_at-Steps k true d.reasoning d.text words d (ground (arith, h.1)) h
prose-Steps k false words d h =
    prose_at-Steps k false d.text d.reasoning words d (ground (arith, h.1)) h

push_tool-next :
    (key : Text) (item : Value) (d : Decoder)
    → d.em.next + 1 < u32_mod
    → ltb d.em.next (push_tool key item d).0.em.next ≡ true
unfolding push_tool open_block start
push_tool-next key item d h = ground arith

-- The block of a call that was just pushed.
push_tool-mem :
    (key : Text) (item : Value) (d : Decoder)
    → mem d.em.next (indices (push_tool key item d).0.tools) ≡ true
unfolding push_tool
push_tool-mem key item d =
    rw (indices-append key d.em.next d.tools)
      (ground (arith, mem-append d.em.next d.em.next (indices d.tools)))

held-differs : (n : ℕ) (p : Option ℕ) → held n p ≡ true → differs p n ≡ true
unfolding held differs
held-differs n none h = refl
held-differs n (some i) h = ground arith

whole_call-Steps :
    (k : ℕ) (key : Text) (item : Value) (d : Decoder)
    → Ready (1 + k) d
    → Steps k d (whole_call key item d)
unfolding whole_call fits spoken push_tool
whole_call-Steps k key item d h =
    let words = str_of item (codes "arguments") in
    and_push-Steps k k d (push_tool key item d)
      (λ d1. and_push (d1, push_delta d.em.next words) (close_at (some d.em.next)))
      (push_tool-Steps k key item d h)
      (λ g.
        let d1 = (push_tool key item d).0 in
        and_push-Steps k k d1 (d1, push_delta d.em.next words) (close_at (some d.em.next))
          (speaks k d.em.next words d1 (push_tool-next key item d (omega (arith, h.2)))
            (ground (arith, push_tool-mem key item d)) g)
          (close_call-Steps k d.em.next d1 (held-differs d.em.next d.text (ground (arith, h.1)))
            (held-differs d.em.next d.reasoning (ground (arith, h.1)))))

call_done-Steps :
    (k : ℕ) (key : Text) (item : Value) (o : Option ℕ) (d : Decoder)
    → tool_index key d.tools ≡ o
    → Ready (1 + k) d
    → Steps k d (call_done key item o d)
unfolding call_done fits spoken
call_done-Steps k key item (some i) d e h =
    close_call-Steps k i d (ground (arith, h.1, tool_index-differs d.text key i d.tools))
      (ground (arith, h.1, tool_index-differs d.reasoning key i d.tools)) (less k d h)
call_done-Steps k key item none d e h =
    and_push-Steps (1 + k) k d (close_prose d) (whole_call key item) (close_prose-Steps (1 + k) d h)
      (whole_call-Steps k key item (close_prose d).0)

item_done-Steps :
    (k : ℕ) (v item : Value) (d : Decoder) → Ready (1 + k) d → Steps k d (item_done v item d)
unfolding item_done
item_done-Steps k v item d h =
    let type = str_of item (codes "type") in
    let key = item_key v (str_of item (codes "id")) in
    if_Steps k d (text_eq type (codes "function_call")) _ _
      (call_done-Steps k key item (tool_index key d.tools) d refl h)
      (if_Steps k d (text_eq type (codes "message")) _ _ (take_text-Steps k d (less k d h)) (
        if_Steps k d (text_eq type (codes "reasoning")) _ _ (take_reasoning-Steps k d (less k d h))
          (stay k d h)))

item_added-Steps :
    (k : ℕ) (v item : Value) (d : Decoder) → Ready (1 + k) d → Steps k d (item_added v item d)
unfolding item_added
item_added-Steps k v item d h =
    if_Steps k d (text_eq (str_of item (codes "type")) (codes "function_call")) _ _
      (open_tool-Steps k (item_key v (str_of item (codes "id"))) item d h) (stay k d h)

pub on_type-Steps :
    (k : ℕ) (v item : Value) (d : Decoder) → Ready (1 + k) d → Steps k d (on_type v item d)
unfolding on_type fits
on_type-Steps k v item d h =
    let type = str_of v (codes "type") in
    let words = str_of v (codes "delta") in
    let key = item_key v (str_of v (codes "item_id")) in
    if_Steps k d (text_eq type (codes "response.output_item.added")) _ _
      (item_added-Steps k v item d h)
      (if_Steps k d (text_eq type (codes "response.output_text.delta")) _ _
        (prose-Steps k false words d h)
        (if_Steps k d
          (text_eq type (codes "response.reasoning_summary_text.delta")
            || text_eq type (codes "response.reasoning_text.delta"))
          _ _ (prose-Steps k true words d h)
          (if_Steps k d (text_eq type (codes "response.function_call_arguments.delta")) _ _
            (arguments_at-Steps k (tool_index key d.tools) key words d refl (less k d h))
            (if_Steps k d (text_eq type (codes "response.output_item.done")) _ _
              (item_done-Steps k v item d h) (stay k d h)))))
