-- ===== src/Ir/ResponsesItems.antt =====
-- The open items of the encoder of src/domain/ir/responses.rs, beside those that its client holds
-- open.
use local_proxy.Base.{
  ℕ, ◌+◌, Bool, true, false, ◌&&◌, some, List, [], ◌∷◌, ◌++◌, ◌≡◌, refl, arith, ◌==◌, if◌then◌else◌,
  Text, leb, Bool-cases, inl, inr, some_inj, sym,
}
use local_proxy.Ir.Emitter.{mem, remove}
use local_proxy.Ir.ResponsesEncoder.{OpenItem}
use local_proxy.Ir.ResponsesEvents.{find_item, push_text, remove_item}
use local_proxy.Ir.Types.{BlockKind}

abbrev pub shown : BlockKind → Bool
shown BlockKind.text = true
shown (BlockKind.tool_call id name) = true
shown BlockKind.reasoning = false

unfoldable pub indices : List OpenItem → List ℕ
indices [] = []
indices (it ∷ its) = it.index ∷ indices its

unfoldable pub outputs : List OpenItem → List ℕ
outputs [] = []
outputs (it ∷ its) =
    let rest = outputs its in if shown it.kind then it.output_index ∷ rest else rest

-- From `lo` up to below `hi`.
unfoldable pub rising : ℕ → ℕ → List OpenItem → Bool
rising lo hi [] = leb lo hi
rising lo hi (it ∷ its) =
    if shown it.kind
    then leb lo it.output_index && rising (it.output_index + 1) hi its
    else rising lo hi its

-- More text for an item changes none of that.
pub indices-push_text :
    (i : ℕ) (words : Text) (its : List OpenItem) → indices (push_text i words its) ≡ indices its
unfolding indices push_text
indices-push_text i words [] = refl
indices-push_text i words (it ∷ its) = ground (arith, indices-push_text i words its)

pub outputs-push_text :
    (i : ℕ) (words : Text) (its : List OpenItem) → outputs (push_text i words its) ≡ outputs its
unfolding outputs push_text
outputs-push_text i words [] = refl
outputs-push_text i words (it ∷ its) = ground (arith, outputs-push_text i words its)

pub rising-push_text :
    (lo hi i : ℕ) (words : Text) (its : List OpenItem)
    → rising lo hi (push_text i words its) ≡ rising lo hi its
unfolding rising push_text
rising-push_text lo hi i words [] = refl
rising-push_text lo hi i words (it ∷ its) = ground (
  arith,
  rising-push_text lo hi i words its,
  rising-push_text (it.output_index + 1) hi i words its,
)

pub find_item-indices :
    (i : ℕ) (its : List OpenItem)
    → mem i (indices its) ≡ true
    → (it : OpenItem) × (find_item i its ≡ some it)
unfolding indices find_item mem
find_item-indices i [] h = absurd (ground arith)
find_item-indices i (it ∷ its) h = elim (Bool-cases (it.index == i)) [
  | inl e ↦ (it, ground arith)
  | inr e ↦ let (jt, f) = find_item-indices i its (ground arith) in (jt, ground arith)
]

pub indices-remove_item :
    (i : ℕ) (its : List OpenItem) → indices (remove_item i its) ≡ remove i (indices its)
unfolding indices remove_item remove
indices-remove_item i [] = refl
indices-remove_item i (it ∷ its) = ground (arith, indices-remove_item i its)

-- An item that is found and shown is open for the client.
pub find_item-outputs :
    (i : ℕ) (its : List OpenItem) (it : OpenItem)
    → find_item i its ≡ some it
    → shown it.kind ≡ true
    → mem it.output_index (outputs its) ≡ true
unfolding outputs find_item mem
find_item-outputs i [] it f s = absurd (ground arith)
find_item-outputs i (jt ∷ its) it f s = elim (Bool-cases (jt.index == i)) [
  | inl e ↦
      let q : some jt ≡ some it = ground arith in
      let t : shown jt.kind ≡ true = rw (some_inj q) s in rw (sym (some_inj q)) (ground arith)
  | inr e ↦ let m = find_item-outputs i its it (ground arith) s in ground arith
]

rising-lo :
    (lo hi n : ℕ) (its : List OpenItem)
    → rising lo hi its ≡ true
    → mem n (outputs its) ≡ true
    → leb lo n ≡ true
unfolding rising outputs mem
rising-lo lo hi n [] h m = absurd (ground arith)
rising-lo lo hi n (it ∷ its) h m =
    ground (arith, rising-lo lo hi n its, rising-lo (it.output_index + 1) hi n its)

rising-weaken :
    (lo mid hi : ℕ) (its : List OpenItem)
    → leb lo mid ≡ true
    → rising mid hi its ≡ true
    → rising lo hi its ≡ true
unfolding rising
rising-weaken lo mid hi [] l h = ground arith
rising-weaken lo mid hi (it ∷ its) l h = ground (arith, rising-weaken lo mid hi its)

pub rising-remove_item :
    (lo hi i : ℕ) (its : List OpenItem)
    → rising lo hi its ≡ true
    → rising lo hi (remove_item i its) ≡ true
unfolding rising remove_item
rising-remove_item lo hi i [] h = h
rising-remove_item lo hi i (it ∷ its) h = ground (
  arith,
  rising-remove_item lo hi i its,
  rising-remove_item (it.output_index + 1) hi i its,
  rising-weaken lo (it.output_index + 1) hi its,
)

pub outputs-remove_item :
    (lo hi i : ℕ) (its : List OpenItem) (it : OpenItem)
    → rising lo hi its ≡ true
    → find_item i its ≡ some it
    → shown it.kind ≡ true
    → outputs (remove_item i its) ≡ remove it.output_index (outputs its)
unfolding outputs rising remove_item remove find_item
outputs-remove_item lo hi i [] it h f s = absurd (ground arith)
outputs-remove_item lo hi i (jt ∷ its) it h f s = elim (Bool-cases (jt.index == i)) [
  | inl e ↦
      let q : some jt ≡ some it = ground arith in
      let t : shown jt.kind ≡ true = rw (some_inj q) s in rw (sym (some_inj q)) (ground arith)
  | inr e ↦
      let g : find_item i its ≡ some it = ground arith in
      ground (
        arith,
        outputs-remove_item lo hi i its it,
        outputs-remove_item (jt.output_index + 1) hi i its it,
        rising-lo (jt.output_index + 1) hi it.output_index its,
        find_item-outputs i its it g s,
      )
]

pub outputs-remove_item-hidden :
    (i : ℕ) (its : List OpenItem) (it : OpenItem)
    → find_item i its ≡ some it
    → shown it.kind ≡ false
    → outputs (remove_item i its) ≡ outputs its
unfolding outputs remove_item find_item
outputs-remove_item-hidden i [] it f s = absurd (ground arith)
outputs-remove_item-hidden i (jt ∷ its) it f s = elim (Bool-cases (jt.index == i)) [
  | inl e ↦
      let q : some jt ≡ some it = ground arith in
      let t : shown jt.kind ≡ false = rw (some_inj q) s in ground arith
  | inr e ↦ let m = outputs-remove_item-hidden i its it (ground arith) s in ground arith
]

pub indices-append :
    (its : List OpenItem) (it : OpenItem) → indices (its ++ it ∷ []) ≡ indices its ++ it.index ∷ []
unfolding indices
indices-append [] it = refl
indices-append (jt ∷ its) it = rw (indices-append its it) refl

pub outputs-append :
    (its : List OpenItem) (it : OpenItem)
    → outputs (its ++ it ∷ [])
      ≡ (if shown it.kind then outputs its ++ it.output_index ∷ [] else outputs its)
unfolding outputs
outputs-append [] it = refl
outputs-append (jt ∷ its) it = ground (arith, outputs-append its it)

pub rising-append :
    (lo hi : ℕ) (its : List OpenItem) (it : OpenItem)
    → it.output_index ≡ hi
    → shown it.kind ≡ true
    → rising lo hi its ≡ true
    → rising lo (hi + 1) (its ++ it ∷ []) ≡ true
unfolding rising
rising-append lo hi [] it e s h = ground arith
rising-append lo hi (jt ∷ its) it e s h =
    ground
      (arith, rising-append lo hi its it e s, rising-append (jt.output_index + 1) hi its it e s)

pub rising-append-hidden :
    (lo hi : ℕ) (its : List OpenItem) (it : OpenItem)
    → shown it.kind ≡ false
    → rising lo hi its ≡ true
    → rising lo hi (its ++ it ∷ []) ≡ true
unfolding rising
rising-append-hidden lo hi [] it s h = ground arith
rising-append-hidden lo hi (jt ∷ its) it s h = ground (
  arith,
  rising-append-hidden lo hi its it s,
  rising-append-hidden (jt.output_index + 1) hi its it s,
)
