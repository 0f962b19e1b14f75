-- ===== src/Ir/Fresh.antt =====
-- A stream that the checker of Ir.Protocol has seen nothing of yet.
use local_proxy.Base.{
  ℕ, Bool, true, false, not, ◌&&◌, ◌||◌, some, List, [], ◌∷◌, ◌≡◌, refl, ◌==◌, Text, arith, inl,
  inr, ◌⊎◌,
}
use local_proxy.Ir.Emitter.{mem}
use local_proxy.Ir.Protocol.{Check, check, no_blocks}
use local_proxy.Ir.Types.{Event}

pub list_cases : (js : List ℕ) → (js ≡ []) ⊎ ((j : ℕ) × (rest : List ℕ) × (js ≡ j ∷ rest))
list_cases [] = inl refl
list_cases (j ∷ js) = inr (j, js, refl)

-- Before the stream starts nothing has been opened.
abbrev pub is_fresh : Check → Bool
is_fresh c = c.started || (c.seen == 0 && (no_blocks c.opened && not c.finished))

module _ (strict : Bool) where
  pub check-is_fresh :
      (c d : Check) (e : Event) → is_fresh c ≡ true → check strict c e ≡ some d → is_fresh d ≡ true
  unfolding check mem
  check-is_fresh c d (Event.start id model) f h = ground arith
  check-is_fresh c d (Event.block_start i kind) f h = ground arith
  check-is_fresh c d (Event.delta i words) f h = ground arith
  check-is_fresh c d (Event.block_stop i) f h = elim (list_cases c.opened) [
    | inl e ↦ ground arith
    | inr (j, js, e) ↦ ground arith
  ]
  check-is_fresh c d (Event.usage u) f h = ground arith
  check-is_fresh c d (Event.finish stop) f h = ground arith

  pub check-started :
      (c d : Check) (e : Event) → c.started ≡ true → check strict c e ≡ some d → d.started ≡ true
  unfolding check
  check-started c d (Event.start id model) s h = ground arith
  check-started c d (Event.block_start i kind) s h = ground arith
  check-started c d (Event.delta i words) s h = ground arith
  check-started c d (Event.block_stop i) s h = ground arith
  check-started c d (Event.usage u) s h = ground arith
  check-started c d (Event.finish stop) s h = ground arith

  -- The first event that a fresh stream accepts is its start.
  pub check_first :
      (c d : Check) (e : Event)
      → c.started ≡ false
      → is_fresh c ≡ true
      → check strict c e ≡ some d
      → (id : Text) × (model : Text) × (e ≡ Event.start id model)
  unfolding check mem
  check_first c d (Event.start id model) s f h = (id, model, refl)
  check_first c d (Event.block_start i kind) s f h = absurd (ground arith)
  check_first c d (Event.delta i words) s f h = elim (list_cases c.opened) [
    | inl e ↦ absurd (ground arith)
    | inr (j, js, e) ↦ absurd (ground arith)
  ]
  check_first c d (Event.block_stop i) s f h = elim (list_cases c.opened) [
    | inl e ↦ absurd (ground arith)
    | inr (j, js, e) ↦ absurd (ground arith)
  ]
  check_first c d (Event.usage u) s f h = absurd (ground arith)
  check_first c d (Event.finish stop) s f h = absurd (ground arith)
