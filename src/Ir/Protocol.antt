-- ===== src/Ir/Protocol.antt =====
-- The life cycle of a stream, as a checker of event sequences: it opens once, block indices count
-- up from 0, text goes to blocks that are open (or, if lenient, that were opened), a block closes
-- once, and nothing follows the end, at which no block is open.
use local_proxy.Base.{
  ℕ, ◌+◌, Bool, true, false, not, ◌&&◌, ◌||◌, Option, none, some, List, [], ◌∷◌, ◌++◌, ◌≡◌, ◌==◌,
  if◌then◌else◌, ltb, is_empty, some_inj, ◌∙◌,
}
use local_proxy.Ir.Emitter.{mem, remove}
use local_proxy.Ir.Types.{Event}
use local_proxy.Json.{and_then}

pub record Check : Type 0 where
  pub started : Bool
  pub seen : ℕ
  pub opened : List ℕ
  pub finished : Bool

abbrev pub new_check : Check
new_check = record { started = false; seen = 0; opened = []; finished = false }

abbrev pub no_blocks : List ℕ → Bool
no_blocks [] = true
no_blocks (_ ∷ _) = false

module _ (strict : Bool) where
  unfoldable pub check : Check → Event → Option Check
  check c (Event.start id model) =
      if c.started || c.finished then none else some (record c { started = true })
  check c (Event.block_start i kind) =
      if c.started && (not c.finished && i == c.seen)
      then some (record c { seen = c.seen + 1; opened = c.opened ++ i ∷ [] })
      else none
  check c (Event.delta i text) =
      if not (is_empty text) && (not c.finished && (mem i c.opened || (not strict && ltb i c.seen)))
      then some c
      else none
  check c (Event.block_stop i) =
      if not c.finished && mem i c.opened
      then some (record c { opened = remove i c.opened })
      else none
  check c (Event.usage u) = if c.started && not c.finished then some c else none
  check c (Event.finish reason) =
      if c.started && (not c.finished && no_blocks c.opened)
      then some (record c { finished = true })
      else none

  unfoldable pub accepts : Check → List Event → Option Check
  accepts c [] = some c
  accepts c (e ∷ es) = and_then (check c e) (λ d. accepts d es)

  accepts_step :
      (o : Option Check) (d : Check) (es ys : List Event)
      → ((m : Check) → accepts m es ≡ some d → accepts m (es ++ ys) ≡ accepts d ys)
      → and_then o (λ m. accepts m es) ≡ some d
      → and_then o (λ m. accepts m (es ++ ys)) ≡ accepts d ys
  accepts_step none d es ys ih h = cc
  accepts_step (some m) d es ys ih h = ih m h

  pub accepts-append :
      (c d : Check) (xs ys : List Event)
      → accepts c xs ≡ some d
      → accepts c (xs ++ ys) ≡ accepts d ys
  unfolding accepts
  accepts-append c d [] ys h = rw (some_inj h)
  accepts-append c d (e ∷ es) ys h =
      accepts_step (check c e) d es ys (λ m k. accepts-append m d es ys k) h

  -- Two pieces that are accepted one after the other.
  pub accepts_both :
      (c d f : Check) (xs ys : List Event)
      → accepts c xs ≡ some d
      → accepts d ys ≡ some f
      → accepts c (xs ++ ys) ≡ some f
  accepts_both c d f xs ys h k = accepts-append c d xs ys h ∙ k
