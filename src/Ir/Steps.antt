-- ===== src/Ir/Steps.antt =====
-- A checker that reads a list value by value, and stops at the first that it refuses.
use local_proxy.Base.{Option, none, some, List, [], ◌∷◌, ◌++◌, ◌≡◌, some_inj, ◌∙◌}
use local_proxy.Json.{and_then}

module _ {ℓ κ} {P : Type ℓ} {V : Type κ} (step : P → V → Option P) where
  unfoldable pub steps : P → List V → Option P
  steps p [] = some p
  steps p (v ∷ vs) = and_then (step p v) (λ q. steps q vs)

  after_step :
      (o : Option P) (q : P) (vs ws : List V)
      → ((m : P) → steps m vs ≡ some q → steps m (vs ++ ws) ≡ steps q ws)
      → and_then o (λ m. steps m vs) ≡ some q
      → and_then o (λ m. steps m (vs ++ ws)) ≡ steps q ws
  after_step none q vs ws ih h = cc
  after_step (some m) q vs ws ih h = ih m h

  steps-append : (p q : P) (vs ws : List V) → steps p vs ≡ some q → steps p (vs ++ ws) ≡ steps q ws
  unfolding steps
  steps-append p q [] ws h = rw (some_inj h)
  steps-append p q (v ∷ vs) ws h = after_step (step p v) q vs ws (λ m k. steps-append m q vs ws k) h

  -- Two lists that are read one after the other.
  pub steps_both :
      (p q r : P) (vs ws : List V)
      → steps p vs ≡ some q
      → steps q ws ≡ some r
      → steps p (vs ++ ws) ≡ some r
  steps_both p q r vs ws h k = steps-append p q vs ws h ∙ k
