-- ===== src/Router/Auto.antt =====
-- The loops of the router's `auto`, native-list and prefix searches, without their accumulators.
use local_proxy.Base.{
  ℕ, suc, Bool, true, false, ◌&&◌, Option, none, some, List, [], ◌∷◌, ◌≡◌, refl, ap, sym, ◌∙◌,
  arith, ◌==◌, ==_iff, if◌then◌else◌, Text, get_elem?, find, contains_text, Bool-cases, inl, inr,
  some_inj, All, byte_len,
}
use local_proxy.Config.{Provider, Route}
use local_proxy.Router.Build.{Router}
use local_proxy.Router.Resolve.{
  provider_auto, resolve_provider_auto, auto_loop, native, best_prefix, is_better,
}
use local_proxy.Router.Spec.{or_else, answer, has_auto, longest_prefix, prefix_routes, is_longer}
use local_proxy.Router.Tables.{IsFrom, IsFrom-head, IsFrom-suc, Points}

pub native-or_else :
    (model : Text) (connected : Text → Bool) (ps : List Provider) (u : Option Provider)
    → native model connected ps u
      ≡ or_else
          (find (λ p. contains_text p.models model && connected p.name) ps)
          (or_else u (find (λ p. contains_text p.models model) ps))
unfolding native
native-or_else model connected [] none = refl
native-or_else model connected [] (some q) = refl
native-or_else model connected (p ∷ ps) u =
    ground (arith, native-or_else model connected ps u, native-or_else model connected ps (some p))

off_at :
    (connected : Text → Bool) (p f : Provider)
    → p ≡ f
    → connected f.name ≡ false
    → connected p.name ≡ false
off_at connected p f e h = rw e h

module _ (r : Router) (connected : Text → Bool) where
  pub resolve_provider_auto_lem :
      (i : ℕ) (p : Provider)
      → get_elem? r.config.providers i ≡ some p
      → resolve_provider_auto r i ≡ provider_auto p
  unfolding resolve_provider_auto
  resolve_provider_auto_lem i p h = ground arith

  abbrev pub is_ready : Provider → Bool
  is_ready p = has_auto p && connected p.name

  -- With a fallback that is not connected.
  pub auto_loop-some :
      (i j : ℕ) (ps : List Provider) (f : Provider)
      → IsFrom r.config.providers i ps
      → get_elem? r.config.providers j ≡ some f
      → connected f.name ≡ false
      → auto_loop r connected i ps (some j) ≡ answer (or_else (find is_ready ps) (some f))
  unfolding auto_loop
  auto_loop-some i j [] f from at off = resolve_provider_auto_lem j f at
  auto_loop-some i j (p ∷ ps) f from at off =
      let here = IsFrom-head r.config.providers ps i p from in
      let rest = auto_loop-some (suc i) j ps f (IsFrom-suc r.config.providers ps i p from) at off in
      let same : j ≡ i → connected p.name ≡ false = λ e.
        off_at connected p f (some_inj (sym here ∙ ap (get_elem? r.config.providers) (sym e) ∙ at))
          off in
      let found = resolve_provider_auto_lem i p here in
      elim (Bool-cases (j == i)) [
        | inl e ↦ let dark = same ((==_iff j i).0 e) in ground arith
        | inr e ↦ ground arith
      ]

  pub auto_loop-none :
      (i : ℕ) (ps : List Provider)
      → IsFrom r.config.providers i ps
      → auto_loop r connected i ps none ≡ answer (or_else (find is_ready ps) (find has_auto ps))
  unfolding auto_loop
  auto_loop-none i [] from = refl
  auto_loop-none i (p ∷ ps) from =
      let here = IsFrom-head r.config.providers ps i p from in
      let from' = IsFrom-suc r.config.providers ps i p from in
      let found = resolve_provider_auto_lem i p here in
      let rest = auto_loop-none (suc i) ps from' in
      let later : connected p.name ≡ false
          → auto_loop r connected (suc i) ps (some i)
            ≡ answer (or_else (find is_ready ps) (some p)) =
        auto_loop-some (suc i) i ps p from' here in
      ground arith

-- The best so far, as an index and as a route.
abbrev pub AgreesBest : List Route → Option (ℕ × ℕ) → Option Route → Type 0
AgreesBest whole none none = Unit
AgreesBest whole (some (len, i)) (some route) =
    (len ≡ byte_len route.model) × (get_elem? whole i ≡ some route)
AgreesBest whole none (some _) = ⊥
AgreesBest whole (some _) none = ⊥

abbrev pub IsPrefixRoute : Route → Type 0
IsPrefixRoute r = r.prefix ≡ true

pub prefix_routes-All : (rs : List Route) → All IsPrefixRoute (prefix_routes rs)
prefix_routes-All [] = tt
prefix_routes-All (r ∷ rs) = elim (Bool-cases r.prefix) [
  | inl h ↦ ground (arith, prefix_routes-All rs)
  | inr h ↦ ground (arith, prefix_routes-All rs)
]

pub longest_prefix-prefix_routes :
    (model : Text) (rs : List Route) (best : Option Route)
    → longest_prefix model (prefix_routes rs) best ≡ longest_prefix model rs best
unfolding longest_prefix
longest_prefix-prefix_routes model [] best = refl
longest_prefix-prefix_routes model (r ∷ rs) best = ground (
  arith,
  longest_prefix-prefix_routes model rs best,
  longest_prefix-prefix_routes model rs (some r),
)

is_better-is_longer :
    (whole : List Route) (model : Text) (r : Route) (b : Option (ℕ × ℕ)) (best : Option Route)
    → AgreesBest whole b best
    → is_better model r.model b ≡ is_longer model r best
is_better-is_longer whole model r none none h = refl
is_better-is_longer whole model r (some (len, i)) (some q) h = rw (h.0)
is_better-is_longer whole model r none (some q) h = elim h [ ]
is_better-is_longer whole model r (some (len, i)) none h = elim h [ ]

pub best_prefix-longest_prefix :
    (r : Router) (model : Text) (is : List ℕ) (rs : List Route) (b : Option (ℕ × ℕ))
    (best : Option Route)
    → Points r.config.routes is rs
    → All IsPrefixRoute rs
    → AgreesBest r.config.routes b best
    → (b' : Option (ℕ × ℕ)) × (best_prefix r model is b ≡ some b')
      × AgreesBest r.config.routes b' (longest_prefix model rs best)
unfolding best_prefix longest_prefix
best_prefix-longest_prefix r model [] [] b best points all h = (b, refl, h)
best_prefix-longest_prefix r model [] (q ∷ rs) b best points all h = elim points [ ]
best_prefix-longest_prefix r model (i ∷ is) [] b best points all h = elim points [ ]
best_prefix-longest_prefix r model (i ∷ is) (q ∷ rs) b best (at, points) (pre, all) h =
    let test = is_better-is_longer r.config.routes model q b best h in
    elim (Bool-cases (is_longer model q best)) [
      | inl longer ↦
          let (b', run, agrees) =
            best_prefix-longest_prefix r model is rs (some (byte_len q.model, i)) (some q) points
              all (refl, at) in
          let pick : (if q.prefix && is_longer model q best then some q else best) ≡ some q =
            ground arith in
          (b', ground arith, rw pick agrees)
      | inr other ↦
          let (b', run, agrees) = best_prefix-longest_prefix r model is rs b best points all h in
          let pick : (if q.prefix && is_longer model q best then some q else best) ≡ best =
            ground arith in
          (b', ground arith, rw pick agrees)
    ]
