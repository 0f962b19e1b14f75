-- ===== src/Router/Laws.antt =====
-- The public resolvers of src/domain/router.rs.
use local_proxy.Base.{
  ℕ, Bool, true, false, ◌&&◌, Option, none, some, List, [], ◌∷◌, ◌≡◌, ◌≢◌, refl, sym, ◌∙◌, arith,
  if◌then◌else◌, Text, codes, text_eq, is_some, Bool-cases, Option-cases, inl, inr, some_inj, All,
}
use local_proxy.Config.{Config, Provider, Route}
use local_proxy.Router.Build.{Router, ok, new}
use local_proxy.Router.Refine.{Represents, new-Represents, resolve-new}
use local_proxy.Router.Resolve.{
  ResolvedRoute, resolved, panicked, resolve_model_impl, resolve_model, resolve_client_model,
  strip_hint,
}
use local_proxy.Router.Spec.{
  answer, last_named, last_exact, longest_prefix, is_longer, native_choice, route_target,
  after_prefix, spec_qualified, exact_spec, stripped_spec, resolve_spec,
}
use local_proxy.Router.Tables.{Agrees, IsKnown}

-- A strict answer is the answer of the search that may fall back.
module _ (c : Config) (model : Text) (connected : Text → Bool) (x : ResolvedRoute) where
  after_prefix-strict :
      (best : Option Route)
      → after_prefix c model connected true best ≡ resolved x
      → after_prefix c model connected false best ≡ resolved x
  after_prefix-strict (some route) h = h
  after_prefix-strict none h = elim (Option-cases (native_choice c model connected)) [
    | inl e ↦ ground arith
    | inr (p, e) ↦ ground arith
  ]

  spec_qualified-strict :
      (parts : Option (Provider × Text))
      → spec_qualified c model connected true parts ≡ resolved x
      → spec_qualified c model connected false parts ≡ resolved x
  spec_qualified-strict (some (p, upstream)) h = h
  spec_qualified-strict none h = after_prefix-strict (longest_prefix model c.routes none) h

  exact_spec-strict :
      (o : Option Route)
      → exact_spec c model connected true o ≡ resolved x
      → exact_spec c model connected false o ≡ resolved x
  exact_spec-strict (some route) h = h
  exact_spec-strict none h = elim (Bool-cases (text_eq model (codes "auto"))) [
    | inl e ↦ ground arith
    | inr e ↦ rw e (spec_qualified-strict _ (rw e at h))
  ]

-- A client's model that resolves strictly resolves to the same route when the default provider is
-- allowed as a fallback.
pub resolve_model-client :
    (c : Config) (r : Router) (model : Text) (connected : Text → Bool) (x : ResolvedRoute)
    → new c ≡ ok r
    → resolve_client_model r model connected ≡ resolved x
    → resolve_model r model connected ≡ resolved x
unfolding resolve_client_model resolve_model resolve_spec stripped_spec
resolve_model-client c r model connected x built h =
    let m = strip_hint model in
    resolve-new c r model connected false built
    ∙ exact_spec-strict c m connected x (last_exact c.routes m)
        (sym (resolve-new c r model connected true built) ∙ h)

-- The route of a search is one of the routes.
module _ (P : Route → Type 0) where
  All-last_exact :
      (rs : List Route) (model : Text) (q : Route) → last_exact rs model ≡ some q → All P rs → P q
  unfolding last_exact
  All-last_exact [] model q h all = cc
  All-last_exact (r ∷ rs) model q h (p, all) = elim (Option-cases (last_exact rs model)) [
    | inl e ↦ let same : r ≡ q = ground arith in rw (← same) p
    | inr (y, e) ↦ All-last_exact rs model q (ground arith) all
  ]

  started :
      (test : Bool) (r : Route) (best : Option Route)
      → P r
      → ((b : Route) → best ≡ some b → P b)
      → (b : Route) → (if test then some r else best) ≡ some b
      → P b
  started true r best p start b e = rw (← some_inj e) p
  started false r best p start b e = start b e

  All-longest_prefix :
      (rs : List Route) (model : Text) (best : Option Route) (q : Route)
      → longest_prefix model rs best ≡ some q
      → All P rs
      → ((b : Route) → best ≡ some b → P b)
      → P q
  unfolding longest_prefix
  All-longest_prefix [] model best q h all start = start q h
  All-longest_prefix (r ∷ rs) model best q h (p, all) start =
      All-longest_prefix rs model (if r.prefix && is_longer model r best then some r else best) q h
        all (started (r.prefix && is_longer model r best) r best p start)

-- The provider of a route is configured.
abbrev HasProvider : Config → Route → Type 0
HasProvider c q = is_some (last_named c.providers q.provider) ≡ true

module _ (c : Config) (connected : Text → Bool) (strict : Bool)
    (known : All (HasProvider c) c.routes) where
  route_target-runs :
      (q : Route) (model : Text) → HasProvider c q → route_target c q model ≢ panicked
  route_target-runs q model h = ground arith

  answer-runs : (o : Option Provider) → answer o ≢ panicked
  answer-runs none = ground arith
  answer-runs (some p) = ground arith

  after_prefix-runs :
      (model : Text) (best : Option Route)
      → longest_prefix model c.routes none ≡ best
      → after_prefix c model connected strict best ≢ panicked
  after_prefix-runs model (some q) h = route_target-runs q model (
      All-longest_prefix (HasProvider c) c.routes model none q h known
        (λ b e. absurd (let x : ⊥ = cc in x)))
  after_prefix-runs model none h = ground arith

  spec_qualified-runs :
      (model : Text) (parts : Option (Provider × Text))
      → spec_qualified c model connected strict parts ≢ panicked
  spec_qualified-runs model none = after_prefix-runs model (longest_prefix model c.routes none) refl
  spec_qualified-runs model (some (p, upstream)) = ground arith

  exact_spec-runs :
      (model : Text) (o : Option Route)
      → last_exact c.routes model ≡ o
      → exact_spec c model connected strict o ≢ panicked
  exact_spec-runs model (some q) h =
      route_target-runs q model (All-last_exact (HasProvider c) c.routes model q h known)
  exact_spec-runs model none h = elim (Bool-cases (text_eq model (codes "auto"))) [
    | inl e ↦ rw e (answer-runs _)
    | inr e ↦ rw e (spec_qualified-runs model _)
  ]

is_some-Agrees :
    (ps : List Provider) (o : Option ℕ) (a : Option Provider)
    → Agrees ps o a
    → is_some o ≡ true
    → is_some a ≡ true
is_some-Agrees ps (some i) (some p) h k = refl
is_some-Agrees ps none a h k = cc
is_some-Agrees ps (some i) none h k = elim h [ ]

known_routes :
    (r : Router)
    → Represents r
    → (rs : List Route) → All (IsKnown r.providers) rs
    → All (HasProvider r.config) rs
known_routes r rep [] all = tt
known_routes r rep (q ∷ rs) (k, all) =
    (is_some-Agrees r.config.providers _ _ (rep.named q.provider) k, known_routes r rep rs all)

-- A router that was built never indexes out of range or looks up a missing provider, whatever model
-- is asked for, whoever is connected, strict or not.
pub resolve-ne-panicked :
    (c : Config) (r : Router) (model : Text) (connected : Text → Bool) (strict : Bool)
    → new c ≡ ok r
    → resolve_model_impl r model connected strict ≢ panicked
unfolding resolve_spec stripped_spec
resolve-ne-panicked c r model connected strict built h =
    let (same, rep) = new-Represents c r built in
    let m = strip_hint model in
    let known : All (HasProvider c) c.routes =
      rw same at (known_routes r rep r.config.routes rep.known) in
    exact_spec-runs c connected strict known m (last_exact c.routes m) refl
      (sym (resolve-new c r model connected strict built) ∙ h)
