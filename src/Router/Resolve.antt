-- ===== src/Router/Resolve.antt =====
-- `resolve_model`, `resolve_client_model`, `resolve_auto` and `list_models` of src/domain/router.rs.
-- An index or a key that the code would panic on gives `panicked`.
use local_proxy.Base.{
  ℕ, suc, Bool, true, false, not, ◌&&◌, ◌||◌, Option, none, some, List, [], ◌∷◌, ◌++◌, ◌==◌,
  if◌then◌else◌, Text, codes, text_eq, lookup, is_some, ltb, get_elem?, byte_len, strip_suffix,
  starts_with, split_once, contains_text,
}
use local_proxy.Config.{Provider, Route, qualified_id}
use local_proxy.Router.Build.{
  Router, RouterError, model_not_found, auto_model_not_configured, no_auto_model,
}

pub record ResolvedRoute : Type 0 where
  pub provider : Provider
  pub upstream_model : Text
  pub reasoning_effort : Option Text

pub data Answer : Type 0 where
  resolved : ResolvedRoute → Answer
  refused : RouterError → Answer
  panicked : Answer

abbrev pub unwrap_or {ℓ} : {A : Type ℓ} → Option A → A → A
unwrap_or none d = d
unwrap_or (some a) d = a

-- `self.config.providers[i]`, passed on.
abbrev pub at_provider : Router → ℕ → (Provider → Answer) → Answer
at_provider r i k = elim (get_elem? r.config.providers i) [ none ↦ panicked | some p ↦ k p ]

abbrev pub forward : Text → Provider → Answer
forward upstream p =
    resolved (record { provider = p; upstream_model = upstream; reasoning_effort = none })

unfoldable pub resolve_route : Router → ℕ → Text → Answer
resolve_route r i model = elim (get_elem? r.config.routes i) [
  | none ↦ panicked
  | some route ↦ elim (lookup route.provider r.providers) [
    | none ↦ panicked
    | some j ↦ at_provider r j (λ p. resolved (record {
      provider = p;
      upstream_model = unwrap_or route.upstream_model model;
      reasoning_effort = route.reasoning_effort;
    }))
  ]
]

abbrev pub provider_auto : Provider → Answer
provider_auto p = elim p.auto_model [
  | none ↦ refused (auto_model_not_configured p.name)
  | some auto ↦ forward auto p
]

unfoldable pub resolve_provider_auto : Router → ℕ → Answer
resolve_provider_auto r i = at_provider r i provider_auto

abbrev pub is_index : Option ℕ → ℕ → Bool
is_index none i = false
is_index (some j) i = j == i

abbrev pub or_index : Option ℕ → ℕ → Option ℕ
or_index none i = some i
or_index (some j) i = some j

-- The loop of `resolve_auto` over the providers from `i` on.
unfoldable pub auto_loop : Router → (Text → Bool) → ℕ → List Provider → Option ℕ → Answer
auto_loop r connected i [] none = refused no_auto_model
auto_loop r connected i [] (some j) = resolve_provider_auto r j
auto_loop r connected i (p ∷ ps) fallback =
    let skip = not (is_some p.auto_model) || is_index fallback i in
    let found = not skip && connected p.name in
    let rest = auto_loop r connected (suc i) ps (if skip then fallback else or_index fallback i) in
    if found then resolve_provider_auto r i else rest

-- The start of `resolve_auto`, from the default provider.
abbrev pub auto_start : Router → (Text → Bool) → Option ℕ → Answer
auto_start r connected none = auto_loop r connected 0 r.config.providers none
auto_start r connected (some i) = at_provider r i (λ p.
    if is_some p.auto_model
    then if connected p.name
      then resolve_provider_auto r i
      else auto_loop r connected 0 r.config.providers (some i)
    else auto_loop r connected 0 r.config.providers none)

unfoldable pub resolve_auto : Router → (Text → Bool) → Answer
resolve_auto r connected = auto_start r connected r.default_provider

-- The test of the prefix loop: the route's model is a prefix, longer than the best so far.
abbrev pub is_better : Text → Text → Option (ℕ × ℕ) → Bool
is_better model candidate none = starts_with candidate model
is_better model candidate (some (len, _)) =
    starts_with candidate model && ltb len (byte_len candidate)

-- The loop over `self.prefixes`: the longest prefix, the first of equals. `none` is a panic.
unfoldable pub best_prefix : Router → Text → List ℕ → Option (ℕ × ℕ) → Option (Option (ℕ × ℕ))
best_prefix r model [] best = some best
best_prefix r model (i ∷ is) best = elim (get_elem? r.config.routes i) [
  | none ↦ none
  | some route ↦
      best_prefix r model is
        (if is_better model route.model best then some (byte_len route.model, i) else best)
]

-- The loop over the native model lists: a connected provider, else the first that has the model.
unfoldable pub native : Text → (Text → Bool) → List Provider → Option Provider → Option Provider
native model connected [] unconnected = unconnected
native model connected (p ∷ ps) unconnected =
    let has = contains_text p.models model in
    let first =
      if has then (elim unconnected [ none ↦ some p | some q ↦ some q ]) else unconnected in
    let rest = native model connected ps first in if has && connected p.name then some p else rest

abbrev pub by_default : Router → Text → Bool → Answer
by_default r model true = refused (model_not_found model)
by_default r model false = elim r.default_provider [
  | none ↦ refused (model_not_found model)
  | some i ↦ at_provider r i (forward model)
]

-- The provider that the native lists gave, or the fallback.
abbrev pub or_forward : Text → Option Provider → Answer → Answer
or_forward model none fallback = fallback
or_forward model (some p) fallback = forward model p

-- After the exact routes, `auto` and `provider/model`.
unfoldable pub resolve_rest : Router → Text → (Text → Bool) → Bool → Answer
resolve_rest r model connected strict = elim (best_prefix r model r.prefixes none) [
  | none ↦ panicked
  | some (some (_, i)) ↦ resolve_route r i model
  | some none ↦
      or_forward model (native model connected r.config.providers none) (by_default r model strict)
]

abbrev pub pair_with {ℓ} : {A : Type ℓ} → Text → Option A → Option (A × Text)
pair_with upstream none = none
pair_with upstream (some a) = some (a, upstream)

-- `provider/upstream`, where the provider is known.
abbrev pub qualified_by :
    {A : Type 0} → (Text → Option A) → Option (Text × Text) → Option (A × Text)
qualified_by find none = none
qualified_by find (some (name, upstream)) = pair_with upstream (find name)

abbrev pub to_qualified : Router → Text → (Text → Bool) → Bool → Option (ℕ × Text) → Answer
to_qualified r model connected strict none = resolve_rest r model connected strict
to_qualified r model connected strict (some (i, upstream)) =
    if text_eq upstream (codes "auto")
    then resolve_provider_auto r i
    else at_provider r i (forward upstream)

abbrev pub strip_hint : Text → Text
strip_hint model = unwrap_or (strip_suffix (codes "[1m]") model) model

abbrev pub after_exact : Router → Text → (Text → Bool) → Bool → Option ℕ → Answer
after_exact r model connected strict (some i) = resolve_route r i model
after_exact r model connected strict none =
    if text_eq model (codes "auto")
    then resolve_auto r connected
    else to_qualified r model connected strict
        (qualified_by (λ name. lookup name r.providers) (split_once b'/' model))

unfoldable pub resolve_stripped : Router → Text → (Text → Bool) → Bool → Answer
resolve_stripped r model connected strict =
    after_exact r model connected strict (lookup model r.exact)

unfoldable pub resolve_model_impl : Router → Text → (Text → Bool) → Bool → Answer
resolve_model_impl r model connected strict = resolve_stripped r (strip_hint model) connected strict

unfoldable pub resolve_model : Router → Text → (Text → Bool) → Answer
resolve_model r model connected = resolve_model_impl r model connected false

unfoldable pub resolve_client_model : Router → Text → (Text → Bool) → Answer
resolve_client_model r model connected = resolve_model_impl r model connected true

-- `if !models.contains(..) { models.push(..) }`.
abbrev pub push_new : List Text → Text → List Text
push_new models id = if contains_text models id then models else models ++ id ∷ []

unfoldable pub list_routes : List Text → List Route → List Text
list_routes models [] = models
list_routes models (r ∷ rs) = list_routes (if r.prefix then models else push_new models r.model) rs

unfoldable pub list_native : Text → List Text → List Text → List Text
list_native name models [] = models
list_native name models (m ∷ ms) = list_native name (push_new models (qualified_id name m)) ms

abbrev pub list_auto : Provider → List Text → List Text
list_auto p models =
    if is_some p.auto_model then push_new models (qualified_id p.name (codes "auto")) else models

unfoldable pub list_providers : List Text → List Provider → List Text
list_providers models [] = models
list_providers models (p ∷ ps) =
    list_providers (list_auto p (list_native p.name models p.models)) ps

unfoldable pub list_models : Router → List Text
list_models r = list_providers (list_routes [] r.config.routes) r.config.providers
