-- ===== src/Router/Spec.antt =====
-- What a request resolves to, stated on the configuration alone: no tables and no indices.
use local_proxy.Base.{
  Bool, not, ◌&&◌, Option, none, some, List, [], ◌∷◌, if◌then◌else◌, Text, codes, text_eq, is_some,
  is_empty, ltb, find, byte_len, starts_with, split_once, contains_text,
}
use local_proxy.Config.{Config, Provider, Route}
use local_proxy.Router.Build.{model_not_found, no_auto_model}
use local_proxy.Router.Resolve.{
  Answer, resolved, refused, panicked, unwrap_or, forward, or_forward, qualified_by, provider_auto,
  strip_hint,
}

abbrev pub or_else {ℓ} : {A : Type ℓ} → Option A → Option A → Option A
or_else none b = b
or_else (some a) b = some a

-- The last provider of a name.
unfoldable pub last_named : List Provider → Text → Option Provider
last_named [] name = none
last_named (p ∷ ps) name =
    or_else (last_named ps name) (if text_eq p.name name then some p else none)

-- The last exact route of a model.
unfoldable pub last_exact : List Route → Text → Option Route
last_exact [] model = none
last_exact (r ∷ rs) model =
    or_else (last_exact rs model) (if not r.prefix && text_eq r.model model then some r else none)

abbrev pub is_longer : Text → Route → Option Route → Bool
is_longer model r none = starts_with r.model model
is_longer model r (some best) =
    starts_with r.model model && ltb (byte_len best.model) (byte_len r.model)

-- The prefix route with the longest matching prefix, the first of equals.
unfoldable pub longest_prefix : Text → List Route → Option Route → Option Route
longest_prefix model [] best = best
longest_prefix model (r ∷ rs) best =
    longest_prefix model rs (if r.prefix && is_longer model r best then some r else best)

abbrev pub default_named : Config → Option Provider
default_named c =
    if is_empty c.defaults.provider then none else last_named c.providers c.defaults.provider

abbrev pub has_auto : Provider → Bool
has_auto p = is_some p.auto_model

abbrev pub keep {ℓ} : {A : Type ℓ} → (A → Bool) → Option A → Option A
keep test none = none
keep test (some a) = if test a then some a else none

-- The provider that serves `auto`: the default one if it is connected, a connected one, the default
-- one, any.
abbrev pub auto_choice : Config → (Text → Bool) → Option Provider
auto_choice c connected = or_else (keep (λ p. has_auto p && connected p.name) (default_named c)) (
    or_else (find (λ p. has_auto p && connected p.name) c.providers)
      (or_else (keep has_auto (default_named c)) (find has_auto c.providers)))

-- The provider that lists a model: a connected one, else the first.
abbrev pub native_choice : Config → Text → (Text → Bool) → Option Provider
native_choice c model connected =
    or_else (find (λ p. contains_text p.models model && connected p.name) c.providers)
      (find (λ p. contains_text p.models model) c.providers)

abbrev pub route_target : Config → Route → Text → Answer
route_target c route model = elim (last_named c.providers route.provider) [
  | none ↦ panicked
  | some p ↦ resolved (record {
    provider = p;
    upstream_model = unwrap_or route.upstream_model model;
    reasoning_effort = route.reasoning_effort;
  })
]

abbrev pub answer : Option Provider → Answer
answer none = refused no_auto_model
answer (some p) = provider_auto p

abbrev pub auto_spec : Config → (Text → Bool) → Answer
auto_spec c connected = answer (auto_choice c connected)

abbrev pub default_spec : Config → Text → Bool → Answer
default_spec c model strict =
    if strict then refused (model_not_found model) else elim (default_named c) [
      | none ↦ refused (model_not_found model)
      | some p ↦ forward model p
    ]

abbrev pub after_prefix : Config → Text → (Text → Bool) → Bool → Option Route → Answer
after_prefix c model connected strict (some route) = route_target c route model
after_prefix c model connected strict none =
    or_forward model (native_choice c model connected) (default_spec c model strict)

abbrev pub rest_spec : Config → Text → (Text → Bool) → Bool → Answer
rest_spec c model connected strict =
    after_prefix c model connected strict (longest_prefix model c.routes none)

abbrev pub spec_qualified : Config → Text → (Text → Bool) → Bool → Option (Provider × Text) → Answer
spec_qualified c model connected strict none = rest_spec c model connected strict
spec_qualified c model connected strict (some (p, upstream)) =
    if text_eq upstream (codes "auto") then provider_auto p else forward upstream p

abbrev pub exact_spec : Config → Text → (Text → Bool) → Bool → Option Route → Answer
exact_spec c model connected strict (some route) = route_target c route model
exact_spec c model connected strict none =
    if text_eq model (codes "auto")
    then auto_spec c connected
    else spec_qualified c model connected strict
        (qualified_by (last_named c.providers) (split_once b'/' model))

unfoldable pub stripped_spec : Config → Text → (Text → Bool) → Bool → Answer
stripped_spec c model connected strict =
    exact_spec c model connected strict (last_exact c.routes model)

unfoldable pub resolve_spec : Config → Text → (Text → Bool) → Bool → Answer
resolve_spec c model connected strict = stripped_spec c (strip_hint model) connected strict

-- The prefix routes, in order.
abbrev pub prefix_routes : List Route → List Route
prefix_routes [] = []
prefix_routes (r ∷ rs) = if r.prefix then r ∷ prefix_routes rs else prefix_routes rs

-- The provider that the first route with an unknown one names.
unfoldable pub first_unknown : List Provider → List Route → Option Text
first_unknown ps [] = none
first_unknown ps (r ∷ rs) =
    if is_some (last_named ps r.provider) then first_unknown ps rs else some r.provider
