-- ===== src/Router/Refine.antt =====
-- `resolve_model_impl` of src/domain/router.rs over its tables, beside the specification of
-- Router.Spec.
use local_proxy.Base.{
  ℕ, Bool, true, false, ◌&&◌, Option, none, some, List, [], ◌≡◌, refl, ap, ◌∙◌, arith, Text, codes,
  text_eq, lookup, get_elem?, find, is_empty, Dict, Bool-cases, inl, inr, All, split_once,
}
use local_proxy.Config.{Config, Provider, Route}
use local_proxy.Router.Auto.{
  native-or_else, auto_loop-some, auto_loop-none, best_prefix-longest_prefix, prefix_routes-All,
  longest_prefix-prefix_routes, AgreesBest, resolve_provider_auto_lem,
}
use local_proxy.Router.Build.{
  Router, ok, new, assemble, Indexed, index_providers, index_routes, tables, unknown, default_index,
  model_not_found,
}
use local_proxy.Router.Resolve.{
  Answer, refused, panicked, resolved, forward, resolve_auto, auto_start, unwrap_or, native,
  best_prefix, or_forward, to_qualified, pair_with, qualified_by, after_exact, strip_hint,
  resolve_route, resolve_rest, resolve_stripped, resolve_model_impl, by_default,
}
use local_proxy.Router.Spec.{
  or_else, keep, answer, native_choice, last_named, last_exact, longest_prefix, prefix_routes,
  default_named, has_auto, route_target, auto_spec, default_spec, rest_spec, after_prefix,
  spec_qualified, exact_spec, stripped_spec, resolve_spec,
}
use local_proxy.Router.Tables.{
  Agrees, IsFrom-zero, index_providers-Agrees, Points, IsKnown, index_routes-Filled,
}

ok_inj : {a b : Router} → ok a ≡ ok b → a ≡ b
ok_inj h = cc

-- The tables of `r` stand for its configuration.
pub record Represents (r : Router) : Type 0 where
  pub named :
      (k : Text)
      → Agrees r.config.providers (lookup k r.providers) (last_named r.config.providers k)
  pub exact : (k : Text) → Agrees r.config.routes (lookup k r.exact) (last_exact r.config.routes k)
  pub prefixes : Points r.config.routes r.prefixes (prefix_routes r.config.routes)
  pub default : Agrees r.config.providers r.default_provider (default_named r.config)
  pub known : All (IsKnown r.providers) r.config.routes

or_else-none {ℓ} : {A : Type ℓ} (a : Option A) → or_else a none ≡ a
or_else-none none = refl
or_else-none (some a) = refl

pub named_of :
    (c : Config) (k : Text)
    → Agrees c.providers (lookup k (index_providers 0 c.providers [])) (last_named c.providers k)
unfolding lookup
named_of c k =
    rw or_else-none at
      (index_providers-Agrees c.providers c.providers 0 [] k none (IsFrom-zero c.providers) tt)

default_of :
    (c : Config)
    → Agrees c.providers
        (default_index c.defaults.provider (index_providers 0 c.providers []))
        (default_named c)
default_of c = elim (Bool-cases (is_empty c.defaults.provider)) [
  | inl e ↦ rw e tt
  | inr e ↦ rw e (named_of c c.defaults.provider)
]

assembled :
    (c : Config) (known : Dict ℕ) (x : Indexed) (r : Router)
    → assemble c known x ≡ ok r
    → (exact : Dict ℕ) × (prefixes : List ℕ) × (x ≡ tables exact prefixes)
      × (record {
        config = c;
        exact = exact;
        providers = known;
        prefixes = prefixes;
        default_provider = default_index c.defaults.provider known;
      }
          ≡ r)
assembled c known (unknown name) r h = cc
assembled c known (tables exact prefixes) r h = (exact, prefixes, refl, ok_inj h)

built :
    (c : Config) (exact : Dict ℕ) (prefixes : List ℕ)
    → index_routes (index_providers 0 c.providers []) 0 c.routes [] [] ≡ tables exact prefixes
    → Represents (record {
      config = c;
      exact = exact;
      providers = index_providers 0 c.providers [];
      prefixes = prefixes;
      default_provider = default_index c.defaults.provider (index_providers 0 c.providers []);
    })
unfolding lookup
built c exact prefixes h =
    let (known, points, agrees) =
      index_routes-Filled (index_providers 0 c.providers []) c.routes [] c.routes 0 [] exact []
        prefixes (IsFrom-zero c.routes) tt h in
    record {
      named = named_of c;
      exact = λ k. rw or_else-none at (agrees k none tt);
      prefixes = points;
      default = default_of c;
      known = known;
    }

pub new-Represents : (c : Config) (r : Router) → new c ≡ ok r → (r.config ≡ c) × Represents r
unfolding new
new-Represents c r h =
    let known = index_providers 0 c.providers [] in
    let (exact, prefixes, filled, same) =
      assembled c known (index_routes known 0 c.routes [] []) r h in
    rw (← same) (refl, built c exact prefixes filled)

-- A continuation is reached through an index as through the element.
through :
    {A : Type 0} (xs : List A) (o : Option ℕ) (a : Option A) (k : A → Answer) (d : Answer)
    → Agrees xs o a
    → elim o [ none ↦ d | some i ↦ elim (get_elem? xs i) [ none ↦ panicked | some x ↦ k x ] ]
      ≡ elim a [ none ↦ d | some x ↦ k x ]
through xs none none k d h = refl
through xs (some i) (some x) k d h = ground arith
through xs none (some x) k d h = elim h [ ]
through xs (some i) none k d h = elim h [ ]

module _ (r : Router) (rep : Represents r) where
  resolve_route-target :
      (i : ℕ) (route : Route) (model : Text)
      → get_elem? r.config.routes i ≡ some route
      → resolve_route r i model ≡ route_target r.config route model
  unfolding resolve_route
  resolve_route-target i route model h =
      rw (h, resolve_route)
        (through r.config.providers (lookup route.provider r.providers)
          (last_named r.config.providers route.provider)
          (λ p. resolved (record {
            provider = p;
            upstream_model = unwrap_or route.upstream_model model;
            reasoning_effort = route.reasoning_effort;
          }))
          panicked (rep.named route.provider))

  auto_start-answer :
      (connected : Text → Bool) (o : Option ℕ) (a : Option Provider)
      → Agrees r.config.providers o a
      → auto_start r connected o
        ≡ answer (
            or_else (keep (λ p. has_auto p && connected p.name) a) (
              or_else
                (find (λ p. has_auto p && connected p.name) r.config.providers)
                (or_else (keep has_auto a) (find has_auto r.config.providers))))
  auto_start-answer connected none none h =
      auto_loop-none r connected 0 r.config.providers (IsFrom-zero r.config.providers)
  auto_start-answer connected none (some p) h = elim h [ ]
  auto_start-answer connected (some i) none h = elim h [ ]
  auto_start-answer connected (some i) (some p) h =
      let from = IsFrom-zero r.config.providers in
      let found = resolve_provider_auto_lem r connected i p h in
      let plain = auto_loop-none r connected 0 r.config.providers from in
      elim (Bool-cases (connected p.name)) [
        | inl on ↦ ground arith
        | inr off ↦
            let kept = auto_loop-some r connected 0 i r.config.providers p from h off in
            ground arith
      ]

  resolve_auto-spec :
      (connected : Text → Bool) → resolve_auto r connected ≡ auto_spec r.config connected
  unfolding resolve_auto
  resolve_auto-spec connected =
      auto_start-answer connected r.default_provider (default_named r.config) rep.default

  by_default-spec :
      (model : Text) (strict : Bool)
      → by_default r model strict ≡ default_spec r.config model strict
  by_default-spec model true = refl
  by_default-spec model false =
      through r.config.providers r.default_provider (default_named r.config) (forward model)
        (refused (model_not_found model)) rep.default

  native-native_choice :
      (model : Text) (connected : Text → Bool)
      → native model connected r.config.providers none ≡ native_choice r.config model connected
  native-native_choice model connected = native-or_else model connected r.config.providers none

  -- The end of the prefix search, by the route that it found.
  rest_from :
      (model : Text) (connected : Text → Bool) (strict : Bool) (b : Option (ℕ × ℕ))
      (best : Option Route)
      → best_prefix r model r.prefixes none ≡ some b
      → AgreesBest r.config.routes b best
      → resolve_rest r model connected strict ≡ after_prefix r.config model connected strict best
  unfolding resolve_rest
  rest_from model connected strict none none run h =
      rw (run, resolve_rest)
        (ap (λ p. or_forward model p (by_default r model strict))
            (native-native_choice model connected)
          ∙ ap (or_forward model (native_choice r.config model connected))
              (by_default-spec model strict))
  rest_from model connected strict (some (len, i)) (some route) run (_, at) =
      rw (run, resolve_rest) (resolve_route-target i route model at)
  rest_from model connected strict none (some route) run h = elim h [ ]
  rest_from model connected strict (some (len, i)) none run h = elim h [ ]

  resolve_rest-spec :
      (model : Text) (connected : Text → Bool) (strict : Bool)
      → resolve_rest r model connected strict ≡ rest_spec r.config model connected strict
  resolve_rest-spec model connected strict =
      let (b, run, agrees) =
        best_prefix-longest_prefix r model r.prefixes (prefix_routes r.config.routes) none none
          rep.prefixes (prefix_routes-All r.config.routes) tt in
      rw (← longest_prefix-prefix_routes model r.config.routes none) (
        rest_from model connected strict b
          (longest_prefix model (prefix_routes r.config.routes) none) run agrees)

  qualified_from :
      (model : Text) (connected : Text → Bool) (strict : Bool) (upstream : Text) (o : Option ℕ)
      (a : Option Provider)
      → Agrees r.config.providers o a
      → to_qualified r model connected strict (pair_with upstream o)
        ≡ spec_qualified r.config model connected strict (pair_with upstream a)
  qualified_from model connected strict upstream none none h =
      resolve_rest-spec model connected strict
  qualified_from model connected strict upstream (some i) (some p) h =
      elim (Bool-cases (text_eq upstream (codes "auto"))) [
        | inl e ↦ rw e (resolve_provider_auto_lem r connected i p h)
        | inr e ↦ rw e (ground arith)
      ]
  qualified_from model connected strict upstream none (some p) h = elim h [ ]
  qualified_from model connected strict upstream (some i) none h = elim h [ ]

  split_from :
      (model : Text) (connected : Text → Bool) (strict : Bool) (parts : Option (Text × Text))
      → to_qualified r model connected strict (qualified_by (λ name. lookup name r.providers) parts)
        ≡ spec_qualified r.config model connected strict
            (qualified_by (last_named r.config.providers) parts)
  split_from model connected strict none = resolve_rest-spec model connected strict
  split_from model connected strict (some (name, upstream)) =
      qualified_from model connected strict upstream (lookup name r.providers)
        (last_named r.config.providers name) (rep.named name)

  exact_from :
      (model : Text) (connected : Text → Bool) (strict : Bool) (o : Option ℕ) (a : Option Route)
      → Agrees r.config.routes o a
      → after_exact r model connected strict o ≡ exact_spec r.config model connected strict a
  exact_from model connected strict none none h = elim (Bool-cases (text_eq model (codes "auto"))) [
    | inl e ↦ rw e (resolve_auto-spec connected)
    | inr e ↦ rw e (split_from model connected strict (split_once b'/' model))
  ]
  exact_from model connected strict (some i) (some route) h = resolve_route-target i route model h
  exact_from model connected strict none (some route) h = elim h [ ]
  exact_from model connected strict (some i) none h = elim h [ ]

  pub resolve_model_impl-spec :
      (model : Text) (connected : Text → Bool) (strict : Bool)
      → resolve_model_impl r model connected strict ≡ resolve_spec r.config model connected strict
  unfolding resolve_model_impl resolve_stripped resolve_spec stripped_spec
  resolve_model_impl-spec model connected strict =
      let m = strip_hint model in
      exact_from m connected strict (lookup m r.exact) (last_exact r.config.routes m) (rep.exact m)

pub resolve-new :
    (c : Config) (r : Router) (model : Text) (connected : Text → Bool) (strict : Bool)
    → new c ≡ ok r
    → resolve_model_impl r model connected strict ≡ resolve_spec c model connected strict
resolve-new c r model connected strict h =
    let (same, rep) = new-Represents c r h in
    resolve_model_impl-spec r rep model connected strict
    ∙ ap (λ d. resolve_spec d model connected strict) same
