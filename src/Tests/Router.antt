-- ===== src/Tests/Router.antt =====
-- The router at a concrete configuration.
use local_proxy.Base.{
  true, false, Bool, none, some, [], ◌∷◌, ◌++◌, ◌≡◌, ◌≢◌, refl, codes, Text, text_eq, strip_suffix,
  lookup, insert, starts_with, strip_prefix, split_once, byte_len, All,
}
use local_proxy.Config.{Config, Provider, Route, openai, preserve}
use local_proxy.Router.Build.{
  Router, ok, err, provider_not_found, new, index_providers, index_routes,
}
use local_proxy.Router.Laws.{resolve_model-client, resolve-ne-panicked}
use local_proxy.Router.Named.{new-total, resolve-named, resolve-hint}
use local_proxy.Router.Prefix.{resolve-prefix, IsBound, matches}
use local_proxy.Router.Resolve.{
  resolve_model_impl, resolve_stripped, resolve_client_model, resolve_model, resolve_route, forward,
  resolved, panicked, ResolvedRoute, resolve_rest, best_prefix, native, strip_hint,
}
use local_proxy.Router.Spec.{last_named, last_exact, route_target, longest_prefix, first_unknown}

router : Unit {0}
unfolding codes text_eq strip_suffix lookup insert starts_with strip_prefix split_once byte_len new
    index_providers index_routes resolve_model_impl resolve_stripped resolve_client_model
    resolve_model resolve_route resolve_rest best_prefix native last_named last_exact longest_prefix
router = tt

abbrev pub plain : Text → Provider
plain name = record {
  name = name;
  base_url = [];
  format = openai;
  models = (b'm' ∷ []) ∷ [];
  context_windows = [];
  auto_model = none;
  headers = [];
  session_header = none;
  oauth = none;
  prompt_cache = preserve;
}

abbrev pub prefix_route : Text → Text → Route
prefix_route model provider = record {
  model = model;
  provider = provider;
  prefix = true;
  upstream_model = none;
  reasoning_effort = none;
}

abbrev pub sample : Config
sample = record {
  server = record { host = []; port = 8787; api_keys = []; passthrough_keys = false };
  providers = plain (b'p' ∷ []) ∷ plain (b'q' ∷ []) ∷ [];
  routes = prefix_route (b'g' ∷ []) (b'p' ∷ []) ∷ prefix_route (b'g' ∷ b'x' ∷ []) (b'q' ∷ []) ∷ [];
  defaults = record {
    provider = b'p' ∷ [];
    active_model = none;
    active_effort = none;
    active_accounts = [];
  };
  exec = record { enabled = true; token = []; command = []; timeout_secs = 30 };
}

abbrev pub sample_router : Router
sample_router = record {
  config = sample;
  exact = [];
  providers = (b'p' ∷ [], 0) ∷ (b'q' ∷ [], 1) ∷ [];
  prefixes = 0 ∷ 1 ∷ [];
  default_provider = some 0;
}

abbrev nobody : Text → Bool
nobody name = false

sample_built : new sample ≡ ok sample_router
unfolding router
sample_built = refl

resolve-ne-panicked_example : resolve_model_impl sample_router (b'z' ∷ []) nobody false ≢ panicked
resolve-ne-panicked_example =
    resolve-ne-panicked sample sample_router (b'z' ∷ []) nobody false sample_built

abbrev longer : ResolvedRoute
longer = record {
  provider = plain (b'q' ∷ []);
  upstream_model = b'g' ∷ b'x' ∷ b'1' ∷ [];
  reasoning_effort = none;
}

resolve_model-client_example :
    resolve_model sample_router (b'g' ∷ b'x' ∷ b'1' ∷ []) nobody ≡ resolved longer
unfolding router
resolve_model-client_example =
    resolve_model-client sample sample_router (b'g' ∷ b'x' ∷ b'1' ∷ []) nobody longer sample_built
      refl

resolve-prefix_example :
    (q : Route) × (resolve_model_impl sample_router (b'g' ∷ b'x' ∷ b'1' ∷ []) nobody true
      ≡ route_target sample q (strip_hint (b'g' ∷ b'x' ∷ b'1' ∷ [])))
    × (matches (strip_hint (b'g' ∷ b'x' ∷ b'1' ∷ [])) q ≡ true)
    × All (IsBound (strip_hint (b'g' ∷ b'x' ∷ b'1' ∷ [])) q) sample.routes
unfolding router
resolve-prefix_example =
    resolve-prefix sample sample_router (b'g' ∷ b'x' ∷ b'1' ∷ []) nobody true sample_built refl refl
      refl refl

resolve-named_example :
    resolve_model_impl sample_router (b'q' ∷ b'/' ∷ b'z' ∷ []) nobody true
    ≡ forward (b'z' ∷ []) (plain (b'q' ∷ []))
unfolding router
resolve-named_example =
    resolve-named sample sample_router (b'q' ∷ []) (b'z' ∷ []) nobody true (plain (b'q' ∷ []))
      sample_built (refl, tt) refl refl refl refl

no_hint : strip_suffix (codes "[1m]") (b'm' ∷ []) ≡ none
unfolding router
no_hint = refl

resolve-hint_example :
    (resolve_model_impl sample_router ((b'm' ∷ []) ++ codes "[1m]") nobody true
      ≡ resolve_model_impl sample_router (b'm' ∷ []) nobody true)
    × (resolve_client_model sample_router ((b'm' ∷ []) ++ codes "[1m]") nobody
        ≡ resolve_client_model sample_router (b'm' ∷ []) nobody)
    × (resolve_model sample_router ((b'm' ∷ []) ++ codes "[1m]") nobody
        ≡ resolve_model sample_router (b'm' ∷ []) nobody)
resolve-hint_example = resolve-hint sample_router (b'm' ∷ []) nobody true no_hint

new-total_example :
    ((name : Text)
      → first_unknown sample.providers sample.routes ≡ some name
      → new sample ≡ err (provider_not_found name))
    × (first_unknown sample.providers sample.routes ≡ none → (r : Router) × (new sample ≡ ok r))
new-total_example = new-total sample
