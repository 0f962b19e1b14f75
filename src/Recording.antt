-- ===== src/Recording.antt =====
-- src/application/usage.rs: what is remembered of each session's requests, and the rows that are
-- recorded. A row's time is the store's; the recorder's lock is taken to be sound.
use local_proxy.Base.{
  ℕ, Bool, not, ◌&&◌, Option, none, some, List, [], ◌∷◌, ◌++◌, if◌then◌else◌, Text, text_eq,
  is_empty, codes, is_some, leb, ltb, length, Dict, lookup, insert,
}
use local_proxy.Cache.{CacheDiagnostic}
use local_proxy.Cache.Outcome.{
  CacheObservation, changes_from, request_diagnostics, outcome_diagnostics,
}
use local_proxy.Config.{ProviderFormat}
use local_proxy.Json.{Value, get, and_then, or_none}
use local_proxy.Usage.{Floats, TokenUsage, no_usage, parse_usage}
use local_proxy.Usage.Energy.{EnergyCost, as_cost, energy_from_value, cost_from_value}
pub mod Sessions

abbrev pub session_limit : ℕ
session_limit = 1024

abbrev pub changes_since : CacheObservation → Option CacheObservation → List CacheDiagnostic
changes_since now none = []
changes_since now (some previous) = changes_from now previous

-- A full map is cleared for a session that is not in it.
unfoldable pub remember : Text → CacheObservation → Dict CacheObservation → Dict CacheObservation
remember session observation m =
    insert session observation
      (if leb session_limit (length m) && not (is_some (lookup session m)) then [] else m)

unfoldable pub observe_cache :
    (session : Text)
    → ProviderFormat
    → CacheObservation
    → (body : Value) → Dict CacheObservation
    → Dict CacheObservation × List CacheDiagnostic
observe_cache session format observation body m =
    let diagnostics = request_diagnostics format body in
    if is_empty session then (m, diagnostics) else (
      remember session observation m,
      diagnostics ++ changes_since observation (lookup session m),
    )

-- `StatLine` of src/domain/stats.rs.
pub record StatLine : Type 0 where
  pub endpoint : Text
  pub provider : Text
  pub alias : Text
  pub model : Text
  pub input_tokens : ℕ
  pub output_tokens : ℕ
  pub streamed : Bool
  pub status : ℕ
  pub error : Bool
  pub energy : Option EnergyCost
  pub cost : Option EnergyCost
  pub session_id : Text
  pub cache_hit : Option Bool
  pub cache_read_tokens : Option ℕ
  pub cache_write_tokens : ℕ
  pub cache_diagnostics : List CacheDiagnostic

pub record RequestMeta : Type 0 where
  pub endpoint : Text
  pub provider : Text
  pub alias : Text
  pub model : Text
  pub streamed : Bool
  pub started : ℕ
  pub session_id : Text
  pub cache_diagnostics : List CacheDiagnostic

-- `cache_hit` of `TokenUsage`.
unfoldable pub cache_hit : TokenUsage → Option Bool
cache_hit u = elim u.cache_read [ none ↦ none | some n ↦ some (ltb 0 n) ]

unfoldable pub line :
    RequestMeta → (status : ℕ) → TokenUsage → (energy cost : Option EnergyCost) → StatLine
line request status usage energy cost = record {
  endpoint = request.endpoint;
  provider = request.provider;
  alias = request.alias;
  model = request.model;
  input_tokens = usage.input;
  output_tokens = usage.output;
  streamed = request.streamed;
  status = status;
  error = leb 400 status;
  energy = energy;
  cost = cost;
  session_id = request.session_id;
  cache_hit = cache_hit usage;
  cache_read_tokens = usage.cache_read;
  cache_write_tokens = usage.cache_write;
  cache_diagnostics = outcome_diagnostics request.cache_diagnostics status usage;
}

module _ (fl : Floats) where
  -- The row of a response that is not streamed.
  unfoldable pub record_parsed : RequestMeta → (status : ℕ) → Option Value → TokenUsage → StatLine
  record_parsed request status none tokens = line request status tokens none (as_cost tokens)
  record_parsed request status (some body) tokens =
      line request status tokens (energy_from_value fl body)
        (or_none (cost_from_value fl body) (as_cost tokens))

  abbrev tokens_of : Option Value → TokenUsage
  tokens_of none = no_usage
  tokens_of (some u) = parse_usage fl u

  unfoldable pub record_response : RequestMeta → (status : ℕ) → Option Value → StatLine
  record_response request status body =
      record_parsed request status body (tokens_of (and_then body (get (codes "usage"))))

-- The row of a stream, at its end.
unfoldable pub record_stream :
    RequestMeta → (status : ℕ) → TokenUsage → (energy cost : Option EnergyCost) → StatLine
record_stream request status usage energy cost =
    line request status usage energy (or_none cost (as_cost usage))
