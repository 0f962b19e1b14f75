-- ===== src/Cache/Outcome.antt =====
-- What src/domain/cache.rs reports: changes between two observations of a session, and the
-- diagnostics of a request and of its outcome.
use local_proxy.Base.{
  ℕ, Bool, true, false, ◌||◌, ◌&&◌, not, Option, none, some, List, [], ◌∷◌, ◌++◌, ◌≡◌, refl, ◌↔◌,
  ◌==◌, arith, if◌then◌else◌, Text, text_eq, text_eq_iff, text_eq_refl, is_empty, codes, ltb, leb,
}
use local_proxy.Cache.{CacheDiagnostic, has_cache_control}
use local_proxy.Config.{ProviderFormat}
use local_proxy.Json.{Value, get, as_str, and_then}
use local_proxy.Usage.{TokenUsage}

-- A digest is a text here.
pub record CacheObservation : Type 0 where
  pub provider : Text
  pub model : Text
  pub account : Text
  pub prefix_digest : Text
  pub key_digest : Option Text

abbrev pub option_text_eq : Option Text → Option Text → Bool
option_text_eq none none = true
option_text_eq (some a) (some b) = text_eq a b
option_text_eq none (some b) = false
option_text_eq (some a) none = false

abbrev push_if : Bool → CacheDiagnostic → List CacheDiagnostic
push_if b d = if b then d ∷ [] else []

unfoldable pub changes_from : CacheObservation → CacheObservation → List CacheDiagnostic
changes_from now previous =
    push_if (not (text_eq now.provider previous.provider) || not (text_eq now.model previous.model))
      CacheDiagnostic.model_changed
    ++ (push_if (not (text_eq now.account previous.account)) CacheDiagnostic.account_changed
        ++ (push_if (not (text_eq now.prefix_digest previous.prefix_digest))
              CacheDiagnostic.stable_prefix_changed
            ++ push_if (not (option_text_eq now.key_digest previous.key_digest))
                CacheDiagnostic.cache_key_changed))

abbrev none_or_empty : Option Text → Bool
none_or_empty none = true
none_or_empty (some s) = is_empty s

unfoldable pub request_diagnostics : ProviderFormat → Value → List CacheDiagnostic
request_diagnostics ProviderFormat.anthropic body =
    push_if (not (has_cache_control body)) CacheDiagnostic.missing_cache_control
request_diagnostics ProviderFormat.openai_responses body =
    push_if (none_or_empty (and_then (get (codes "prompt_cache_key") body) as_str))
      CacheDiagnostic.missing_session_key
request_diagnostics ProviderFormat.openai body = []

abbrev read_outcome : Option ℕ → ℕ → List CacheDiagnostic
read_outcome none written = CacheDiagnostic.telemetry_unavailable ∷ []
read_outcome (some read) written =
    push_if (read == 0 && written == 0) CacheDiagnostic.cache_miss_unknown

unfoldable pub outcome_diagnostics :
    List CacheDiagnostic → (status : ℕ) → TokenUsage → List CacheDiagnostic
outcome_diagnostics observed status usage =
    observed
    ++ (if leb 200 status && ltb status 300
        then read_outcome usage.cache_read usage.cache_write
          ++ push_if (ltb 0 usage.cache_write) CacheDiagnostic.cache_warming
        else CacheDiagnostic.upstream_error ∷ [])

option_text_eq_iff : (a b : Option Text) → (option_text_eq a b ≡ true) ↔ (a ≡ b)
option_text_eq_iff none none = ground arith
option_text_eq_iff none (some b) = ground arith
option_text_eq_iff (some a) none = ground arith
option_text_eq_iff (some a) (some b) = ground (arith, text_eq_iff a b)

same :
    (a b : CacheObservation)
    → a.provider ≡ b.provider
    → a.model ≡ b.model
    → a.account ≡ b.account
    → a.prefix_digest ≡ b.prefix_digest
    → a.key_digest ≡ b.key_digest
    → a ≡ b
same a b p m c x k = cc

unchanged : (a : CacheObservation) → changes_from a a ≡ []
unfolding changes_from
unchanged a = ground (
  arith,
  text_eq_refl a.provider,
  text_eq_refl a.model,
  text_eq_refl a.account,
  text_eq_refl a.prefix_digest,
  (option_text_eq_iff a.key_digest a.key_digest).1 refl,
)

-- A session reports no change exactly if the request's observation is the previous one.
pub changes_from_iff :
    (now previous : CacheObservation) → (changes_from now previous ≡ []) ↔ (now ≡ previous)
unfolding changes_from
changes_from_iff now previous = (
  (λ h.
      same now previous (ground (arith, text_eq_iff now.provider previous.provider))
        (ground (arith, text_eq_iff now.model previous.model))
        (ground (arith, text_eq_iff now.account previous.account))
        (ground (arith, text_eq_iff now.prefix_digest previous.prefix_digest))
        (ground (arith, option_text_eq_iff now.key_digest previous.key_digest))),
  (λ e. rw (e) (unchanged previous)),
)
