-- ===== src/Recording/Sessions.antt =====
-- The sessions that the recorder of src/application/usage.rs remembers, over any requests.
use local_proxy.Base.{
  ◌+◌, ◌≤◌, ◌<◌, true, false, not, ◌&&◌, Option, none, some, List, [], ◌∷◌, ◌++◌, ◌≡◌, refl, sym,
  ◌⊎◌, inl, inr, arith, if◌then◌else◌, Text, text_eq, text_eq_iff, is_empty, is_some, leb, ltb,
  length, Dict, lookup, insert, lookup-insert, Bool-cases, Option-cases, append-nil,
}
use local_proxy.Cache.Outcome.{CacheObservation, changes_from, request_diagnostics}
use local_proxy.Config.{ProviderFormat}
use local_proxy.Json.{Value}
use local_proxy.Recording.{session_limit, changes_since, remember, observe_cache}

-- A request, as it was observed.
pub record Observed : Type 0 where
  pub session : Text
  pub format : ProviderFormat
  pub observation : CacheObservation
  pub body : Value

-- What is remembered after some requests, the last one first.
unfoldable pub remembered : List Observed → Dict CacheObservation
remembered [] = []
remembered (r ∷ earlier) =
    (observe_cache r.session r.format r.observation r.body (remembered earlier)).0

-- The last observation of a session.
unfoldable pub last_observation : Text → List Observed → Option CacheObservation
last_observation s [] = none
last_observation s (r ∷ earlier) =
    if text_eq r.session s then some r.observation else last_observation s earlier

length-insert {ℓ} :
    {V : Type ℓ} (k : Text) (v : V) (m : Dict V)
    → length (insert k v m) ≡ (if is_some (lookup k m) then length m else length m + 1)
unfolding insert lookup
length-insert k v [] = refl
length-insert k v ((j, w) ∷ m) = ground (arith, length-insert k v m)

remember-bounded :
    (s : Text) (o : CacheObservation) (m : Dict CacheObservation)
    → length m ≤ session_limit
    → length (remember s o m) ≤ session_limit
unfolding remember lookup
remember-bounded s o m h = ground (arith, length-insert s o m, length-insert s o [])

observe_cache-bounded :
    (s : Text) (f : ProviderFormat) (o : CacheObservation) (b : Value) (m : Dict CacheObservation)
    → length m ≤ session_limit
    → length (observe_cache s f o b m).0 ≤ session_limit
unfolding observe_cache
observe_cache-bounded s f o b m h = elim (Bool-cases (is_empty s)) [
  | inl e ↦ rw (e) h
  | inr e ↦ rw (e) (remember-bounded s o m h)
]

pub remembered-bounded : (h : List Observed) → length (remembered h) ≤ session_limit
unfolding remembered
remembered-bounded [] = omega arith
remembered-bounded (r ∷ h) =
    observe_cache-bounded r.session r.format r.observation r.body (remembered h)
      (remembered-bounded h)

lookup-remember :
    (s t : Text) (o p : CacheObservation) (m : Dict CacheObservation)
    → lookup t (remember s o m) ≡ some p
    → (text_eq s t ≡ true) × (o ≡ p) ⊎ (text_eq s t ≡ false) × (lookup t m ≡ some p)
unfolding remember lookup
lookup-remember s t o p m h =
    elim (Bool-cases (leb session_limit (length m) && not (is_some (lookup s m)))) [
      | inl e ↦ ground (arith, lookup-insert s t o [])
      | inr e ↦ ground (arith, lookup-insert s t o m)
    ]

-- What is remembered of a session is what it last showed.
remembered-last :
    (s : Text) (p : CacheObservation) (h : List Observed)
    → is_empty s ≡ false
    → lookup s (remembered h) ≡ some p
    → last_observation s h ≡ some p
unfolding remembered last_observation lookup observe_cache
remembered-last s p [] n e = absurd (ground arith)
remembered-last s p (r ∷ h) n e = elim (Bool-cases (is_empty r.session)) [
  | inl q ↦
      let f : text_eq r.session s ≡ false = ground (arith, text_eq_iff r.session s) in
      let g : lookup s (remembered h) ≡ some p = ground arith in
      ground (arith, remembered-last s p h n g)
  | inr q ↦
      let g : lookup s (remember r.session r.observation (remembered h)) ≡ some p = ground arith in
      elim (lookup-remember r.session s r.observation p (remembered h) g) [
        | inl (t, o) ↦ ground (arith, o)
        | inr (t, l) ↦ ground (arith, remembered-last s p h n l)
      ]
]

remembered-length : (h : List Observed) → length (remembered h) ≤ length h
unfolding remembered observe_cache remember lookup
remembered-length [] = omega arith
remembered-length (r ∷ h) = ground (
  arith,
  remembered-length h,
  length-insert r.session r.observation (remembered h),
  length-insert r.session r.observation [],
)

remember-room :
    (s t : Text) (o : CacheObservation) (m : Dict CacheObservation)
    → length m < session_limit
    → lookup t (remember s o m) ≡ (if text_eq s t then some o else lookup t m)
unfolding remember
remember-room s t o m h = ground (arith, lookup-insert s t o m)

-- Nothing is forgotten of as many requests as there is room for sessions.
remembered-all :
    (s : Text) (h : List Observed)
    → is_empty s ≡ false
    → length h ≤ session_limit
    → lookup s (remembered h) ≡ last_observation s h
unfolding remembered last_observation lookup observe_cache
remembered-all s [] n l = refl
remembered-all s (r ∷ h) n l = elim (Bool-cases (is_empty r.session)) [
  | inl q ↦
      let f : text_eq r.session s ≡ false = ground (arith, text_eq_iff r.session s) in
      ground (arith, remembered-all s h n (omega arith))
  | inr q ↦ ground (
    arith,
    remembered-all s h n (omega arith),
    remember-room r.session s r.observation (remembered h) (omega (arith, remembered-length h)),
  )
]

-- After any requests, never more than 1024 sessions are remembered, and a request of a session is
-- told what it shows itself and, at most, what has changed since the last request of the same
-- session. It is always told that if there were no more than 1024 requests before.
pub observe_cache-remembered :
    (h : List Observed) (r : Observed)
    → is_empty r.session ≡ false
    → (length (remembered (r ∷ h)) ≤ session_limit)
      × ((observe_cache r.session r.format r.observation r.body (remembered h)).1
            ≡ request_diagnostics r.format r.body
          ⊎ (o : CacheObservation) × (last_observation r.session h ≡ some o)
            × ((observe_cache r.session r.format r.observation r.body (remembered h)).1
                ≡ request_diagnostics r.format r.body ++ changes_from r.observation o))
      × (session_limit < length h
          ⊎ (observe_cache r.session r.format r.observation r.body (remembered h)).1
            ≡ request_diagnostics r.format r.body
              ++ changes_since r.observation (last_observation r.session h))
unfolding observe_cache remembered
observe_cache-remembered h r e = (
  remembered-bounded (r ∷ h),
  elim (Option-cases (lookup r.session (remembered h))) [
    | inl l ↦ inl (rw (e, l) (append-nil (request_diagnostics r.format r.body)))
    | inr (o, l) ↦ inr (o, remembered-last r.session o h e l, rw (e, l) refl)
  ],
  elim (Bool-cases (ltb session_limit (length h))) [
    | inl m ↦ inl (ground arith)
    | inr m ↦ inr (rw (e, sym (remembered-all r.session h e (ground arith))) refl)
  ],
)
