-- ===== src/Router/Prefix.antt =====
-- The search for a prefix route in src/domain/router.rs.
use local_proxy.Base.{
  ◌≤◌, Bool, true, false, ◌&&◌, ◌||◌, Option, none, some, List, [], ◌∷◌, ◌≡◌, refl, ◌∙◌, arith,
  if◌then◌else◌, Text, codes, text_eq, is_some, any, Bool-cases, inl, inr, All, some_inj,
  split_once, byte_len, starts_with,
}
use local_proxy.Config.{Config, Route}
use local_proxy.Router.Build.{Router, ok, new}
use local_proxy.Router.Refine.{resolve-new}
use local_proxy.Router.Resolve.{resolve_model_impl, qualified_by, strip_hint}
use local_proxy.Router.Spec.{
  last_named, last_exact, longest_prefix, is_longer, route_target, resolve_spec, stripped_spec,
}

module _ (model : Text) where
  abbrev pub matches : Route → Bool
  matches r = r.prefix && starts_with r.model model

  -- No longer than `q`, if it matches.
  abbrev pub IsBound : Route → Route → Type 0
  IsBound q r = matches r ≡ true → byte_len r.model ≤ byte_len q.model

  longest_prefix-exists :
      (rs : List Route) (best : Option Route)
      → (is_some best || any matches rs) ≡ true
      → (q : Route) × (longest_prefix model rs best ≡ some q)
  unfolding longest_prefix
  longest_prefix-exists [] none h = cc
  longest_prefix-exists [] (some b) h = (b, refl)
  longest_prefix-exists (r ∷ rs) (some b) h =
      longest_prefix-exists rs (if r.prefix && is_longer model r (some b) then some r else some b)
        (ground arith)
  longest_prefix-exists (r ∷ rs) none h =
      longest_prefix-exists rs (if r.prefix && is_longer model r none then some r else none)
        (ground arith)

  -- What is kept of the best so far.
  abbrev Kept : Route → Option Route → Type 0
  Kept q none = Unit
  Kept q (some b) = byte_len b.model ≤ byte_len q.model

  Kept-step :
      (r q : Route) (best : Option Route)
      → Kept q (if r.prefix && is_longer model r best then some r else best)
      → Kept q best × IsBound q r
  Kept-step r q none h = elim (Bool-cases (matches r)) [
    | inl e ↦ (tt, λ m. ground arith)
    | inr e ↦ (tt, λ m. cc)
  ]
  Kept-step r q (some b) h = elim (Bool-cases (matches r)) [
    | inl e ↦ (ground arith, λ m. ground arith)
    | inr e ↦ (ground arith, λ m. cc)
  ]

  longest_prefix-bounds :
      (rs : List Route) (best : Option Route) (q : Route)
      → longest_prefix model rs best ≡ some q
      → Kept q best × All (IsBound q) rs
  unfolding longest_prefix
  longest_prefix-bounds [] none q h = (tt, tt)
  longest_prefix-bounds [] (some b) q h = (ground arith, tt)
  longest_prefix-bounds (r ∷ rs) best q h =
      let (kept, bounds) =
        longest_prefix-bounds rs (if r.prefix && is_longer model r best then some r else best) q
          h in
      let (before, here) = Kept-step r q best kept in (before, (here, bounds))

  abbrev StartMatches : Option Route → Type 0
  StartMatches none = Unit
  StartMatches (some b) = matches b ≡ true

  StartMatches-step :
      (r : Route) (best : Option Route)
      → StartMatches best
      → StartMatches (if r.prefix && is_longer model r best then some r else best)
  StartMatches-step r none h = ground arith
  StartMatches-step r (some b) h = ground arith

  longest_prefix-matches :
      (rs : List Route) (best : Option Route) (q : Route)
      → longest_prefix model rs best ≡ some q
      → StartMatches best
      → matches q ≡ true
  unfolding longest_prefix
  longest_prefix-matches [] none q h start = cc
  longest_prefix-matches [] (some b) q h start = rw (← some_inj h) start
  longest_prefix-matches (r ∷ rs) best q h start =
      longest_prefix-matches rs (if r.prefix && is_longer model r best then some r else best) q h
        (StartMatches-step r best start)

stripped-prefix :
    (c : Config) (m : Text) (connected : Text → Bool) (strict : Bool) (q : Route)
    → last_exact c.routes m ≡ none
    → text_eq m (codes "auto") ≡ false
    → qualified_by (last_named c.providers) (split_once b'/' m) ≡ none
    → longest_prefix m c.routes none ≡ some q
    → stripped_spec c m connected strict ≡ route_target c q m
unfolding stripped_spec
stripped-prefix c m connected strict q exact auto named found = rw (exact, auto, named, found)

-- A model that has no exact route, is not `auto` and names no known provider, but that some prefix
-- route matches, goes to a matching prefix route that is at least as long as any other.
pub resolve-prefix :
    (c : Config) (r : Router) (model : Text) (connected : Text → Bool) (strict : Bool)
    → new c ≡ ok r
    → last_exact c.routes (strip_hint model) ≡ none
    → text_eq (strip_hint model) (codes "auto") ≡ false
    → qualified_by (last_named c.providers) (split_once b'/' (strip_hint model)) ≡ none
    → any (matches (strip_hint model)) c.routes ≡ true
    → (q : Route) × (resolve_model_impl r model connected strict
        ≡ route_target c q (strip_hint model))
      × (matches (strip_hint model) q ≡ true)
      × All (IsBound (strip_hint model) q) c.routes
unfolding resolve_spec
resolve-prefix c r model connected strict built exact auto named some_match =
    let m = strip_hint model in
    let (q, found) = longest_prefix-exists m c.routes none some_match in
    (
      q,
      resolve-new c r model connected strict built
          ∙ stripped-prefix c m connected strict q exact auto named found,
      longest_prefix-matches m c.routes none q found tt,
      (longest_prefix-bounds m c.routes none q found).1,
    )
