-- ===== src/Router/Named.antt =====
-- The configurations that `Router::new` of src/domain/router.rs refuses, and models that name their
-- provider or carry the "[1m]" hint.
use local_proxy.Base.{
  ℕ, suc, Bool, true, false, Option, none, some, List, [], ◌∷◌, ◌++◌, ◌≡◌, refl, ap, ◌∙◌, arith,
  Text, Dict, codes, text_eq, text_eq_iff, lookup, insert, is_some, Bool-cases, inl, inr, Lacks,
  split_once, split_once-append, strip_suffix, strip_suffix-append,
}
use local_proxy.Config.{Config, Provider, Route}
use local_proxy.Router.Build.{
  Router, ok, err, new, assemble, provider_not_found, index_providers, index_routes, tables,
  unknown,
}
use local_proxy.Router.Refine.{named_of, resolve-new}
use local_proxy.Router.Resolve.{forward, resolve_model_impl, resolve_model, resolve_client_model}
use local_proxy.Router.Spec.{first_unknown, last_named, last_exact, resolve_spec, stripped_spec}
use local_proxy.Router.Tables.{Agrees}

module _ (ps : List Provider) (known : Dict ℕ)
    (named : (k : Text) → Agrees ps (lookup k known) (last_named ps k)) where
  is_some-named : (o : Option ℕ) (a : Option Provider) → Agrees ps o a → is_some o ≡ is_some a
  is_some-named none none h = refl
  is_some-named (some i) (some p) h = refl
  is_some-named none (some p) h = elim h [ ]
  is_some-named (some i) none h = elim h [ ]

  index_routes-unknown :
      (i : ℕ) (rs : List Route) (exact : Dict ℕ) (prefixes : List ℕ) (name : Text)
      → first_unknown ps rs ≡ some name
      → index_routes known i rs exact prefixes ≡ unknown name
  unfolding index_routes first_unknown
  index_routes-unknown i [] exact prefixes name h = cc
  index_routes-unknown i (r ∷ rs) exact prefixes name h =
      let same =
        is_some-named (lookup r.provider known) (last_named ps r.provider) (named r.provider) in
      ground (
        arith,
        index_routes-unknown (suc i) rs exact (prefixes ++ i ∷ []) name,
        index_routes-unknown (suc i) rs (insert r.model i exact) prefixes name,
      )

  index_routes-tables :
      (i : ℕ) (rs : List Route) (exact : Dict ℕ) (prefixes : List ℕ)
      → first_unknown ps rs ≡ none
      → (e : Dict ℕ) × (is : List ℕ) × (index_routes known i rs exact prefixes ≡ tables e is)
  unfolding index_routes first_unknown
  index_routes-tables i [] exact prefixes h = (exact, prefixes, refl)
  index_routes-tables i (r ∷ rs) exact prefixes h =
      let same =
        is_some-named (lookup r.provider known) (last_named ps r.provider) (named r.provider) in
      elim (Bool-cases r.prefix) [
        | inl pre ↦
            let (e, is, run) =
              index_routes-tables (suc i) rs exact (prefixes ++ i ∷ []) (ground arith) in
            (e, is, ground arith)
        | inr pre ↦
            let (e, is, run) =
              index_routes-tables (suc i) rs (insert r.model i exact) prefixes (ground arith) in
            (e, is, ground arith)
      ]

-- A configuration is refused exactly when a route names a provider that is not there, and the error
-- carries the first such name; otherwise a router is built.
pub new-total :
    (c : Config)
    → ((name : Text)
        → first_unknown c.providers c.routes ≡ some name
        → new c ≡ err (provider_not_found name))
      × (first_unknown c.providers c.routes ≡ none → (r : Router) × (new c ≡ ok r))
unfolding new
new-total c =
    let known = index_providers 0 c.providers [] in
    (
      λ name h.
          ap (assemble c known)
            (index_routes-unknown c.providers known (named_of c) 0 c.routes [] [] name h),
      λ h.
          let (e, is, run) =
            index_routes-tables c.providers known (named_of c) 0 c.routes [] [] h in
          (_, ap (assemble c known) run),
    )

impl-hint :
    (r : Router) (model : Text) (connected : Text → Bool) (strict : Bool)
    → strip_suffix (codes "[1m]") model ≡ none
    → resolve_model_impl r (model ++ codes "[1m]") connected strict
      ≡ resolve_model_impl r model connected strict
unfolding resolve_model_impl
impl-hint r model connected strict h = rw (strip_suffix-append (codes "[1m]") model, h) refl

-- A model that does not end in the hint itself is resolved alike with the hint and without it, by the
-- search, by the client's resolver and by the operator's.
pub resolve-hint :
    (r : Router) (model : Text) (connected : Text → Bool) (strict : Bool)
    → strip_suffix (codes "[1m]") model ≡ none
    → (resolve_model_impl r (model ++ codes "[1m]") connected strict
        ≡ resolve_model_impl r model connected strict)
      × (resolve_client_model r (model ++ codes "[1m]") connected
          ≡ resolve_client_model r model connected)
      × (resolve_model r (model ++ codes "[1m]") connected ≡ resolve_model r model connected)
unfolding resolve_client_model resolve_model
resolve-hint r model connected strict h = (
  impl-hint r model connected strict h,
  impl-hint r model connected true h,
  impl-hint r model connected false h,
)

auto_no_slash : split_once b'/' (codes "auto") ≡ none
unfolding split_once codes
auto_no_slash = refl

slash-ne-auto :
    (name upstream : Text)
    → Lacks b'/' name
    → text_eq (name ++ b'/' ∷ upstream) (codes "auto") ≡ false
slash-ne-auto name upstream h =
    elim (Bool-cases (text_eq (name ++ b'/' ∷ upstream) (codes "auto"))) [
      | inl e ↦
          let same = (text_eq_iff (name ++ b'/' ∷ upstream) (codes "auto")).0 e in
          let parts = split_once-append b'/' name upstream h in
          cc (ap (split_once b'/') same, parts, auto_no_slash)
      | inr e ↦ e
    ]

stripped-named :
    (c : Config) (name upstream : Text) (connected : Text → Bool) (strict : Bool) (p : Provider)
    → Lacks b'/' name
    → last_exact c.routes (name ++ b'/' ∷ upstream) ≡ none
    → last_named c.providers name ≡ some p
    → text_eq upstream (codes "auto") ≡ false
    → stripped_spec c (name ++ b'/' ∷ upstream) connected strict ≡ forward upstream p
unfolding stripped_spec
stripped-named c name upstream connected strict p plain exact named auto = rw (
  exact,
  slash-ne-auto name upstream plain,
  split_once-append b'/' name upstream plain,
  named,
  auto,
)

-- A model written as provider and upstream name goes to that provider under that name, connected or
-- not and strict or not, if no exact route has the whole and it carries no hint.
pub resolve-named :
    (c : Config) (r : Router) (name upstream : Text) (connected : Text → Bool) (strict : Bool)
    (p : Provider)
    → new c ≡ ok r
    → Lacks b'/' name
    → strip_suffix (codes "[1m]") (name ++ b'/' ∷ upstream) ≡ none
    → last_exact c.routes (name ++ b'/' ∷ upstream) ≡ none
    → last_named c.providers name ≡ some p
    → text_eq upstream (codes "auto") ≡ false
    → resolve_model_impl r (name ++ b'/' ∷ upstream) connected strict ≡ forward upstream p
unfolding resolve_spec
resolve-named c r name upstream connected strict p built plain no_hint exact named auto =
    resolve-new c r (name ++ b'/' ∷ upstream) connected strict built
    ∙ rw no_hint (stripped-named c name upstream connected strict p plain exact named auto)
