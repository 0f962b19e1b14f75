-- ===== src/Router/Tables.antt =====
-- The tables that `Router::new` of src/domain/router.rs builds, beside the configuration.
use local_proxy.Base.{
  ℕ, suc, ◌+◌, true, false, Option, none, some, List, [], ◌∷◌, ◌++◌, ◌≡◌, refl, ap, ◌∙◌, arith,
  if◌then◌else◌, Text, Dict, text_eq, lookup, insert, lookup-insert, is_some, get_elem?, Bool-cases,
  inl, inr, All, append_assoc, append-nil,
}
use local_proxy.Config.{Provider, Route}
use local_proxy.Router.Build.{index_providers, index_routes, tables}
use local_proxy.Router.Spec.{or_else, last_named, last_exact, prefix_routes}

-- An index into a list stands for an element.
abbrev pub Agrees : {A : Type 0} → List A → Option ℕ → Option A → Type 0
Agrees xs none none = Unit
Agrees xs (some i) (some a) = get_elem? xs i ≡ some a
Agrees xs none (some a) = ⊥
Agrees xs (some i) none = ⊥

module _ {A : Type 0} where
  -- `rest` is what stands in `whole` from `i` on.
  abbrev pub IsFrom : List A → ℕ → List A → Type 0
  IsFrom whole i rest = (j : ℕ) → get_elem? whole (i + j) ≡ get_elem? rest j

  pub IsFrom-zero : (whole : List A) → IsFrom whole 0 whole
  IsFrom-zero whole j = ap (get_elem? whole) (omega arith)

  pub IsFrom-suc :
      (whole rest : List A) (i : ℕ) (a : A) → IsFrom whole i (a ∷ rest) → IsFrom whole (suc i) rest
  IsFrom-suc whole rest i a h j =
      ap (get_elem? whole) (let e : suc i + j ≡ i + suc j = omega arith in e) ∙ h (suc j)

  pub IsFrom-head :
      (whole rest : List A) (i : ℕ) (a : A) → IsFrom whole i (a ∷ rest) → get_elem? whole i ≡ some a
  IsFrom-head whole rest i a h = ap (get_elem? whole) (let e : i ≡ i + 0 = omega arith in e) ∙ h 0

or_else_assoc {ℓ} :
    {A : Type ℓ} (a b c : Option A) → or_else (or_else a b) c ≡ or_else a (or_else b c)
or_else_assoc none b c = refl
or_else_assoc (some x) b c = refl

pub index_providers-Agrees :
    (whole rest : List Provider) (i : ℕ) (m : Dict ℕ) (k : Text) (a : Option Provider)
    → IsFrom whole i rest
    → Agrees whole (lookup k m) a
    → Agrees whole (lookup k (index_providers i rest m)) (or_else (last_named rest k) a)
unfolding index_providers last_named
index_providers-Agrees whole [] i m k a from h = h
index_providers-Agrees whole (p ∷ ps) i m k a from h =
    let found : Option Provider = if text_eq p.name k then some p else none in
    let added : Agrees whole (lookup k (insert p.name i m)) (or_else found a) =
      rw (lookup-insert p.name k i m) (elim (Bool-cases (text_eq p.name k)) [
        | inl e ↦ rw e (IsFrom-head whole ps i p from)
        | inr e ↦ rw e h
      ]) in
    rw (or_else_assoc (last_named ps k) found a) (
      index_providers-Agrees whole ps (suc i) (insert p.name i m) k (or_else found a)
        (IsFrom-suc whole ps i p from) added)

-- Indices that stand for routes, one by one.
abbrev pub Points : List Route → List ℕ → List Route → Type 0
Points whole [] [] = Unit
Points whole (i ∷ is) (r ∷ rs) = (get_elem? whole i ≡ some r) × Points whole is rs
Points whole [] (r ∷ rs) = ⊥
Points whole (i ∷ is) [] = ⊥

Points-concat :
    (whole : List Route) (is : List ℕ) (rs : List Route) (i : ℕ) (r : Route)
    → Points whole is rs
    → get_elem? whole i ≡ some r
    → Points whole (is ++ i ∷ []) (rs ++ r ∷ [])
Points-concat whole [] [] i r h e = (e, tt)
Points-concat whole (j ∷ is) (q ∷ rs) i r h e = (h.0, Points-concat whole is rs i r h.1 e)
Points-concat whole [] (q ∷ rs) i r h e = elim h [ ]
Points-concat whole (j ∷ is) [] i r h e = elim h [ ]

prefix_routes-prefix :
    (r : Route) (rs : List Route) → r.prefix ≡ true → prefix_routes (r ∷ rs) ≡ r ∷ prefix_routes rs
prefix_routes-prefix r rs h = ground arith

prefix_routes-exact :
    (r : Route) (rs : List Route) → r.prefix ≡ false → prefix_routes (r ∷ rs) ≡ prefix_routes rs
prefix_routes-exact r rs h = ground arith

last_exact-prefix :
    (r : Route) (rs : List Route) (k : Text)
    → r.prefix ≡ true
    → last_exact (r ∷ rs) k ≡ last_exact rs k
unfolding last_exact
last_exact-prefix r rs k h = ground arith

last_exact-exact :
    (r : Route) (rs : List Route) (k : Text)
    → r.prefix ≡ false
    → last_exact (r ∷ rs) k ≡ or_else (last_exact rs k) (if text_eq r.model k then some r else none)
unfolding last_exact
last_exact-exact r rs k h = ground arith

tables-injective : {e e' : Dict ℕ} {p p' : List ℕ} → tables e p ≡ tables e' p' → (e ≡ e') × (p ≡ p')
tables-injective h = (cc, cc)

abbrev pub IsKnown : Dict ℕ → Route → Type 0
IsKnown known r = is_some (lookup r.provider known) ≡ true

module _ (known : Dict ℕ) (whole : List Route) where
  -- What the loop over the routes has made of its tables.
  abbrev pub Filled : List Route → List Route → Dict ℕ → Dict ℕ → List ℕ → Type 0
  Filled done rest before exact prefixes =
      All (IsKnown known) rest
      × Points whole prefixes (done ++ prefix_routes rest)
      × ((k : Text) (a : Option Route)
          → Agrees whole (lookup k before) a
          → Agrees whole (lookup k exact) (or_else (last_exact rest k) a))

  Filled-prefix :
      (done rs : List Route) (r : Route) (before exact : Dict ℕ) (prefixes : List ℕ)
      → IsKnown known r
      → r.prefix ≡ true
      → Filled (done ++ r ∷ []) rs before exact prefixes
      → Filled done (r ∷ rs) before exact prefixes
  Filled-prefix done rs r before exact prefixes k pre h = (
    (k, h.0),
    rw (prefix_routes-prefix r rs pre, ← append_assoc done (r ∷ []) (prefix_routes rs)) h.1,
    λ t a agrees. rw (last_exact-prefix r rs t pre) (h.2 t a agrees),
  )

  Filled-exact :
      (done rs : List Route) (r : Route) (i : ℕ) (before exact : Dict ℕ) (prefixes : List ℕ)
      → get_elem? whole i ≡ some r
      → IsKnown known r
      → r.prefix ≡ false
      → Filled done rs (insert r.model i before) exact prefixes
      → Filled done (r ∷ rs) before exact prefixes
  Filled-exact done rs r i before exact prefixes at k pre h = (
    (k, h.0),
    rw (prefix_routes-exact r rs pre) h.1,
    λ t a agrees.
        let found : Option Route = if text_eq r.model t then some r else none in
        let added : Agrees whole (lookup t (insert r.model i before)) (or_else found a) =
          rw (lookup-insert r.model t i before)
            (elim (Bool-cases (text_eq r.model t)) [ inl e ↦ rw e at | inr e ↦ rw e agrees ]) in
        rw (last_exact-exact r rs t pre, or_else_assoc (last_exact rs t) found a)
          (h.2 t (or_else found a) added),
  )

  pub index_routes-Filled :
      (done rs : List Route) (i : ℕ) (before exact : Dict ℕ) (so_far prefixes : List ℕ)
      → IsFrom whole i rs
      → Points whole so_far done
      → index_routes known i rs before so_far ≡ tables exact prefixes
      → Filled done rs before exact prefixes
  unfolding index_routes last_exact
  index_routes-Filled done [] i before exact so_far prefixes from points h =
      let (e, p) = tables-injective h in
      (tt, rw (← p, append-nil done) points, λ t a agrees. rw (← e) agrees)
  index_routes-Filled done (r ∷ rs) i before exact so_far prefixes from points h =
      let at = IsFrom-head whole rs i r from in
      let from' = IsFrom-suc whole rs i r from in
      let kn : IsKnown known r = ground arith in
      elim (Bool-cases r.prefix) [
        | inl pre ↦ Filled-prefix done rs r before exact prefixes kn pre (
            index_routes-Filled (done ++ r ∷ []) rs (suc i) before exact (so_far ++ i ∷ []) prefixes
              from' (Points-concat whole so_far done i r points at) (ground arith))
        | inr pre ↦ Filled-exact done rs r i before exact prefixes at kn pre (
            index_routes-Filled done rs (suc i) (insert r.model i before) exact so_far prefixes
              from' points (ground arith))
      ]
