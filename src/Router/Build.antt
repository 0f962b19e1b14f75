-- ===== src/Router/Build.antt =====
-- The router's tables and `Router::new` of src/domain/router.rs.
use local_proxy.Base.{
  ℕ, suc, Option, none, List, [], ◌∷◌, ◌++◌, if◌then◌else◌, Text, Dict, lookup, insert, is_some,
  is_empty,
}
use local_proxy.Config.{Config, Provider, Route}

pub data RouterError : Type 0 where
  provider_not_found : (provider : Text) → RouterError
  model_not_found : (model : Text) → RouterError
  auto_model_not_configured : (provider : Text) → RouterError
  no_auto_model : RouterError

pub record Router : Type 0 where
  pub config : Config
  pub exact : Dict ℕ
  pub providers : Dict ℕ
  pub prefixes : List ℕ
  pub default_provider : Option ℕ

pub data Built : Type 0 where
  ok : Router → Built
  err : RouterError → Built

-- The loop over `config.providers`: a later provider of the same name replaces the index.
unfoldable pub index_providers : ℕ → List Provider → Dict ℕ → Dict ℕ
index_providers i [] m = m
index_providers i (p ∷ ps) m = index_providers (suc i) ps (insert p.name i m)

-- The tables filled by the loop over `config.routes`, or the first route's unknown provider.
pub data Indexed : Type 0 where
  tables : Dict ℕ → List ℕ → Indexed
  unknown : Text → Indexed

unfoldable pub index_routes : Dict ℕ → ℕ → List Route → Dict ℕ → List ℕ → Indexed
index_routes known i [] exact prefixes = tables exact prefixes
index_routes known i (r ∷ rs) exact prefixes =
    let as_prefix = index_routes known (suc i) rs exact (prefixes ++ i ∷ []) in
    let as_exact = index_routes known (suc i) rs (insert r.model i exact) prefixes in
    if is_some (lookup r.provider known)
    then if r.prefix then as_prefix else as_exact
    else unknown r.provider

abbrev pub default_index : Text → Dict ℕ → Option ℕ
default_index name known = if is_empty name then none else lookup name known

-- The end of `new`: the first unknown provider, or the router.
abbrev pub assemble : Config → Dict ℕ → Indexed → Built
assemble config known (unknown name) = err (provider_not_found name)
assemble config known (tables exact prefixes) = ok (record {
  config = config;
  exact = exact;
  providers = known;
  prefixes = prefixes;
  default_provider = default_index config.defaults.provider known;
})

unfoldable pub new : Config → Built
new config =
    let known = index_providers 0 config.providers [] in
    assemble config known (index_routes known 0 config.routes [] [])
