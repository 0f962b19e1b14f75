-- ===== src/Proxy.antt =====
-- The choices of src/application/proxy.rs before a request is sent: is the client let in, which
-- model does it get, and through which account. An upstream account is known by its credentials.
use local_proxy.Base.{
  ℕ, ◌+◌, Bool, true, false, not, ◌&&◌, ◌||◌, Option, none, some, List, [], ◌∷◌, ◌++◌, ◌≡◌,
  if◌then◌else◌, Text, Dict, lookup, text_eq, is_empty, is_some, codes, contains_text, strip_prefix,
  starts_with, leb, any,
}
use local_proxy.Config.{Config, Provider, qualified_id}
use local_proxy.Error.{ApiError, bad_request, unauthorized, internal, from_router_error}
use local_proxy.Json.{or_none, get_or, and_then}
use local_proxy.Router.Build.{Router}
use local_proxy.Router.Resolve.{
  Answer, ResolvedRoute, resolved, refused, panicked, resolve_model, resolve_client_model,
}
pub mod Access

pub record Account : Type 0 where
  pub provider : Text
  pub alias : Text
  pub has_credentials : Bool

pub record RuntimeState : Type 0 where
  pub config : Config
  pub router : Router
  pub accounts : Dict (Dict Account)
  pub enforce_active_model : Bool
  pub model_override : Option Text
  pub config_path : Text

pub data Outcome {ℓ} (A : Type ℓ) : Type ℓ where
  ok : A → Outcome A
  err : ApiError → Outcome A
  panic : Outcome A

unfoldable pub check_key : List Text → Option Text → Outcome (Option Text)
check_key keys none = err (unauthorized (codes "missing API key"))
check_key keys (some key) =
    if contains_text keys key then ok (some key) else err (unauthorized (codes "invalid API key"))

abbrev pub no_keys : List Text → Bool
no_keys [] = true
no_keys (k ∷ ks) = false

unfoldable pub authenticate : RuntimeState → Option Text → Outcome (Option Text)
authenticate state presented =
    if no_keys state.config.server.api_keys
    then ok presented
    else check_key state.config.server.api_keys presented

abbrev pub any_credentials : Dict Account → Bool
any_credentials accounts = any (λ entry. entry.1.has_credentials) accounts

abbrev pub any_stored : Option (Dict Account) → Bool
any_stored none = false
any_stored (some accounts) = any_credentials accounts

unfoldable pub is_connected : RuntimeState → Text → Bool
is_connected state provider = any_stored (lookup provider state.accounts)

abbrev pub gateway_id_marker : Text
gateway_id_marker = codes "anthropic:"

abbrev pub to_ascii_lowercase : Text → Text
to_ascii_lowercase [] = []
to_ascii_lowercase (c ∷ s) = (if leb 65 c && leb c 90 then c + 32 else c) ∷ to_ascii_lowercase s

abbrev pub contains_part : Text → Text → Bool
contains_part part [] = is_empty part
contains_part part (c ∷ s) = starts_with part (c ∷ s) || contains_part part s

unfoldable pub passes_gateway_filter : Text → Bool
passes_gateway_filter id =
    let lower = to_ascii_lowercase id in
    contains_part (codes "claude") lower || contains_part (codes "anthropic") lower

-- The client's model without the marker, if there is one and it is not empty.
unfoldable pub client_model : Option Text → Option Text
client_model none = none
client_model (some m) =
    let bare = get_or (strip_prefix gateway_id_marker m) m in
    if is_empty bare then none else some bare

-- `is_ok()` of an answer; none is a panic.
abbrev pub is_ok : Answer → Option Bool
is_ok (resolved route) = some true
is_ok (refused e) = some false
is_ok panicked = none

-- `client_sent`: whether the client's model is the one to resolve.
unfoldable pub client_sent : RuntimeState → Option Text → Option Bool
client_sent state none = some false
client_sent state (some m) =
    if state.enforce_active_model
    then some false
    else if not (is_some state.config.defaults.active_model) || not (passes_gateway_filter m)
    then some true
    else is_ok (resolve_client_model state.router m (is_connected state))

abbrev pub first_of_models : Text → List Text → Option Text
first_of_models name [] = none
first_of_models name (m ∷ ms) = some (qualified_id name m)

-- The first model of a connected provider that has any.
unfoldable pub first_connected : RuntimeState → List Provider → Option Text
first_connected state [] = none
first_connected state (p ∷ ps) =
    or_none (if is_connected state p.name then first_of_models p.name p.models else none)
      (first_connected state ps)

unfoldable pub if_connected : RuntimeState → Text → Answer → Outcome ResolvedRoute
if_connected state requested (refused e) = err (from_router_error e)
if_connected state requested panicked = panic
if_connected state requested (resolved route) =
    if is_connected state route.provider.name
    then ok route
    else err (
        bad_request (
          codes "model '"
          ++ (requested
              ++ (codes "' resolves to provider '"
                  ++ (route.provider.name
                      ++ (codes "' which has no account; connect it via `local-proxy connect "
                          ++ (route.provider.name
                              ++ codes " --account <alias>` or select a connected model")))))))

unfoldable pub by_override : RuntimeState → Option Text → Outcome ResolvedRoute
by_override state none = err (
    bad_request (codes "no model available; connect a provider or run `local-proxy model <model>`"))
by_override state (some model) =
    if_connected state model (resolve_model state.router model (is_connected state))

unfoldable pub by_sender : RuntimeState → Text → Option Bool → Outcome ResolvedRoute
by_sender state m none = panic
by_sender state m (some true) =
    if_connected state m (resolve_client_model state.router m (is_connected state))
by_sender state m (some false) =
    by_override state
      (or_none state.config.defaults.active_model (first_connected state state.config.providers))

-- `resolve_model` of the use case, on the client's model after the marker.
unfoldable pub resolve_bare : RuntimeState → Option Text → Outcome ResolvedRoute
resolve_bare state m = by_sender state (get_or m []) (client_sent state m)

unfoldable pub resolve_request : RuntimeState → Option Text → Outcome ResolvedRoute
resolve_request state sent = resolve_bare state (client_model sent)

abbrev pub with_credentials : Option Account → Option Account
with_credentials none = none
with_credentials (some a) = if a.has_credentials then some a else none

abbrev pub ok_or {ℓ} : {A : Type ℓ} → Text → (Text → ApiError) → Option A → Outcome A
ok_or message error none = err (error message)
ok_or message error (some a) = ok a

unfoldable pub account_in :
    Dict Account → (provider : Text) (header chosen : Option Text) → Outcome Account
account_in accounts provider (some alias) chosen =
    ok_or
      (codes "unknown account '"
        ++ (alias ++ (codes "' for provider '" ++ (provider ++ codes "'"))))
      bad_request (with_credentials (lookup alias accounts))
account_in accounts provider none (some alias) =
    ok_or
      (codes "account '"
        ++ (alias
            ++ (codes "' for provider '"
                ++ (provider
                    ++ (codes "' is no longer stored; select another with `local-proxy account "
                        ++ (provider ++ codes "/<alias>`"))))))
      bad_request (with_credentials (lookup alias accounts))
account_in accounts provider none none =
    ok_or (codes "no account selected for provider " ++ provider) internal
      (lookup (codes "default") accounts)

unfoldable pub account_of :
    Option (Dict Account) → (provider : Text) (header chosen : Option Text) → Outcome Account
account_of none provider header chosen =
    err (internal (codes "client not built for provider " ++ provider))
account_of (some accounts) provider header chosen = account_in accounts provider header chosen

unfoldable pub account_for :
    RuntimeState → Provider → (header chosen : Option Text) → Outcome Account
account_for state provider header chosen =
    account_of (lookup provider.name state.accounts) provider.name header chosen
