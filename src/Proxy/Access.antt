-- ===== src/Proxy/Access.antt =====
-- `authenticate`, `resolve_model` and `account_for` of src/application/proxy.rs: the client's key,
-- the route of its request and the account.
use local_proxy.Base.{
  Bool, true, false, Option, none, some, List, [], ◌∷◌, ◌++◌, ◌≡◌, refl, sym, if◌then◌else◌, Text,
  Dict, lookup, contains_text, strip_prefix, strip_prefix-append, arith, ◌↔◌, some_inj,
}
use local_proxy.Config.{Provider}
use local_proxy.Error.{ApiError, bad_request}
use local_proxy.Json.{get_or, or_none}
use local_proxy.Proxy.{
  RuntimeState, Account, ok, err, authenticate, check_key, no_keys, is_connected, gateway_id_marker,
  client_model, client_sent, first_connected, if_connected, by_override, by_sender, resolve_bare,
  resolve_request, account_in, account_of, account_for, with_credentials, ok_or,
}
use local_proxy.Router.Resolve.{
  Answer, ResolvedRoute, resolved, refused, panicked, resolve_model, resolve_client_model,
}

-- The presented keys that are let in: any if none is configured, else a configured one.
abbrev pub admitted : List Text → Option Text → Bool
admitted [] presented = true
admitted (k ∷ ks) none = false
admitted (k ∷ ks) (some key) = contains_text (k ∷ ks) key

-- A client is let in, with the key that it presented, exactly if no key is configured or it
-- presented a configured one.
pub authenticate_iff :
    (state : RuntimeState) (presented got : Option Text)
    → (authenticate state presented ≡ ok got)
      ↔ ((admitted state.config.server.api_keys presented ≡ true) × (got ≡ presented))
unfolding authenticate check_key
authenticate_iff state presented got = decided state.config.server.api_keys presented
  where
    decided :
        (keys : List Text) (presented : Option Text)
        → ((if no_keys keys then ok presented else check_key keys presented) ≡ ok got)
          ↔ ((admitted keys presented ≡ true) × (got ≡ presented))
    decided [] presented = ground arith
    decided (k ∷ ks) none = ground arith
    decided (k ∷ ks) (some key) = ground arith

if_connected-connected :
    (state : RuntimeState) (m : Text) (a : Answer) (route : ResolvedRoute)
    → if_connected state m a ≡ ok route
    → is_connected state route.provider.name ≡ true
unfolding if_connected
if_connected-connected state m (refused e) route h = ground arith
if_connected-connected state m panicked route h = ground arith
if_connected-connected state m (resolved r) route h = ground arith

by_override-connected :
    (state : RuntimeState) (o : Option Text) (route : ResolvedRoute)
    → by_override state o ≡ ok route
    → is_connected state route.provider.name ≡ true
unfolding by_override
by_override-connected state none route h = ground arith
by_override-connected state (some model) route h =
    if_connected-connected state model (resolve_model state.router model (is_connected state)) route
      h

by_sender-connected :
    (state : RuntimeState) (m : Text) (o : Option Bool) (route : ResolvedRoute)
    → by_sender state m o ≡ ok route
    → is_connected state route.provider.name ≡ true
unfolding by_sender by_override
by_sender-connected state m none route h = ground arith
by_sender-connected state m (some true) route h =
    if_connected-connected state m (resolve_client_model state.router m (is_connected state)) route
      h
by_sender-connected state m (some false) route h =
    by_override-connected state
      (or_none state.config.defaults.active_model (first_connected state state.config.providers))
      route h

-- A request is only ever given a route of a provider with a stored credential.
pub resolve_request-connected :
    (state : RuntimeState) (sent : Option Text) (route : ResolvedRoute)
    → resolve_request state sent ≡ ok route
    → is_connected state route.provider.name ≡ true
unfolding resolve_request resolve_bare
resolve_request-connected state sent route h =
    by_sender-connected state (get_or (client_model sent) [])
      (client_sent state (client_model sent)) route h

client_sent-enforced :
    (state : RuntimeState) (o : Option Text)
    → state.enforce_active_model ≡ true
    → client_sent state o ≡ some false
unfolding client_sent
client_sent-enforced state none h = refl
client_sent-enforced state (some m) h = ground arith

if_connected_iff :
    (state : RuntimeState) (m : Text) (a : Answer) (route : ResolvedRoute)
    → (if_connected state m a ≡ ok route)
      ↔ ((a ≡ resolved route) × (is_connected state route.provider.name ≡ true))
unfolding if_connected
if_connected_iff state m (refused e) route = ground arith
if_connected_iff state m panicked route = ground arith
if_connected_iff state m (resolved r) route = ground arith

overridden :
    (state : RuntimeState) (o : Option Text) (active : Text) (route : ResolvedRoute)
    → o ≡ some active
    → (by_override state o ≡ ok route) ↔ (
        (resolve_model state.router active (is_connected state) ≡ resolved route)
        × (is_connected state route.provider.name ≡ true))
unfolding by_override
overridden state none active route h = cc
overridden state (some m) active route h =
    rw⁻¹ (some_inj h)
      (if_connected_iff state m (resolve_model state.router m (is_connected state)) route)

or_none-some : (o p : Option Text) (active : Text) → o ≡ some active → or_none o p ≡ some active
or_none-some none p active h = cc
or_none-some (some m) p active h = h

by_sender-active :
    (state : RuntimeState) (sent active : Text) (route : ResolvedRoute)
    → state.config.defaults.active_model ≡ some active
    → (by_sender state sent (some false) ≡ ok route) ↔ (
        (resolve_model state.router active (is_connected state) ≡ resolved route)
        × (is_connected state route.provider.name ≡ true))
unfolding by_sender
by_sender-active state sent active route h =
    let chosen = state.config.defaults.active_model in
    let first = first_connected state state.config.providers in
    overridden state (or_none chosen first) active route (or_none-some chosen first active h)

-- Where an active model is set and enforced, a request is given exactly the route that the active
-- model resolves to, if its provider is connected, whatever model the client sends.
pub resolve_request-enforced :
    (state : RuntimeState) (sent : Option Text) (active : Text) (route : ResolvedRoute)
    → state.enforce_active_model ≡ true
    → state.config.defaults.active_model ≡ some active
    → (resolve_request state sent ≡ ok route) ↔ (
        (resolve_model state.router active (is_connected state) ≡ resolved route)
        × (is_connected state route.provider.name ≡ true))
unfolding resolve_request resolve_bare
resolve_request-enforced state sent active route h set =
    rw (client_sent-enforced state (client_model sent) h)
      (by_sender-active state (get_or (client_model sent) []) active route set)

-- The marker that keeps a model visible in a client's list changes nothing, on a model that does
-- not start with it already.
pub resolve_request-marker :
    (state : RuntimeState) (m : Text)
    → strip_prefix gateway_id_marker m ≡ none
    → resolve_request state (some (gateway_id_marker ++ m)) ≡ resolve_request state (some m)
unfolding resolve_request client_model
resolve_request-marker state m h = rw (strip_prefix-append gateway_id_marker m, h) refl

-- The lookup of the account that a request names.
abbrev pub named : Option Text → Option Text → Option Text
named header chosen = or_none header chosen

with_credentials-has :
    (o : Option Account) (a : Account)
    → with_credentials o ≡ some a
    → (o ≡ some a) × (a.has_credentials ≡ true)
with_credentials-has none a h = (ground arith, ground arith)
with_credentials-has (some b) a h = (ground arith, ground arith)

ok_or-some :
    (message : Text) (error : Text → ApiError) (o : Option Account) (a : Account)
    → ok_or message error o ≡ ok a
    → o ≡ some a
ok_or-some message error none a h = ground arith
ok_or-some message error (some b) a h = ground arith

err-ne-ok {ℓ} : {C : Type ℓ} {e : ApiError} {a : Account} → err e ≡ ok a → C
err-ne-ok h = cc

account_in-named :
    (accounts : Dict Account) (provider : Text) (header chosen : Option Text) (alias : Text)
    (a : Account)
    → named header chosen ≡ some alias
    → account_in accounts provider header chosen ≡ ok a
    → (lookup alias accounts ≡ some a) × (a.has_credentials ≡ true)
unfolding account_in
account_in-named accounts provider (some x) chosen alias a n h = rw (sym (some_inj n)) (
    with_credentials-has (lookup x accounts) a
      (ok_or-some _ bad_request (with_credentials (lookup x accounts)) a h))
account_in-named accounts provider none (some x) alias a n h = rw (sym (some_inj n)) (
    with_credentials-has (lookup x accounts) a
      (ok_or-some _ bad_request (with_credentials (lookup x accounts)) a h))
account_in-named accounts provider none none alias a n h = (ground arith, ground arith)

account_of-named :
    (o : Option (Dict Account)) (provider : Text) (header chosen : Option Text) (alias : Text)
    (a : Account)
    → named header chosen ≡ some alias
    → account_of o provider header chosen ≡ ok a
    → (a.has_credentials ≡ true)
      × ((accounts : Dict Account) × (o ≡ some accounts) × (lookup alias accounts ≡ some a))
unfolding account_of
account_of-named none provider header chosen alias a n h = err-ne-ok h
account_of-named (some accounts) provider header chosen alias a n h =
    let (l, c) = account_in-named accounts provider header chosen alias a n h in
    (c, (accounts, refl, l))

-- A request that names an account, by its header or its session, goes through that account, which
-- has a credential; the header wins.
pub account_for-named :
    (state : RuntimeState) (provider : Provider) (header chosen : Option Text) (alias : Text)
    (a : Account)
    → named header chosen ≡ some alias
    → account_for state provider header chosen ≡ ok a
    → (a.has_credentials ≡ true)
      × ((accounts : Dict Account) × (lookup provider.name state.accounts ≡ some accounts)
          × (lookup alias accounts ≡ some a))
unfolding account_for
account_for-named state provider header chosen alias a n h =
    account_of-named (lookup provider.name state.accounts) provider.name header chosen alias a n h
