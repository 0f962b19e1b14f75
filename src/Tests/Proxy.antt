-- ===== src/Tests/Proxy.antt =====
-- The proxy's choices at a concrete state.
use local_proxy.Base.{
  Text, true, false, Bool, none, some, [], ◌∷◌, ◌++◌, ◌≡◌, refl, codes, Dict, text_eq, lookup,
  insert, List, contains_text, starts_with, strip_prefix, strip_suffix, split_once, byte_len, ◌↔◌,
}
use local_proxy.Config.{Defaults}
use local_proxy.Proxy.{
  RuntimeState, Account, ok, authenticate, check_key, is_connected, gateway_id_marker, client_model,
  client_sent, passes_gateway_filter, first_connected, if_connected, by_override, by_sender,
  resolve_bare, resolve_request, account_in, account_of, account_for,
}
use local_proxy.Proxy.Access.{
  admitted, authenticate_iff, resolve_request-connected, resolve_request-enforced,
  resolve_request-marker, account_for-named,
}
use local_proxy.Router.Resolve.{
  ResolvedRoute, resolved, resolve_model_impl, resolve_stripped, resolve_client_model,
  resolve_model, resolve_route, resolve_rest, best_prefix, native,
}
use local_proxy.Runtime.{
  AppState, Step, defaults_of, session_state, run, step, update_defaults, with_session, reload,
  carry_instance_state, changed, session_state-frozen,
}
use local_proxy.Tests.Router.{plain, sample, sample_router}

proxy : Unit {0}
unfolding codes text_eq lookup contains_text starts_with strip_prefix strip_suffix split_once
    byte_len authenticate check_key is_connected client_model client_sent passes_gateway_filter
    first_connected if_connected by_override by_sender resolve_bare resolve_request account_in
    account_of account_for resolve_model_impl resolve_stripped resolve_client_model resolve_model
    resolve_route resolve_rest best_prefix native
proxy = tt

abbrev stored : Account
stored = record { provider = b'q' ∷ []; alias = b'a' ∷ []; has_credentials = true }

abbrev state_with : Bool → RuntimeState
state_with enforced = record {
  config = sample;
  router = sample_router;
  accounts = (b'q' ∷ [], (b'a' ∷ [], stored) ∷ []) ∷ [];
  enforce_active_model = enforced;
  model_override = none;
  config_path = [];
}

abbrev found : ResolvedRoute
found = record { provider = plain (b'q' ∷ []); upstream_model = b'm' ∷ []; reasoning_effort = none }

resolve_request-connected_example : is_connected (state_with false) (b'q' ∷ []) ≡ true
unfolding proxy
resolve_request-connected_example =
    resolve_request-connected (state_with false) (some (b'm' ∷ [])) found refl

abbrev pinned : RuntimeState
pinned = record (state_with true) {
  config = record sample { defaults = record sample.defaults { active_model = some (b'm' ∷ []) } };
}

resolve_request-enforced_example : (resolve_request pinned (some (b'x' ∷ [])) ≡ ok found) ↔ (
    (resolve_model sample_router (b'm' ∷ []) (is_connected pinned) ≡ resolved found)
    × (is_connected pinned (b'q' ∷ []) ≡ true))
resolve_request-enforced_example =
    resolve_request-enforced pinned (some (b'x' ∷ [])) (b'm' ∷ []) found refl refl

resolve_request-marker_example :
    resolve_request (state_with false) (some (gateway_id_marker ++ b'm' ∷ []))
    ≡ resolve_request (state_with false) (some (b'm' ∷ []))
unfolding proxy
resolve_request-marker_example = resolve_request-marker (state_with false) (b'm' ∷ []) refl

abbrev key : Text
key = b'k' ∷ []

authenticate_iff_example :
    (authenticate (state_with false) (some key) ≡ ok (some key))
    ↔ ((admitted [] (some key) ≡ true) × (some key ≡ some key))
authenticate_iff_example = authenticate_iff (state_with false) (some key) (some key)

account_for-named_example :
    (stored.has_credentials ≡ true)
    × ((accounts : Dict Account) × (lookup (b'q' ∷ []) (state_with false).accounts ≡ some accounts)
        × (lookup (b'a' ∷ []) accounts ≡ some stored))
unfolding proxy
account_for-named_example =
    account_for-named (state_with false) (plain (b'q' ∷ [])) (some (b'a' ∷ [])) none (b'a' ∷ [])
      stored refl refl

-- A session is seen, then its model is changed, then another session's and the instance's, and the
-- configuration is loaded again.
abbrev with_model : Text → Defaults → Defaults
with_model m d = record d { active_model = some m }

abbrev busy : List Step
busy =
    Step.updated (b's' ∷ []) (with_model (b'm' ∷ []))
    ∷ Step.updated (b't' ∷ []) (with_model (b'n' ∷ []))
    ∷ Step.updated [] (with_model (b'o' ∷ []))
    ∷ Step.reloaded (state_with true)
    ∷ Step.visited (b't' ∷ [])
    ∷ []

abbrev instance_state : AppState
instance_state = record { inner = state_with false; sessions = [] }

session_state-frozen_example :
    defaults_of
      (session_state (b's' ∷ []) (run busy (session_state (b's' ∷ []) instance_state).1)).0
    ≡ changed (b's' ∷ []) busy (defaults_of (session_state (b's' ∷ []) instance_state).0)
session_state-frozen_example = session_state-frozen (b's' ∷ []) busy instance_state refl

-- So the session has its own model.
own_model :
    (defaults_of
      (session_state
        (b's' ∷ [])
        (run busy (session_state (b's' ∷ []) instance_state).1)).0).active_model
    ≡ some (b'm' ∷ [])
unfolding session_state run step update_defaults with_session reload carry_instance_state lookup
    insert text_eq
own_model = refl
