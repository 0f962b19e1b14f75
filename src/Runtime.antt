-- ===== src/Runtime.antt =====
-- src/application/runtime.rs: the instance's state and its sessions. What the ports give, a rebuilt
-- state or other accounts, comes with the step that takes it in; a rebuild that fails is no step.
-- A step is taken as a whole, under the locks of the source.
use local_proxy.Base.{
  false, Option, none, some, List, [], ◌∷◌, ◌≡◌, refl, arith, if◌then◌else◌, Text, text_eq,
  text_eq_iff, text_eq_refl, is_empty, Dict, lookup, insert, lookup-insert,
}
use local_proxy.Config.{Defaults}
use local_proxy.Json.{get_or}
use local_proxy.Proxy.{RuntimeState, Account}

pub record AppState : Type 0 where
  pub inner : RuntimeState
  pub sessions : Dict Defaults

abbrev pub defaults_of : RuntimeState → Defaults
defaults_of state = state.config.defaults

abbrev pub with_defaults : Defaults → RuntimeState → RuntimeState
with_defaults d state = record state { config = record state.config { defaults = d } }

abbrev pub launched_with : Option Text → RuntimeState → RuntimeState
launched_with none new = new
launched_with (some model) new =
    with_defaults (record (defaults_of new) { active_model = some model }) new

-- The launch flags of the old state, in the new one.
unfoldable pub carry_instance_state : (old new : RuntimeState) → RuntimeState
carry_instance_state old new = record (launched_with old.model_override new) {
  model_override = old.model_override;
  enforce_active_model = old.enforce_active_model;
}

-- `entry(session).or_insert_with(..)`, as it is in the map.
abbrev pub entry_or : Defaults → Text → Dict Defaults → Defaults
entry_or d session sessions = get_or (lookup session sessions) d

-- The state as the session sees it; a session that is new takes the instance's defaults.
unfoldable pub session_state : Text → AppState → RuntimeState × AppState
session_state session app =
    let d = entry_or (defaults_of app.inner) session app.sessions in
    if is_empty session
    then (app.inner, app)
    else (with_defaults d app.inner, record app { sessions = insert session d app.sessions })

unfoldable pub with_session : Text → (Defaults → Defaults) → AppState → AppState
with_session session change app =
    let d = entry_or (defaults_of app.inner) session app.sessions in
    if is_empty session
    then app
    else record app { sessions = insert session (change d) app.sessions }

unfoldable pub update_defaults : Text → (Defaults → Defaults) → AppState → AppState
update_defaults session change app =
    if is_empty session
    then record app { inner = with_defaults (change (defaults_of app.inner)) app.inner }
    else with_session session change app

unfoldable pub reload : RuntimeState → AppState → AppState
reload new app = record app { inner = carry_instance_state app.inner new }

-- Accounts that another process changed, where the connected providers stay the same.
unfoldable pub take_accounts : Dict (Dict Account) → AppState → AppState
take_accounts accounts app = record app { inner = record app.inner { accounts = accounts } }

-- What happens to an instance.
pub data Step : Type 0 where
  visited : (session : Text) → Step
  updated : (session : Text) → (Defaults → Defaults) → Step
  reloaded : RuntimeState → Step
  accounts_changed : Dict (Dict Account) → Step

unfoldable pub step : Step → AppState → AppState
step (visited session) app = (session_state session app).1
step (updated session change) app = update_defaults session change app
step (reloaded new) app = reload new app
step (accounts_changed accounts) app = take_accounts accounts app

unfoldable pub run : List Step → AppState → AppState
run [] app = app
run (s ∷ steps) app = run steps (step s app)

-- The changes that were made for a session, in order.
unfoldable pub changed : Text → List Step → Defaults → Defaults
changed session [] d = d
changed session (updated s change ∷ steps) d =
    changed session steps (if text_eq s session then change d else d)
changed session (visited s ∷ steps) d = changed session steps d
changed session (reloaded new ∷ steps) d = changed session steps d
changed session (accounts_changed accounts ∷ steps) d = changed session steps d

-- What one step leaves of a session.
abbrev after : Text → Step → Defaults → Defaults
after session (updated s change) d = if text_eq s session then change d else d
after session _ d = d

lookup-step :
    (session : Text) (s : Step) (app : AppState) (d : Defaults)
    → is_empty session ≡ false
    → lookup session app.sessions ≡ some d
    → lookup session (step s app).sessions ≡ some (after session s d)
unfolding step session_state update_defaults with_session reload take_accounts
lookup-step session (visited s) app d n h = ground (
  arith,
  lookup-insert s session (entry_or (defaults_of app.inner) s app.sessions) app.sessions,
  text_eq_iff s session,
)
lookup-step session (updated s change) app d n h = ground (
  arith,
  lookup-insert s session (change (entry_or (defaults_of app.inner) s app.sessions)) app.sessions,
  text_eq_iff s session,
)
lookup-step session (reloaded new) app d n h = h
lookup-step session (accounts_changed accounts) app d n h = h

lookup-run :
    (session : Text) (steps : List Step) (app : AppState) (d : Defaults)
    → is_empty session ≡ false
    → lookup session app.sessions ≡ some d
    → lookup session (run steps app).sessions ≡ some (changed session steps d)
unfolding run changed
lookup-run session [] app d n h = h
lookup-run session (updated s change ∷ steps) app d n h =
    lookup-run session steps (step (updated s change) app) (after session (updated s change) d) n
      (lookup-step session (updated s change) app d n h)
lookup-run session (visited s ∷ steps) app d n h =
    lookup-run session steps (step (visited s) app) d n (lookup-step session (visited s) app d n h)
lookup-run session (reloaded new ∷ steps) app d n h =
    lookup-run session steps (step (reloaded new) app) d n
      (lookup-step session (reloaded new) app d n h)
lookup-run session (accounts_changed accounts ∷ steps) app d n h =
    lookup-run session steps (step (accounts_changed accounts) app) d n
      (lookup-step session (accounts_changed accounts) app d n h)

lookup-session_state :
    (session : Text) (app : AppState)
    → is_empty session ≡ false
    → lookup session (session_state session app).1.sessions
      ≡ some (defaults_of (session_state session app).0)
unfolding session_state
lookup-session_state session app n = ground (
  arith,
  lookup-insert session session (entry_or (defaults_of app.inner) session app.sessions)
      app.sessions,
  text_eq_refl session,
)

defaults-session_state :
    (session : Text) (app : AppState) (d : Defaults)
    → is_empty session ≡ false
    → lookup session app.sessions ≡ some d
    → defaults_of (session_state session app).0 ≡ d
unfolding session_state
defaults-session_state session app d n h = rw (n, h) refl

-- Once a session was seen, whatever happens to the instance, to other sessions, to the configuration
-- and to the accounts, it sees the defaults that it saw then, with the changes that were made for
-- it since, in order, and no others.
pub session_state-frozen :
    (session : Text) (steps : List Step) (app : AppState)
    → is_empty session ≡ false
    → defaults_of (session_state session (run steps (session_state session app).1)).0
      ≡ changed session steps (defaults_of (session_state session app).0)
session_state-frozen session steps app n =
    defaults-session_state session (run steps (session_state session app).1)
      (changed session steps (defaults_of (session_state session app).0)) n
      (lookup-run session steps (session_state session app).1
        (defaults_of (session_state session app).0) n (lookup-session_state session app n))
