-- ===== src/Connection.antt =====
-- The connection to the server, frontend/src/hooks/useServerConnection.ts, with the mode of the
-- application in the child Mode. A call of `connect` that waits for an answer of the server is an
-- entry of `waiting`: its attempt, its target, and whether the answer is that of `api.health` or that
-- of `api.capabilities`. Capabilities are of a type `C`.
pub mod Mode
pub mod Laws
pub mod Superseded
mod Tests
use my_paraview_web.Common.{
  ℕ, ◌+◌, Bool, true, false, not, ◌&&◌, ◌||◌, Option, none, some, List, [], ◌∷◌, ◌++◌, map, any,
  filter, ◌==◌, if◌then◌else◌,
}
use my_paraview_web.Common.Eq.{Text}
use my_paraview_web.Common.Result.{Result, ok, err}
use my_paraview_web.Connection.Mode.{
  AppMode, static, server, ConnectionConfig, Url, Thrown, FailureKind, invalid_url, client_base_of,
  non_empty, normalize_api_base, read_stored_api_base, write_stored_api_base,
  classify_connection_error,
}

pub data Status : Type 0 where
  disconnected connecting connected failed : Status

pub record Failure : Type 0 where
  pub kind : FailureKind
  pub detail : Text

pub data Phase : Type 0 where
  health capabilities : Phase

pub record Waiting : Type 0 where
  pub attempt : ℕ
  pub target : Text
  pub phase : Phase

pub record Connection (C : Type 0) : Type 0 where
  pub mode : AppMode
  pub api_base : Option Text
  -- `apiBase` of frontend/src/api.ts
  pub client_base : Option Text
  pub status : Status
  pub failure : Option Failure
  pub capabilities : Option C
  pub epoch : ℕ
  pub suggested : Text
  -- `attemptRef.current`
  pub attempt : ℕ
  pub waiting : List Waiting
  pub storage : Option (Option Text)

pub data Event (C : Type 0) : Type 0 where
  connect : Text → Event C
  retry disconnect : Event C
  -- the answers to an attempt
  health_answered : ℕ → Result Thrown (Unit {0}) → Event C
  capabilities_answered : ℕ → Option C → Event C

abbrev pub same_phase : Phase → Phase → Bool
same_phase health health = true
same_phase capabilities capabilities = true
same_phase _ _ = false

abbrev pub waits : ℕ → Phase → List Waiting → Bool
waits n phase = any (λ w. w.attempt == n && same_phase w.phase phase)

abbrev pub without : ℕ → List Waiting → List Waiting
without n = filter (λ w. not (w.attempt == n))

abbrev pub asks_capabilities : ℕ → Waiting → Waiting
asks_capabilities n w = if w.attempt == n then record w { phase = capabilities } else w

abbrev pub or_failed : Status → Status
or_failed connected = connected
or_failed _ = failed

-- `writeStoredApiBase(storage(), normalized)`
abbrev pub store_target : ℕ → List Waiting → Option (Option Text) → Option (Option Text)
store_target n [] storage = storage
store_target n (w ∷ ws) storage =
    if w.attempt == n then write_stored_api_base storage w.target else store_target n ws storage

-- `apiBase ?? getApiBase() ?? suggestedApiBase`
abbrev pub retry_target : Option Text → Option Text → Text → Text
retry_target (some base) client suggested = base
retry_target none (some base) suggested = base
retry_target none none suggested = suggested

abbrev pub text_or_none : Option Text → Option Text → Text
text_or_none (some base) stored = base
text_or_none none (some base) = base
text_or_none none none = []

module _ {C : Type 0} where
  -- `connect` with what the target is normalized to
  unfoldable pub connect_to : Text → Option Text → Connection C → Connection C
  connect_to target none s = record s {
    status = or_failed s.status;
    failure = some (record { kind = invalid_url; detail = target });
  }
  connect_to target (some base) s = record s {
    attempt = s.attempt + 1;
    client_base = client_base_of (some base);
    api_base = some base;
    suggested = base;
    mode = server;
    status = connecting;
    failure = none;
    waiting = s.waiting ++ record { attempt = s.attempt + 1; target = base; phase = health } ∷ [];
  }

  -- `if (attempt !== attemptRef.current) return false`
  abbrev pub given_up : ℕ → Connection C → Connection C
  given_up n s = record s { waiting = without n s.waiting }

  abbrev pub connection_failed : ℕ → Thrown → Connection C → Connection C
  connection_failed n e s = record s {
    capabilities = none;
    status = failed;
    failure = some (record { kind = classify_connection_error e; detail = e.printed });
    waiting = without n s.waiting;
  }

  abbrev pub answer_health : ℕ → Result Thrown (Unit {0}) → Connection C → Connection C
  answer_health n (ok tt) s = record s { waiting = map (asks_capabilities n) s.waiting }
  answer_health n (err e) s = connection_failed n e s

  abbrev pub connection_made : ℕ → Option C → Connection C → Connection C
  connection_made n answer s = record s {
    capabilities = answer;
    status = connected;
    epoch = s.epoch + 1;
    storage = store_target n s.waiting s.storage;
    waiting = without n s.waiting;
  }

  unfoldable pub health_answer : ℕ → Result Thrown (Unit {0}) → Connection C → Connection C
  health_answer n r s =
      if not (waits n health s.waiting)
      then s
      else (if n == s.attempt then answer_health n r s else given_up n s)

  unfoldable pub capabilities_answer : ℕ → Option C → Connection C → Connection C
  capabilities_answer n r s =
      if not (waits n capabilities s.waiting)
      then s
      else (if n == s.attempt then connection_made n r s else given_up n s)

  unfoldable pub disconnect_server : Connection C → Connection C
  disconnect_server s = record s {
    attempt = s.attempt + 1;
    client_base = none;
    api_base = none;
    mode = static;
    status = disconnected;
    failure = none;
    capabilities = none;
  }

  module _ (parse_url : Text → Option Url) where
    abbrev pub connect_server : Text → Connection C → Connection C
    connect_server target s = connect_to target (non_empty (normalize_api_base parse_url target)) s

    unfoldable pub connection_step : Connection C → Event C → Connection C
    unfolding connect_to health_answer capabilities_answer disconnect_server
    connection_step s (connect target) = connect_server target s
    connection_step s retry = connect_server (retry_target s.api_base s.client_base s.suggested) s
    connection_step s disconnect = disconnect_server s
    connection_step s (health_answered n r) = health_answer n r s
    connection_step s (capabilities_answered n r) = capabilities_answer n r s

    unfoldable pub connection_run : Connection C → List (Event C) → Connection C
    unfolding connection_step
    connection_run s [] = s
    connection_run s (e ∷ es) = connection_run (connection_step s e) es

    -- The state when the page opens, before the effect that connects by itself.
    unfoldable pub opened : ConnectionConfig → Option Text → Option (Option Text) → Connection C
    opened config client storage = record {
      mode = config.mode;
      api_base = config.api_base;
      client_base = client;
      status = disconnected;
      failure = none;
      capabilities = none;
      epoch = 0;
      suggested = text_or_none config.api_base (read_stored_api_base parse_url storage);
      attempt = 0;
      waiting = [];
      storage = storage;
    }

    abbrev pub connect_if : Bool → Option Text → Connection C → Connection C
    connect_if true (some base) s = connect_server base s
    connect_if _ _ s = s

    -- The effect: `if (config.autoConnect && config.apiBase) void connect(config.apiBase)`
    unfoldable pub started : ConnectionConfig → Option Text → Option (Option Text) → Connection C
    unfolding opened connect_to
    started config client storage =
        connect_if config.auto_connect (non_empty config.api_base) (opened config client storage)
