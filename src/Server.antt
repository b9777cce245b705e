-- ===== src/Server.antt =====
-- The TCP server (asyncio_tcp_server.py, _tcp_server_stop_state.py): its state, its registry of
-- connections and heartbeat senders, and the tasks that stop it.
pub mod Dictionary
pub mod Registry
pub mod Sections
pub mod Steps
pub mod Invariant
pub mod Guarantees
pub mod Stop
pub mod Listen
pub mod Broadcast
mod Tests
use aionetx.Base.{
  ℕ, suc, String, Bool, true, false, not, ◌&&◌, Option, none, some, List, [], ◌∷◌, if◌then◌else◌,
  str_eq, is_some, map, ◌||◌,
}
use aionetx.Lifecycle.{
  ComponentLifecycleState, stopped, ComponentLifecycleChangedEvent, Publisher, tcp_server,
}
use aionetx.Dispatcher.State.{Dispatcher}

-- Connections, heartbeat senders and the listening server are numbers. The dictionaries are kept as
-- lists, in the order of insertion.
pub record TcpServer (F : Type 0) : Type 0 where
  pub component_id : String
  pub max_connections : ℕ
  pub server : Option ℕ
  pub has_started : Bool
  pub status_changed : Bool
  pub status_version : ℕ
  pub lifecycle_state : ComponentLifecycleState
  pub connections : List (String × ℕ)
  pub heartbeat_senders : List (String × ℕ)
  pub connection_sequence : ℕ
  pub stop_waiter : Option ℕ
  pub dispatcher : Dispatcher F

-- `_TcpServerStopPlan`, of a stop that owns it.
pub record StopPlan : Type 0 where
  pub stop_waiter : ℕ
  pub owns_stop : Bool
  pub server : Option ℕ
  pub stopping_event : Option ComponentLifecycleChangedEvent
  pub should_transition_to_stopped : Bool
  pub heartbeat_senders : List ℕ
  pub connections : List ℕ

-- `_TcpServerStopProvenance`.
pub record StopProvenance : Type 0 where
  pub handler_originated : Bool
  pub active_inline_handler : Bool

abbrev pub defers_terminal_events : StopProvenance → Bool
defers_terminal_events p = p.handler_originated || p.active_inline_handler

-- A dictionary with texts for keys: `key in d`, `d[key] = value`, `d.pop(key, None)`, `d.values()`.
abbrev pub has_key : String → List (String × ℕ) → Bool
has_key k [] = false
has_key k ((j, v) ∷ entries) = str_eq k j || has_key k entries

abbrev pub insert : String → ℕ → List (String × ℕ) → List (String × ℕ)
insert k v [] = (k, v) ∷ []
insert k v ((j, u) ∷ entries) =
    let rest = insert k v entries in if str_eq k j then (j, v) ∷ entries else (j, u) ∷ rest

abbrev pub remove : String → List (String × ℕ) → List (String × ℕ)
remove k [] = []
remove k ((j, u) ∷ entries) =
    let rest = remove k entries in if str_eq k j then rest else (j, u) ∷ rest

abbrev pub lookup : String → List (String × ℕ) → Option ℕ
lookup k [] = none
lookup k ((j, u) ∷ entries) = if str_eq k j then some u else lookup k entries

abbrev value_of : String × ℕ → ℕ
value_of e = e.1

abbrev pub values : List (String × ℕ) → List ℕ
values entries = map value_of entries

module _ {F : Type 0} where
  -- `_notify_status_changed`.
  unfoldable pub notify_status_changed : TcpServer F → TcpServer F
  notify_status_changed s = record s {
    status_version = suc s.status_version;
    status_changed = true;
  }

  abbrev pub set_state : ComponentLifecycleState → TcpServer F → TcpServer F
  set_state t s = record s { lifecycle_state = t }

  -- The publisher that `__init__` builds.
  unfoldable pub publisher : (component_id : String) → Publisher (TcpServer F)
  unfolding notify_status_changed
  publisher component_id = record {
    resource_id = component_id;
    role = tcp_server;
    get_state = λ s. s.lifecycle_state;
    set_state = set_state;
    on_state_applied = some (λ t s. notify_status_changed s);
  }

  -- `__init__`, behind its validation.
  unfoldable pub new_server : String → ℕ → Dispatcher F → TcpServer F
  new_server component_id max_connections d = record {
    component_id = component_id;
    max_connections = max_connections;
    server = none;
    has_started = false;
    status_changed = false;
    status_version = 0;
    lifecycle_state = stopped;
    connections = [];
    heartbeat_senders = [];
    connection_sequence = 0;
    stop_waiter = none;
    dispatcher = d;
  }
