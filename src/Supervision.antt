-- ===== src/Supervision.antt =====
-- The supervision of a TCP client: tcp_client_supervision.py, with the client's members that it
-- uses. What other tasks, handlers and the transport do while the supervisor awaits is a function on
-- the client, of which `Cycle` has one for every await; `trace` lists what has been called.
pub mod Steps
pub mod Run
pub mod Order
pub mod Report
pub mod Failures
pub mod Finish
mod Tests
use aionetx.Base.{
  ℕ, suc, ◌+◌, String, Bool, true, false, not, ◌&&◌, ◌||◌, Option, none, some, List, [], ◌∷◌, ◌++◌,
  Exception, runtime_error, Result, ok, err, if◌then◌else◌, is_some,
}
use aionetx.Lifecycle.{
  ComponentLifecycleState, stopped, starting, running, stopping, ComponentLifecycleChangedEvent,
  Publisher, tcp_client, same_state, collect_terminal_lifecycle_events,
}
use aionetx.Events.{
  ConnectionState, closed, NetworkEvent, network_error, component_lifecycle_changed,
  reconnect_attempt_started, reconnect_attempt_failed, reconnect_scheduled,
}
use aionetx.Runtime.Floats.{Floats}
use aionetx.Runtime.Backoff.{TcpReconnectSettings, ReconnectBackoff, reset, next_delay}

pub data ErrorPolicy : Type 0 where
  retry fail_fast ignore : ErrorPolicy

abbrev pub is_fail_fast : ErrorPolicy → Bool
is_fail_fast fail_fast = true
is_fail_fast _ = false

abbrev pub is_ignore : ErrorPolicy → Bool
is_ignore ignore = true
is_ignore _ = false

-- `error_policy` and `reconnect` are the fields of `_settings` of these names.
pub record TcpClient (F : Type 0) : Type 0 where
  pub attempt_counter : ℕ
  pub backoff : ReconnectBackoff F
  pub component_id : String
  pub connection : Option ConnectionState
  pub last_connect_error : Option Exception
  pub lifecycle_state : ComponentLifecycleState
  pub is_running : Bool
  pub error_policy : Option ErrorPolicy
  pub reconnect : TcpReconnectSettings F
  pub stop_waiter : Option ℕ
  pub status_changed : Bool
  pub status_version : ℕ
  pub connection_closed_event : Bool

-- What the supervisor calls of others.
pub data Action (F : Type 0) : Type 0 where
  emits : NetworkEvent F → Action F
  connects stops_heartbeat_sender closes_connection stops_dispatcher : Action F

pub record Supervised (F : Type 0) : Type 0 where
  pub client : TcpClient F
  pub trace : List (Action F)

-- How an awaited call ends; `waiting`: it has not ended within the waits that are given.
pub data Outcome (A : Type 0) : Type 0 where
  done : A → Outcome A
  raised : Exception → Outcome A
  cancelled waiting : Outcome A

-- What happens during an await.
abbrev pub Await : Type 0 → Type 0
Await F = TcpClient F → TcpClient F × Outcome Unit

-- What happens during the awaits of one cycle, and the number that is drawn for its delay.
pub record Cycle (F : Type 0) : Type 0 where
  pub on_attempt_started : Await F
  pub on_connect : Await F
  pub on_waits : List (Await F)
  pub on_network_error : Await F
  pub on_attempt_failed : Await F
  pub on_stop_heartbeat_sender : Await F
  pub on_close_connection : Await F
  pub on_reconnect_scheduled : Await F
  pub on_delay : Await F
  pub uniform : F → F → F

-- What happens during the awaits of `_finalize_supervision`.
pub record Final (F : Type 0) : Type 0 where
  pub on_stop_heartbeat_sender : Await F
  pub on_close_connection : Await F
  pub on_lifecycle_event : Await F
  pub on_stop_dispatcher : Await F

-- `_ReconnectPlan`.
pub record ReconnectPlan (F : Type 0) : Type 0 where
  pub should_reconnect : Bool
  pub delay_seconds : Option F

pub record FailureOutcome (F : Type 0) : Type 0 where
  pub policy : ErrorPolicy
  pub plan : ReconnectPlan F

infixl 5 ◌>>=◌
abbrev pub ◌>>=◌ :
    {F A B : Type 0}
    → Supervised F × Outcome A
    → (Supervised F × A → Supervised F × Outcome B)
    → Supervised F × Outcome B
(s, done a) >>= f = f (s, a)
(s, raised e) >>= f = (s, raised e)
(s, cancelled) >>= f = (s, cancelled)
(s, waiting) >>= f = (s, waiting)
