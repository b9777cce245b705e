-- ===== src/Server/Stop.antt =====
-- `_execute_owned_stop` of asyncio_tcp_server.py with the helpers that it calls, and the ends of
-- `stop`. Each call of others comes with how it ends: none, or the exception that it raises, a
-- CancelledError included.
pub mod Traces
pub mod Errors
use aionetx.Base.{
  ℕ, ◌≡◌, ◌⊎◌, inl, inr, refl, Bool, true, false, not, ◌&&◌, ◌||◌, Option, none, some, List, [],
  ◌∷◌, ◌++◌, if◌then◌else◌, is_some, is_none, Exception, cancelled_error, arith, Bool-cases, map,
  ◌∙◌, sym, ap,
}
use aionetx.Lifecycle.{ComponentLifecycleChangedEvent}
use aionetx.Server.{StopPlan, StopProvenance, defers_terminal_events}

pub data StopAction : Type 0 where
  stops_dispatcher_from_handler_origin stops_dispatcher : StopAction
  emits_lifecycle_event : ComponentLifecycleChangedEvent → StopAction
  closes_server waits_closed : ℕ → StopAction
  stops_heartbeat_senders closes_connections : List ℕ → StopAction

-- How the calls end.
pub record StopCalls : Type 0 where
  pub on_handler_origin_stop : Option Exception
  pub on_stopping_event : Option Exception
  pub on_server_close : Option Exception
  pub on_heartbeat_senders : Option Exception
  pub on_connections : Option Exception
  pub on_wait_closed : Option Exception
  -- The lock that `_apply_stopped_transition_for_stop` waits for.
  pub on_stopped_transition : Option Exception
  pub on_stopped_event : Option Exception
  pub on_dispatcher_stop : Option Exception

-- What was done, with the ends; the first error; and the flags of `_TcpServerStopExecutionState`.
pub record Stopping : Type 0 where
  pub trace : List (StopAction × Option Exception)
  pub first_error : Option Exception
  pub dispatcher_stopped_from_handler_origin : Bool
  pub stop_waiter_completion_deferred : Bool
  pub raise_cancel_after_stop_waiter : Bool

abbrev pub begun : Stopping
begun = record {
  trace = [];
  first_error = none;
  dispatcher_stopped_from_handler_origin = false;
  stop_waiter_completion_deferred = false;
  raise_cancel_after_stop_waiter = false;
}

-- `if first_error is None: first_error = error`.
abbrev pub keep_first : Option Exception → Option Exception → Option Exception
keep_first none error = error
keep_first (some first) error = some first

-- `try: … except (Exception, CancelledError) as error: …`.
abbrev pub attempt : StopAction → Option Exception → Stopping → Stopping
attempt action end s = record s {
  trace = s.trace ++ (action, end) ∷ [];
  first_error = keep_first s.first_error end;
}

-- The same for what may not be there, or may be empty.
abbrev pub attempt_for :
    {A : Type 0} → (A → StopAction) → Option A → Option Exception → Stopping → Stopping
attempt_for action none end s = s
attempt_for action (some x) end s = attempt (action x) end s

abbrev pub attempt_all : (List ℕ → StopAction) → List ℕ → Option Exception → Stopping → Stopping
attempt_all action [] end s = s
attempt_all action (x ∷ xs) end s = attempt (action (x ∷ xs)) end s

-- `_emit_stop_started_event`; an event that is None is not emitted.
unfoldable pub emit_stop_started_event : StopCalls → StopPlan → Stopping → Stopping
emit_stop_started_event calls plan =
    attempt_for emits_lifecycle_event plan.stopping_event calls.on_stopping_event

-- `_stop_dispatcher_from_handler_origin`.
unfoldable pub stop_dispatcher_from_handler_origin : StopCalls → Stopping → Stopping
stop_dispatcher_from_handler_origin calls s =
    let s' = attempt stops_dispatcher_from_handler_origin calls.on_handler_origin_stop s in
    record s' {
      dispatcher_stopped_from_handler_origin =
          is_none calls.on_handler_origin_stop || s.dispatcher_stopped_from_handler_origin;
    }

-- `_teardown_server_stop_resources`.
unfoldable pub teardown_server_stop_resources : StopCalls → StopPlan → Stopping → Stopping
teardown_server_stop_resources calls plan s =
    let closed = attempt_for closes_server plan.server calls.on_server_close s in
    let quiet =
      attempt_all stops_heartbeat_senders plan.heartbeat_senders calls.on_heartbeat_senders
        closed in
    let empty = attempt_all closes_connections plan.connections calls.on_connections quiet in
    attempt_for waits_closed plan.server calls.on_wait_closed empty

-- `_schedule_deferred_stop_events`.
abbrev pub schedule_deferred_stop_events : Stopping → Stopping
schedule_deferred_stop_events s = record s { stop_waiter_completion_deferred = true }

abbrev pub is_cancelled : Option Exception → Bool
is_cancelled (some cancelled_error) = true
is_cancelled _ = false

abbrev pub forgive_cancel : Bool → Stopping → Stopping
forgive_cancel true s = record s { raise_cancel_after_stop_waiter = true; first_error = none }
forgive_cancel false s = s

abbrev pub schedule_if_clean : Stopping → Stopping
schedule_if_clean s = if is_none s.first_error then schedule_deferred_stop_events s else s

-- `_finish_stop_with_dispatcher`.
unfoldable pub finish_stop_with_dispatcher :
    StopCalls → StopProvenance → Option ComponentLifecycleChangedEvent → Stopping → Stopping
finish_stop_with_dispatcher calls p stopped_event s =
    let published =
      if is_none s.first_error
      then attempt_for emits_lifecycle_event stopped_event calls.on_stopped_event s
      else s in
    if defers_terminal_events p
    then schedule_if_clean
        (forgive_cancel (p.active_inline_handler && is_cancelled s.first_error) s)
    else attempt stops_dispatcher calls.on_dispatcher_stop published

-- The last branch of `_execute_owned_stop`: a server that was down already.
unfoldable pub schedule_without_event : StopCalls → Stopping → Stopping
unfolding stop_dispatcher_from_handler_origin
schedule_without_event calls s = schedule_if_clean (
    if s.dispatcher_stopped_from_handler_origin
    then s
    else stop_dispatcher_from_handler_origin calls s)

-- `_apply_stopped_transition_for_stop`, and `_finish_stop_with_dispatcher` behind it: an exception
-- of the former is not caught, and takes the place of the first error.
abbrev pub finish_after_transition :
    (on_stopped_transition : Option Exception)
    → (torn_down : Stopping) → (finished : Stopping) → Stopping
finish_after_transition none torn_down finished = finished
finish_after_transition (some e) torn_down finished = record torn_down { first_error = some e }

-- `_execute_owned_stop`, which raises the first error; `stopped_event` is what
-- `_apply_stopped_transition_for_stop` gives.
unfoldable pub execute_owned_stop :
    StopCalls
    → StopPlan
    → StopProvenance
    → (stopped_event : Option ComponentLifecycleChangedEvent) → Stopping
unfolding stop_dispatcher_from_handler_origin emit_stop_started_event teardown_server_stop_resources
    finish_stop_with_dispatcher schedule_without_event
execute_owned_stop calls plan p stopped_event =
    let announced =
      if defers_terminal_events p
      then stop_dispatcher_from_handler_origin calls begun
      else emit_stop_started_event calls plan begun in
    let torn_down = teardown_server_stop_resources calls plan announced in
    if plan.should_transition_to_stopped
    then finish_after_transition calls.on_stopped_transition torn_down
        (finish_stop_with_dispatcher calls p stopped_event torn_down)
    else (if defers_terminal_events p && is_none torn_down.first_error
        then schedule_without_event calls torn_down
        else torn_down)

-- How `stop` leaves its waiter: settled, or left to the task that completes it later.
unfoldable pub settles_waiter_itself : StopProvenance → (has_waiters : Bool) → Stopping → Bool
settles_waiter_itself p has_waiters s =
    not s.stop_waiter_completion_deferred
    && (is_some s.first_error || not (defers_terminal_events p && has_waiters))
