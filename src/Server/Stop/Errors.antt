-- ===== src/Server/Stop/Errors.antt =====
-- What a stop of asyncio_tcp_server.py does, and what it raises, from the ends of its calls.
use aionetx.Base.{
  ◌≡◌, ◌⊎◌, All, Bool, true, false, Option, none, some, List, [], ◌∷◌, ◌++◌, if◌then◌else◌,
  Exception, cancelled_error,
}
use aionetx.Server.{StopPlan, StopProvenance, defers_terminal_events}
use aionetx.Server.Stop.{
  StopAction, closes_server, stops_heartbeat_senders, closes_connections, waits_closed,
  stops_dispatcher, stops_dispatcher_from_handler_origin, emits_lifecycle_event, StopCalls,
  Stopping,
}
use aionetx.Server.Stop.Traces.{first_raised, actions, one, Honest}

-- The error that a stop raises is that of its trace, unless it is a cancellation that is raised
-- behind the waiter.
abbrev pub Reports : Stopping → Type 0
Reports s =
    ((s.raise_cancel_after_stop_waiter ≡ false) × (s.first_error ≡ first_raised s.trace))
    ⊎ ((s.raise_cancel_after_stop_waiter ≡ true)
        × (s.first_error ≡ none)
        × (first_raised s.trace ≡ some cancelled_error))

-- What a stop does before it tears down: it tells of the stop, or leaves that for later.
abbrev pub announcement_of : StopPlan → StopProvenance → List StopAction
announcement_of plan p =
    if defers_terminal_events p
    then stops_dispatcher_from_handler_origin ∷ []
    else one emits_lifecycle_event plan.stopping_event

abbrev pub is_teardown : StopAction → Bool
is_teardown (closes_server k) = true
is_teardown (waits_closed k) = true
is_teardown (stops_heartbeat_senders ks) = true
is_teardown (closes_connections ks) = true
is_teardown (emits_lifecycle_event e) = false
is_teardown stops_dispatcher = false
is_teardown stops_dispatcher_from_handler_origin = false

-- Nothing among them is torn down.
abbrev pub SparesResources : List StopAction → Type 0
SparesResources = All (λ action. is_teardown action ≡ false)

-- What a stop raises.
abbrev pub Raises : (transition_error : Option Exception) → Stopping → Type 0
Raises none s = Reports s
Raises (some e) s = (s.raise_cancel_after_stop_waiter ≡ false) × (s.first_error ≡ some e)

-- What the last calls do to a stop; `error` is that of its transition to STOPPED.
record Finishes (error : Option Exception) (s s' : Stopping) : Type 0 where
  after : List StopAction
  spares : SparesResources after
  extends : actions s'.trace ≡ actions s.trace ++ after
  reports : Raises error s'

abbrev Plain : Stopping → Type 0
Plain s = (s.raise_cancel_after_stop_waiter ≡ false) × Honest s

-- The exception of the transition to STOPPED, where a stop makes it.
abbrev pub transition_error : StopCalls → StopPlan → Option Exception
transition_error calls plan =
    if plan.should_transition_to_stopped then calls.on_stopped_transition else none
