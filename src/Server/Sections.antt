-- ===== src/Server/Sections.antt =====
-- `start` and `stop` of asyncio_tcp_server.py, with `_plan_stop` and the rollback of a start: each
-- function is one hold of the state lock. A call that raises leaves what it did before.
use aionetx.Base.{
  ℕ, Bool, true, false, not, ◌&&◌, ◌||◌, Option, none, some, [], if◌then◌else◌, Result, ok, err,
  is_some,
}
use aionetx.Lifecycle.{
  ComponentLifecycleState, stopped, starting, running, stopping, same_state,
  ComponentLifecycleChangedEvent, apply, apply_stopping_transition_if_active,
  apply_stopped_transition_if_stopping,
}
use aionetx.Dispatcher.Context.{
  TaskContext, current_task_has_handler_origin_context,
  current_task_inherits_handler_origin_context, current_task_is_dispatching_handler,
  has_active_handler_context, current_task_would_deliver_inline,
}
use aionetx.Dispatcher.Queue.{start}
use aionetx.Connection.{is_same}
use aionetx.Server.{TcpServer, StopPlan, StopProvenance, publisher, notify_status_changed, values}

abbrev is_starting_or_running : ComponentLifecycleState → Bool
is_starting_or_running t = same_state t starting || same_state t running

abbrev waits_for : ℕ → StopPlan
waits_for waiter = record {
  stop_waiter = waiter;
  owns_stop = false;
  server = none;
  stopping_event = none;
  should_transition_to_stopped = false;
  heartbeat_senders = [];
  connections = [];
}

module _ {F : Type 0} where
  -- `_apply_lifecycle_state`: the server is kept where it raises.
  unfoldable pub apply_lifecycle_state :
      ComponentLifecycleState
      → TcpServer F
      → TcpServer F × Result (Option ComponentLifecycleChangedEvent)
  unfolding publisher apply
  apply_lifecycle_state t s = elim (apply (publisher s.component_id) t s) [
    | err e ↦ (s, err e)
    | ok (event, s') ↦ (s', ok event)
  ]

  abbrev notify_if_applied :
      TcpServer F × Result (Option ComponentLifecycleChangedEvent)
      → TcpServer F × Result (Option ComponentLifecycleChangedEvent)
  unfolding notify_status_changed
  notify_if_applied (s, err e) = (s, err e)
  notify_if_applied (s, ok event) = (notify_status_changed s, ok event)

  -- `start`, its first section: none where it returns at once. `worker` is the task that the
  -- dispatcher may create.
  unfoldable pub start_section :
      (worker : ℕ)
      → TcpServer F
      → TcpServer F × Option (Result (Option ComponentLifecycleChangedEvent))
  unfolding apply_lifecycle_state notify_status_changed
  start_section worker s =
      let begun = record s { has_started = true; dispatcher = start worker s.dispatcher } in
      let (s', r) = notify_if_applied (apply_lifecycle_state starting begun) in
      if is_starting_or_running s.lifecycle_state then (s, none) else (s', some r)

  -- Behind the STARTING event: whether a stop came between.
  unfoldable pub startup_was_stopped : TcpServer F → Bool
  startup_was_stopped s = not (same_state s.lifecycle_state starting)

  -- Behind `asyncio.start_server`: none where a stop came between, and the new server is closed.
  unfoldable pub bound_section :
      (server : ℕ)
      → TcpServer F
      → TcpServer F × Option (Result (Option ComponentLifecycleChangedEvent))
  unfolding apply_lifecycle_state notify_status_changed
  bound_section server s =
      let (s', r) =
        notify_if_applied (apply_lifecycle_state running (record s { server = some server })) in
      if not (same_state s.lifecycle_state starting) then (s, none) else (s', some r)

  -- The same, where the socket or the server could not be made.
  unfoldable pub bind_failed_section :
      TcpServer F → TcpServer F × Result (Option ComponentLifecycleChangedEvent)
  unfolding apply_lifecycle_state
  bind_failed_section s = apply_lifecycle_state stopped (record s { server = none })

  abbrev roll_back_state : ComponentLifecycleState → TcpServer F → TcpServer F
  unfolding apply_lifecycle_state
  roll_back_state running s = (apply_lifecycle_state stopped (apply_lifecycle_state stopping s).0).0
  roll_back_state starting s = (apply_lifecycle_state stopped s).0
  roll_back_state _ s = s

  -- `_rollback_failed_startup`: the server to close, too. None of its transitions raises.
  unfoldable pub rollback_section : TcpServer F → TcpServer F × Option ℕ
  unfolding apply_lifecycle_state notify_status_changed
  rollback_section s = (
    notify_status_changed (roll_back_state s.lifecycle_state (record s { server = none })),
    s.server,
  )

  abbrev detach : TcpServer F → TcpServer F
  detach s = record s { heartbeat_senders = []; connections = [] }

  -- What is left to do once the lifecycle has moved; `held` is the listening server.
  abbrev owned_plan :
      (waiter : ℕ)
      → (held : Option ℕ) → TcpServer F
      → Result (Option ComponentLifecycleChangedEvent × TcpServer F)
      → TcpServer F × Result StopPlan
  owned_plan waiter held s (err e) = (s, err e)
  owned_plan waiter held s (ok (event, s')) = (
    detach s',
    ok (record {
      stop_waiter = waiter;
      owns_stop = true;
      server = held;
      stopping_event = event;
      should_transition_to_stopped = is_some event;
      heartbeat_senders = values s'.heartbeat_senders;
      connections = values s'.connections;
    }),
  )

  -- `_plan_stop`; `waiter` is the future that it creates, unless there is one.
  unfoldable pub plan_stop : (waiter : ℕ) → TcpServer F → TcpServer F × Result StopPlan
  unfolding apply_stopping_transition_if_active publisher
  plan_stop waiter s =
      let s' = record s { stop_waiter = some waiter; server = none } in
      elim s.stop_waiter [
        | some other ↦ (s, ok (waits_for other))
        | none ↦
            owned_plan waiter s.server s'
              (apply_stopping_transition_if_active (publisher s.component_id) s')
      ]

  -- `_apply_stopped_transition_for_stop`.
  unfoldable pub stopped_section :
      TcpServer F → TcpServer F × Result (Option ComponentLifecycleChangedEvent)
  unfolding apply_stopped_transition_if_stopping publisher
  stopped_section s = elim (apply_stopped_transition_if_stopping (publisher s.component_id) s) [
    | err e ↦ (s, err e)
    | ok (event, s') ↦ (s', ok event)
  ]

  -- `if self._stop_waiter is stop_waiter: self._stop_waiter = None`.
  unfoldable pub release_section : (waiter : ℕ) → TcpServer F → TcpServer F
  release_section waiter s = record s {
    stop_waiter = if is_same s.stop_waiter (some waiter) then none else s.stop_waiter;
  }

  -- `_current_stop_is_handler_originated`.
  unfoldable pub stop_is_handler_originated : TaskContext → TcpServer F → Bool
  unfolding current_task_is_dispatching_handler current_task_has_handler_origin_context
      current_task_inherits_handler_origin_context
  stop_is_handler_originated ctx s =
      current_task_is_dispatching_handler none ctx s.dispatcher
      || (current_task_has_handler_origin_context none ctx s.dispatcher
          || current_task_inherits_handler_origin_context none ctx s.dispatcher)

  -- `_capture_stop_provenance`.
  unfoldable pub capture_stop_provenance : TaskContext → TcpServer F → StopProvenance
  unfolding stop_is_handler_originated has_active_handler_context current_task_would_deliver_inline
  capture_stop_provenance ctx s =
      let originated = stop_is_handler_originated ctx s in
      record {
        handler_originated = originated;
        active_inline_handler =
            not originated
            && (has_active_handler_context none s.dispatcher
                && current_task_would_deliver_inline ctx s.dispatcher);
      }
