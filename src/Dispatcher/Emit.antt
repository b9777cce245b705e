-- ===== src/Dispatcher/Emit.antt =====
-- Emission and delivery: `emit`, `_emit_now` and the handling of handler failures
-- of event_dispatcher.py. The application's handler and the component's stop callback are code of
-- others: they are the fields of `Application`, which may do anything to the dispatcher.
pub mod Routes
pub mod Failures
pub mod Exits
pub mod Passing
pub mod Settle
use aionetx.Base.{
  ℕ, suc, zero, String, Bool, true, false, not, ◌&&◌, ◌||◌, Option, some, none, List, [], ◌∷◌,
  if◌then◌else◌, str_eq, Exception, handler_cancelled_error, cancelled_error, runtime_error,
}
use aionetx.Events.{
  EventDispatchMode, EventHandlerFailurePolicy, log_only, emit_error_event, stop_component,
  raise_in_inline_mode, NetworkEvent, network_error, handler_failure_policy_stop, EventType,
  network_error_event, handler_failure_policy_stop_event, event_type, resource_id,
}
use aionetx.Dispatcher.State.{
  Dispatcher, QueuedEvent, FutureState, pending, finished, cancelled_future, failed, settle,
  stop_policy, has_background_worker, accepting_background_events,
}
use aionetx.Dispatcher.Context.{
  TaskContext, is_inline, current_task_is_worker, is_in_inline_dispatch_context,
  enter_handler_dispatch, leave_handler_dispatch, enter_handler_origin_only,
  enter_stop_await_bypass, leave_stop_await_bypass,
}
use aionetx.Dispatcher.Queue.{Enqueued, enqueued, dropped, blocked, enqueue, record_stop_phase_drop}

-- How the application's code ends; with `raises_cancelled`: whether its task is being cancelled.
pub data HandlerExit : Type 0 where
  returns : HandlerExit
  raises : Exception → HandlerExit
  raises_cancelled : (cancelling : Bool) → HandlerExit

-- How a call of the dispatcher ends; `waits_forever`: in a wait that nothing ends.
pub data Exit : Type 0 where
  returned : Exit
  raised : Exception → Exit
  cancelled : Exit
  waits_forever : Exit
  out_of_fuel : Exit

pub record Application (F : Type 0) : Type 0 where
  pub on_event : TaskContext → NetworkEvent F → Dispatcher F → Dispatcher F × HandlerExit
  pub callback : ℕ → TaskContext → Dispatcher F → Dispatcher F × HandlerExit

abbrev pub exit_of_enqueued : Enqueued → Exit
exit_of_enqueued enqueued = returned
exit_of_enqueued dropped = returned
exit_of_enqueued blocked = waits_forever

abbrev exit_of_callback : HandlerExit → Exit
exit_of_callback returns = returned
exit_of_callback (raises e) = raised e
exit_of_callback (raises_cancelled c) = cancelled

abbrev is_network_error : EventType → Bool
is_network_error network_error_event = true
is_network_error _ = false

abbrev is_policy_stop : EventType → Bool
is_policy_stop handler_failure_policy_stop_event = true
is_policy_stop _ = false

-- `self._error_source or "event-dispatcher"`.
abbrev source_or_default : Option String → String
source_or_default none = "event-dispatcher"
source_or_default (some s) = if str_eq s "" then "event-dispatcher" else s

module _ {F : Type 0} where
  abbrev pub count_emit : Dispatcher F → Dispatcher F
  count_emit d = record d {
    stats = record (d.stats) { emit_calls_total = suc d.stats.emit_calls_total };
  }

  abbrev pub count_inline_fallback : Dispatcher F → Dispatcher F
  count_inline_fallback d = record d {
    stats = record (d.stats) { inline_fallback_total = suc d.stats.inline_fallback_total };
  }

  abbrev count_attempt : Dispatcher F → Dispatcher F
  count_attempt d = record d {
    stats = record (d.stats) {
      handler_dispatch_attempts_total = suc d.stats.handler_dispatch_attempts_total;
    };
  }

  abbrev count_failure : Dispatcher F → Dispatcher F
  count_failure d = record d {
    stats = record (d.stats) { handler_failures_total = suc d.stats.handler_failures_total };
  }

  -- What follows an awaited call, if that returns.
  abbrev and_then : Dispatcher F × Exit → (Dispatcher F → Dispatcher F × Exit) → Dispatcher F × Exit
  and_then (d, returned) k = k d
  and_then (d, raised e) k = (d, raised e)
  and_then (d, cancelled) k = (d, cancelled)
  and_then (d, waits_forever) k = (d, waits_forever)
  and_then (d, out_of_fuel) k = (d, out_of_fuel)

  -- `emit`; `deliver` is `_emit_now` in the calling task, `wakes` as for `enqueue`.
  unfoldable pub emit_with :
      (NetworkEvent F → Dispatcher F → Dispatcher F × Exit)
      → TaskContext
      → List (Dispatcher F → Dispatcher F)
      → NetworkEvent F
      → Dispatcher F
      → Dispatcher F × Exit
  unfolding is_in_inline_dispatch_context accepting_background_events current_task_is_worker
      has_background_worker record_stop_phase_drop
  emit_with deliver ctx wakes event d =
      let d' = count_emit d in
      if is_inline d'.delivery.dispatch_mode
      then deliver event d'
      else (if is_in_inline_dispatch_context ctx d'
          then deliver event (count_inline_fallback d')
          else (if not (accepting_background_events d')
              then (record_stop_phase_drop d', returned)
              else (if current_task_is_worker ctx d'
                  then deliver event (count_inline_fallback d')
                  else (if not (has_background_worker d')
                      then deliver event (count_inline_fallback d')
                      else let (d'', e) =
                          enqueue wakes
                            (record { event = event; handled = none; drop_on_backpressure = true })
                            d' in
                        (d'', exit_of_enqueued e)))))

  -- `_emit_handler_failure_control_event`.
  emit_control :
      (NetworkEvent F → Dispatcher F → Dispatcher F × Exit)
      → TaskContext
      → List (Dispatcher F → Dispatcher F)
      → NetworkEvent F
      → Dispatcher F
      → Dispatcher F × Exit
  unfolding emit_with current_task_is_worker
  emit_control deliver ctx wakes event d =
      if not (is_inline d.delivery.dispatch_mode) && current_task_is_worker ctx d
      then deliver event d
      else emit_with deliver ctx wakes event d

  module _ (app : Application F) where
    -- The end of the STOP_COMPONENT branch.
    run_stop_callback : TaskContext → NetworkEvent F → ℕ → Dispatcher F → Dispatcher F × Exit
    unfolding enter_stop_await_bypass leave_stop_await_bypass enter_handler_origin_only
        leave_handler_dispatch
    run_stop_callback ctx triggering_event callback d =
        let (d₁, ctx₁, bypass_token) = enter_stop_await_bypass ctx d in
        let (d₂, ctx₂, origin_token) =
          enter_handler_origin_only (some (resource_id triggering_event)) ctx₁ d₁ in
        let (d₃, exit) = app.callback callback ctx₂ d₂ in
        (
          leave_stop_await_bypass bypass_token (leave_handler_dispatch origin_token d₃),
          exit_of_callback exit,
        )

    -- `_handle_handler_failure`.
    handle_handler_failure :
        (NetworkEvent F → Dispatcher F → Dispatcher F × Exit)
        → TaskContext
        → List (Dispatcher F → Dispatcher F)
        → EventHandlerFailurePolicy
        → Exception
        → NetworkEvent F
        → Dispatcher F
        → Dispatcher F × Exit
    unfolding emit_control run_stop_callback stop_policy
    handle_handler_failure deliver ctx wakes log_only error event d = (d, returned)
    handle_handler_failure deliver ctx wakes raise_in_inline_mode error event d =
        if is_inline d.delivery.dispatch_mode then (d, raised error) else (d, returned)
    handle_handler_failure deliver ctx wakes emit_error_event error event d =
        if is_network_error (event_type event)
        then (d, returned)
        else emit_control deliver ctx wakes (network_error (source_or_default d.error_source) error)
            d
    handle_handler_failure deliver ctx wakes stop_component error event d =
        elim (stop_policy d).callback [
          | none ↦ (d, returned)
          | some callback ↦
              if not (stop_policy d).enabled || is_policy_stop (event_type event)
              then (d, returned)
              else and_then
                  (emit_control deliver ctx wakes
                    (handler_failure_policy_stop (source_or_default d.error_source)
                      (event_type event) error stop_component d.delivery.dispatch_mode)
                    d)
                  (run_stop_callback ctx event callback)
        ]

    -- `_record_handler_failure`.
    record_handler_failure :
        (NetworkEvent F → Dispatcher F → Dispatcher F × Exit)
        → TaskContext
        → List (Dispatcher F → Dispatcher F)
        → Exception
        → NetworkEvent F
        → Dispatcher F
        → Dispatcher F × Exit
    unfolding handle_handler_failure
    record_handler_failure deliver ctx wakes error event d =
        handle_handler_failure deliver ctx wakes d.delivery.handler_failure_policy error event
          (count_failure d)

    -- The `except` clauses of `_emit_now`.
    pub after_handler :
        (NetworkEvent F → Dispatcher F → Dispatcher F × Exit)
        → TaskContext
        → List (Dispatcher F → Dispatcher F)
        → NetworkEvent F
        → HandlerExit
        → Dispatcher F
        → Dispatcher F × Exit
    unfolding record_handler_failure
    after_handler deliver ctx wakes event returns d = (d, returned)
    after_handler deliver ctx wakes event (raises error) d =
        record_handler_failure deliver ctx wakes error event d
    after_handler deliver ctx wakes event (raises_cancelled true) d = (d, cancelled)
    after_handler deliver ctx wakes event (raises_cancelled false) d =
        record_handler_failure deliver ctx wakes handler_cancelled_error event d

    -- The body of `_emit_now`; `deliver` is its recursive call, for control events.
    pub emit_now_with :
        (NetworkEvent F → Dispatcher F → Dispatcher F × Exit)
        → TaskContext
        → List (Dispatcher F → Dispatcher F)
        → NetworkEvent F
        → Dispatcher F
        → Dispatcher F × Exit
    unfolding after_handler enter_handler_dispatch leave_handler_dispatch
    emit_now_with deliver ctx wakes event d =
        let (d₁, ctx₁, token) =
          enter_handler_dispatch (some (resource_id event)) ctx (count_attempt d) in
        let (d₂, exit) = app.on_event ctx₁ event d₁ in
        after_handler deliver ctx wakes event exit (leave_handler_dispatch token d₂)

    -- `_emit_now`, which calls itself for control events; the fuel bounds the depth.
    unfoldable pub emit_now_on :
        ℕ
        → TaskContext
        → List (Dispatcher F → Dispatcher F)
        → NetworkEvent F
        → Dispatcher F
        → Dispatcher F × Exit
    unfolding emit_now_with
    emit_now_on zero ctx wakes event d = (d, out_of_fuel)
    emit_now_on (suc fuel) ctx wakes event d =
        emit_now_with (emit_now_on fuel ctx wakes) ctx wakes event d

    -- Two levels: that of the event and that of the control event for its failure.
    unfoldable pub emit_now :
        TaskContext
        → List (Dispatcher F → Dispatcher F)
        → NetworkEvent F
        → Dispatcher F
        → Dispatcher F × Exit
    unfolding emit_now_on
    emit_now = emit_now_on 2

    unfoldable pub emit :
        TaskContext
        → List (Dispatcher F → Dispatcher F)
        → NetworkEvent F
        → Dispatcher F
        → Dispatcher F × Exit
    emit ctx wakes = emit_with (emit_now ctx wakes) ctx wakes
