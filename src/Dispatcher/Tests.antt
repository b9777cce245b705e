-- ===== src/Dispatcher/Tests.antt =====
-- Dispatchers with a full queue of two events, and the theorems at them.
use aionetx.Base.{
  ℕ, ◌≡◌, ◌≢◌, ◌≤◌, ◌+◌, refl, Bool, true, false, [], ◌∷◌, Option, none, some, arith, user_error,
  All, length,
}
use aionetx.Events.{
  EventDispatchMode, inline, background, EventBackpressurePolicy, block, drop_oldest,
  EventHandlerFailurePolicy, log_only, emit_error_event, stop_component, raise_in_inline_mode,
  NetworkEvent, bytes_received, network_error,
}
use aionetx.Dispatcher.State.{
  Dispatcher, QueuedEvent, pending, finished, Futures, no_origins, no_bypass, no_stats,
}
use aionetx.Dispatcher.Context.{
  TaskContext, current_task_would_deliver_inline, current_task_is_worker, enter_handler_dispatch,
  leave_handler_dispatch,
}
use aionetx.Dispatcher.Context.Origin.{leave-enter_handler_dispatch}
use aionetx.Dispatcher.Queue.{
  enqueue_attempt, waits, enqueue, blocked, drop_queued_events_for_resource,
}
use aionetx.Dispatcher.Queue.Backpressure.{
  IsBounded, enqueue_attempt-IsBounded, barriers, barriers-enqueue_attempt,
  enqueue_attempt_accounts, enqueue_released,
}
use aionetx.Dispatcher.Queue.Resources.{IsWoken, drop_queued_events_for_resource_lem}
use aionetx.Dispatcher.Emit.{
  Exit, raised, Application, raises, returns, emit, emit_now, emit_now_on,
}
use aionetx.Dispatcher.Emit.Failures.{KeepsSettings, emit_now_on_enough}
use aionetx.Dispatcher.Emit.Exits.{emit_now-allowed, allowed}
use aionetx.Dispatcher.Emit.Passing.{emit_passes_on}
use aionetx.Dispatcher.Emit.Settle.{IsQuiet}
use aionetx.Dispatcher.Barrier.{progress, emit_and_wait, emit_and_wait_returned}
use aionetx.Dispatcher.Worker.{ended, next_round, worker_round, run}
use aionetx.Dispatcher.Worker.Drain.{Left, worker_round_wakes, run_drains}

abbrev bytes : NetworkEvent ℕ
bytes = bytes_received "a" (65 ∷ []) none none

abbrev error : NetworkEvent ℕ
error = network_error "a" (user_error 3)

abbrev payload : QueuedEvent ℕ
payload = record { event = bytes; handled = some 4; drop_on_backpressure = true }

abbrev barrier : QueuedEvent ℕ
barrier = record { event = error; handled = some 5; drop_on_backpressure = false }

abbrev no_futures : Futures
no_futures k = pending

-- A dispatcher with two events in its queue, which may hold two, and with task 1 as its worker.
abbrev full :
    EventDispatchMode
    → EventBackpressurePolicy
    → EventHandlerFailurePolicy
    → Option ℕ
    → Bool
    → Dispatcher ℕ
full mode backpressure failures worker stops = record {
  self_id = 0;
  delivery = record {
    dispatch_mode = mode;
    backpressure_policy = backpressure;
    max_pending_events = 2;
    handler_failure_policy = failures;
  };
  error_source = some "tcp/server";
  stop_policy_enabled = true;
  stop_component_callback = some 9;
  worker_task = worker;
  queue = barrier ∷ payload ∷ [];
  stopping = stops;
  stats = record (no_stats) { queue_peak = 2; enqueued_total = 2 };
  origins = no_origins;
  bypass = no_bypass;
  futures = no_futures;
}

abbrev busy : Dispatcher ℕ
busy = full background drop_oldest emit_error_event (some 1) false

abbrev stopped : Dispatcher ℕ
stopped = full background drop_oldest stop_component (some 1) true

abbrev left_over : Dispatcher ℕ
left_over = full background drop_oldest log_only none true

abbrev direct : Dispatcher ℕ
direct = full inline block raise_in_inline_mode none false

abbrev as_task : ℕ → TaskContext
as_task t = record {
  current_task = some t;
  inline_dispatchers = [];
  stop_await_bypass = [];
  handler_dispatch = [];
  handler_origin = [];
}

-- A handler that fails on every event.
abbrev failing : Application ℕ
failing = record {
  on_event = λ ctx e d. (d, raises (user_error 7));
  callback = λ k ctx d. (d, returns);
}

failing-KeepsSettings : KeepsSettings failing
failing-KeepsSettings = record { by_handler = λ ctx e d. refl }

failing-IsQuiet : IsQuiet failing
failing-IsQuiet = record {
  handler_quiet = λ ctx e d s. record { still = s; shorter = omega arith; worker = refl };
  callback_quiet = λ k ctx d s. record { still = s; shorter = omega arith; worker = refl };
}

busy-IsBounded : IsBounded busy
busy-IsBounded = record { within = omega arith; peak = omega arith; peak_within = omega arith }

abbrev inside : Dispatcher ℕ × TaskContext × Option ℕ
inside = enter_handler_dispatch (some "a") (as_task 6) busy

leave-enter_handler_dispatch_example :
    ((leave_handler_dispatch inside.2 inside.0).origins.tokens ≡ [])
    × ((leave_handler_dispatch inside.2 inside.0).origins.resources ≡ [])
    × ((leave_handler_dispatch inside.2 inside.0).origins.owner_tasks ≡ [])
    × ((leave_handler_dispatch inside.2 inside.0).origins.child_provenance_tokens ≡ [])
    × (0 ≤ (leave_handler_dispatch inside.2 inside.0).origins.next_token)
leave-enter_handler_dispatch_example =
    leave-enter_handler_dispatch (some "a") (as_task 6) busy
      (record { tokens_le = tt; resources_le = tt; owner_tasks_le = tt; child_tokens_le = tt })

-- A task that has inherited the context of a handler's token.
abbrev orphan : TaskContext
orphan = record (as_task 8) { handler_origin = (0, 1) ∷ [] }

enqueue_attempt-IsBounded_example : IsBounded (enqueue_attempt payload busy).0
enqueue_attempt-IsBounded_example = enqueue_attempt-IsBounded payload busy busy-IsBounded

barriers-enqueue_attempt_example : barriers (enqueue_attempt payload busy).0.queue ≡ barrier ∷ []
unfolding enqueue_attempt
barriers-enqueue_attempt_example = barriers-enqueue_attempt payload busy

-- The payload is pushed out: two events taken in before, three now, and one of them dropped.
enqueue_attempt_accounts_example :
    ((enqueue_attempt payload busy).0.stats.enqueued_total ≡ 3)
    × (length (enqueue_attempt payload busy).0.queue
          + (enqueue_attempt payload busy).0.stats.dropped_backpressure_oldest_total
        ≡ 3)
    × ((enqueue_attempt payload busy).0.stats.dropped_backpressure_newest_total
          + (enqueue_attempt payload busy).0.stats.dropped_stop_phase_total
        ≡ 0)
    × ((enqueue_attempt payload busy).1 ≡ waits → (enqueue_attempt payload busy).0 ≡ busy)
unfolding enqueue_attempt
enqueue_attempt_accounts_example = enqueue_attempt_accounts payload busy

-- A producer under BLOCK, woken once without any room, and then by a stop.
abbrev crowded : Dispatcher ℕ
crowded = full background block log_only (some 1) false

abbrev halt : Dispatcher ℕ → Dispatcher ℕ
halt d = record d { stopping = true }

enqueue_released_example : (enqueue ((λ d. d) ∷ halt ∷ []) barrier crowded).1 ≢ blocked
enqueue_released_example = enqueue_released ((λ d. d) ∷ []) [] halt barrier crowded (λ e. refl)

drop_queued_events_for_resource_example :
    ((drop_queued_events_for_resource "a" busy).0.queue ≡ barrier ∷ [])
    × ((drop_queued_events_for_resource "a" busy).1 ≡ 1)
    × ((drop_queued_events_for_resource "a" busy).0.stats.dropped_stop_phase_total ≡ 1)
    × All (IsWoken (drop_queued_events_for_resource "a" busy).0.futures) (payload ∷ [])
    × (drop_queued_events_for_resource "a" (drop_queued_events_for_resource "a" busy).0
        ≡ ((drop_queued_events_for_resource "a" busy).0, 0))
unfolding drop_queued_events_for_resource
drop_queued_events_for_resource_example = drop_queued_events_for_resource_lem "a" busy

emit_now_on_enough_example :
    emit_now_on failing 5 (as_task 1) [] bytes busy ≡ emit_now failing (as_task 1) [] bytes busy
emit_now_on_enough_example =
    emit_now_on_enough failing failing-KeepsSettings (as_task 1) [] 3 bytes busy

emit_now-allowed_example : allowed false (emit_now failing (as_task 1) [] bytes busy).1 ≡ true
emit_now-allowed_example = emit_now-allowed failing failing-KeepsSettings (as_task 1) [] bytes busy

emit_passes_on_example : (emit failing (as_task 6) [] bytes direct).1 ≡ raised (user_error 7)
emit_passes_on_example =
    emit_passes_on failing failing-KeepsSettings (as_task 6) [] bytes direct refl refl

-- The worker handles the event while the caller waits.
abbrev handles : Dispatcher ℕ → Dispatcher ℕ
handles d = record d { futures = λ k. finished }

emit_and_wait_returned_example :
    (false ≡ false)
    × ((emit_and_wait failing (as_task 6) [] (progress handles ∷ []) 8 true bytes busy).0.futures 8
        ≡ finished)
unfolding emit_and_wait current_task_would_deliver_inline enqueue enqueue_attempt
emit_and_wait_returned_example =
    emit_and_wait_returned failing (as_task 6) [] (progress handles ∷ []) 8 true bytes busy refl
      refl

run_drains_example :
    (x : Exit) × ((run failing (as_task 1) [] 3 stopped).1 ≡ ended x)
    × ((run failing (as_task 1) [] 3 stopped).0.queue ≡ [])
    × (current_task_is_worker (as_task 1) (run failing (as_task 1) [] 3 stopped).0 ≡ false)
run_drains_example =
    run_drains failing (as_task 1) [] failing-KeepsSettings failing-IsQuiet 2 stopped (omega arith)
      refl

worker_round_wakes_example :
    ((worker_round failing (as_task 1) [] busy).1 ≡ next_round
      → IsWoken (worker_round failing (as_task 1) [] busy).0.futures barrier)
    × ((x : Exit)
        → (worker_round failing (as_task 1) [] busy).1 ≡ ended x
        → Left
            (as_task 1)
            barrier
            (emit_now failing (as_task 1) [] error (record (busy) { queue = payload ∷ [] }))
            (worker_round failing (as_task 1) [] busy).0)
worker_round_wakes_example =
    worker_round_wakes failing (as_task 1) [] barrier (payload ∷ []) busy refl
