-- ===== src/Dispatcher/Queue.antt =====
-- The background queue: `_enqueue`, `_record_stop_phase_drop`, `drop_queued_events_for_resource`,
-- `start` and `stop` of event_dispatcher.py. What the code does under one hold of its conditions is
-- one step. Log records, and the limiters that thin them out, are left out.
pub mod Backpressure
pub mod Resources
use aionetx.Base.{
  ℕ, suc, String, Bool, true, false, not, ◌&&◌, ◌||◌, Option, some, none, List, [], ◌∷◌, ◌++◌, ◌+◌,
  max, if◌then◌else◌, ltb, length, str_eq,
}
use aionetx.Events.{
  EventDispatchMode, inline, background, EventBackpressurePolicy, block, drop_oldest, drop_newest,
  NetworkEvent, EventType, bytes_received_event, event_type, resource_id,
}
use aionetx.Dispatcher.State.{
  Dispatcher, QueuedEvent, drop_queued_event, drop_queued_events, has_background_worker,
  accepting_background_events,
}
use aionetx.Dispatcher.Context.{
  TaskContext, current_task_is_worker, is_in_stop_await_bypass_context, enter_stop_await_bypass,
  leave_stop_await_bypass,
}

-- How one round of the loop of `_enqueue` ends: `break`, `return`, or the wait for room.
pub data Attempt : Type 0 where
  accepted rejected waits : Attempt

-- How an awaited call ends; `blocked`: it waits for ever, as nothing wakes it.
pub data Enqueued : Type 0 where
  enqueued dropped blocked : Enqueued

pub data Stopped : Type 0 where
  -- The call returns.
  returns : Stopped
  -- The call awaits the end of the worker task.
  awaits_worker : ℕ → Stopped

abbrev is_bytes_received : EventType → Bool
is_bytes_received bytes_received_event = true
is_bytes_received _ = false

module _ {F : Type 0} where
  unfoldable pub record_stop_phase_drop : Dispatcher F → Dispatcher F
  record_stop_phase_drop d = record d {
    stats = record (d.stats) { dropped_stop_phase_total = suc d.stats.dropped_stop_phase_total };
  }

  -- `self._queue.append(queued_event)` with the two counters that follow.
  append : List (QueuedEvent F) → QueuedEvent F → Dispatcher F → Dispatcher F
  append pending q d = record d {
    queue = pending ++ q ∷ [];
    stats = record (d.stats) {
      enqueued_total = suc d.stats.enqueued_total;
      queue_peak = max d.stats.queue_peak (length (pending ++ q ∷ []));
    };
  }

  drop_newest_event : QueuedEvent F → Dispatcher F → Dispatcher F
  unfolding drop_queued_event
  drop_newest_event q d = record d {
    stats = record (d.stats) {
      dropped_backpressure_newest_total = suc d.stats.dropped_backpressure_newest_total;
    };
    futures = drop_queued_event q d.futures;
  }

  -- The first pending event that may be dropped, and the queue without it.
  unfoldable evict : List (QueuedEvent F) → Option (QueuedEvent F × List (QueuedEvent F))
  evict [] = none
  evict (q ∷ qs) =
      let rest = evict qs in
      if q.drop_on_backpressure
      then some (q, qs)
      else elim rest [ none ↦ none | some (x, kept) ↦ some (x, q ∷ kept) ]

  drop_oldest_event :
      QueuedEvent F → List (QueuedEvent F) → QueuedEvent F → Dispatcher F → Dispatcher F
  unfolding drop_queued_event append
  drop_oldest_event oldest kept q d =
      let d' = append kept q (record d { futures = drop_queued_event oldest d.futures }) in
      record d' {
        stats = record (d'.stats) {
          dropped_backpressure_oldest_total = suc d.stats.dropped_backpressure_oldest_total;
        };
      }

  -- Nothing may be dropped for the new event, or it is not wanted: it is dropped, or it waits.
  drop_or_wait : QueuedEvent F → Dispatcher F → Dispatcher F × Attempt
  unfolding drop_newest_event
  drop_or_wait q d =
      if not q.drop_on_backpressure then (d, waits) else (drop_newest_event q d, rejected)

  make_room :
      Option (QueuedEvent F × List (QueuedEvent F))
      → QueuedEvent F
      → Dispatcher F
      → Dispatcher F × Attempt
  unfolding drop_oldest_event drop_or_wait
  make_room none q d = drop_or_wait q d
  make_room (some (oldest, kept)) q d = (drop_oldest_event oldest kept q d, accepted)

  on_full_queue : EventBackpressurePolicy → QueuedEvent F → Dispatcher F → Dispatcher F × Attempt
  unfolding make_room drop_or_wait evict
  on_full_queue block q d = (d, waits)
  on_full_queue drop_oldest q d = make_room (evict d.queue) q d
  on_full_queue drop_newest q d = drop_or_wait q d

  -- One round of the loop.
  unfoldable pub enqueue_attempt : QueuedEvent F → Dispatcher F → Dispatcher F × Attempt
  unfolding record_stop_phase_drop drop_queued_event append on_full_queue
      accepting_background_events
  enqueue_attempt q d =
      if not (accepting_background_events d)
      then (record (record_stop_phase_drop d) { futures = drop_queued_event q d.futures }, rejected)
      else (if ltb (length d.queue) d.delivery.max_pending_events
          then (append d.queue q d, accepted)
          else on_full_queue d.delivery.backpressure_policy q d)

  -- The loop of `_enqueue`. Each wait ends when another task has changed the dispatcher and wakes
  -- the waiters: `wakes` is what the others do during the waits to come, in order.
  unfoldable pub enqueue :
      List (Dispatcher F → Dispatcher F) → QueuedEvent F → Dispatcher F → Dispatcher F × Enqueued
  enqueue [] q d =
      let (d', a) = enqueue_attempt q d in
      (d', elim a [ accepted ↦ enqueued | rejected ↦ dropped | waits ↦ blocked ])
  enqueue (wake ∷ wakes) q d =
      let (d', a) = enqueue_attempt q d in
      let again = enqueue wakes q (wake d') in
      elim a [ accepted ↦ (d', enqueued) | rejected ↦ (d', dropped) | waits ↦ again ]

  -- `isinstance(event, BytesReceivedEvent) and event.resource_id == resource_id`.
  abbrev pub is_payload_of : String → QueuedEvent F → Bool
  is_payload_of r q = is_bytes_received (event_type q.event) && str_eq (resource_id q.event) r

  -- The loop that parts the queue into `dropped_events` and `kept_events`.
  pub split_payloads : String → List (QueuedEvent F) → List (QueuedEvent F) × List (QueuedEvent F)
  split_payloads r [] = ([], [])
  split_payloads r (q ∷ qs) =
      let (dropped_events, kept_events) = split_payloads r qs in
      if is_payload_of r q
      then (q ∷ dropped_events, kept_events)
      else (dropped_events, q ∷ kept_events)

  discard_payloads : List (QueuedEvent F) × List (QueuedEvent F) → Dispatcher F → Dispatcher F × ℕ
  unfolding drop_queued_events
  discard_payloads ([], kept_events) d = (d, 0)
  discard_payloads (q ∷ qs, kept_events) d = (
    record d {
      queue = kept_events;
      stats = record (d.stats) {
        dropped_stop_phase_total = d.stats.dropped_stop_phase_total + length (q ∷ qs);
      };
      futures = drop_queued_events (q ∷ qs) d.futures;
    },
    length (q ∷ qs),
  )

  unfoldable pub drop_queued_events_for_resource : String → Dispatcher F → Dispatcher F × ℕ
  unfolding split_payloads discard_payloads
  drop_queued_events_for_resource r d = discard_payloads (split_payloads r d.queue) d

  abbrev start_mode : EventDispatchMode → ℕ → Dispatcher F → Dispatcher F
  start_mode inline task d = d
  start_mode background task d = elim d.worker_task [
    | none ↦ record d { stopping = false; worker_task = some task }
    | some w ↦ d
  ]

  -- `start`; `task` is the new worker task, if one is created.
  pub start : ℕ → Dispatcher F → Dispatcher F
  start task d = start_mode d.delivery.dispatch_mode task d

  -- `stop` on the worker itself, or where the worker must not be awaited.
  clear_queue : Dispatcher F → Dispatcher F
  unfolding drop_queued_events
  clear_queue d = record d {
    queue = [];
    stats = record (d.stats) {
      dropped_stop_phase_total = d.stats.dropped_stop_phase_total + length d.queue;
    };
    futures = drop_queued_events d.queue d.futures;
  }

  unfoldable pub stop : TaskContext → Dispatcher F → Dispatcher F × Stopped
  unfolding clear_queue current_task_is_worker is_in_stop_await_bypass_context
  stop ctx d =
      let d' = record d { stopping = true } in
      elim d.worker_task [
        | none ↦ (d', returns)
        | some w ↦
            if current_task_is_worker ctx d || is_in_stop_await_bypass_context ctx d
            then (clear_queue d', returns)
            else (d', awaits_worker w)
      ]

  unfoldable pub stop_from_handler_origin : TaskContext → Dispatcher F → Dispatcher F × Stopped
  unfolding stop enter_stop_await_bypass leave_stop_await_bypass
  stop_from_handler_origin ctx d =
      let (d', ctx', token) = enter_stop_await_bypass ctx d in
      let (d'', exit) = stop ctx' d' in (leave_stop_await_bypass token d'', exit)
