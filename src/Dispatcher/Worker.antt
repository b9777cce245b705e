-- ===== src/Dispatcher/Worker.antt =====
-- The worker task: `_run` of event_dispatcher.py. One round takes the oldest event, delivers it and
-- wakes its waiter; the `finally` block is `finish`.
pub mod Drain
use aionetx.Base.{
  ℕ, suc, zero, Bool, true, false, List, [], ◌∷◌, Option, some, none, if◌then◌else◌, Exception,
  cancelled_error,
}
use aionetx.Events.{NetworkEvent}
use aionetx.Dispatcher.State.{
  Dispatcher, QueuedEvent, complete_queued_event, fail_queued_event, fail_queued_events,
}
use aionetx.Dispatcher.Context.{TaskContext, current_task_is_worker}
use aionetx.Dispatcher.Emit.{
  Exit, returned, raised, cancelled, waits_forever, out_of_fuel, Application, emit_now,
}

-- How a round ends; `idle`: the worker waits for an event.
pub data Round : Type 0 where
  idle next_round : Round
  ended : Exit → Round
  stuck : Round

module _ {F : Type 0} where
  -- The `finally` block, with the exception that ends the task.
  unfoldable pub finish : TaskContext → Exception → Dispatcher F → Dispatcher F
  unfolding fail_queued_events current_task_is_worker
  finish ctx pending_error d = record d {
    futures = fail_queued_events d.queue pending_error d.futures;
    queue = [];
    worker_task = if current_task_is_worker ctx d then none else d.worker_task;
  }

  -- What follows a delivery.
  pub after_delivery : TaskContext → QueuedEvent F → Dispatcher F × Exit → Dispatcher F × Round
  unfolding finish complete_queued_event fail_queued_event
  after_delivery ctx q (d, returned) =
      (record d { futures = complete_queued_event q d.futures }, next_round)
  after_delivery ctx q (d, raised e) =
      (finish ctx e (record d { futures = fail_queued_event q e d.futures }), ended (raised e))
  after_delivery ctx q (d, cancelled) = (
    finish ctx cancelled_error
        (record d { futures = fail_queued_event q cancelled_error d.futures }),
    ended cancelled,
  )
  after_delivery ctx q (d, waits_forever) = (d, stuck)
  after_delivery ctx q (d, out_of_fuel) = (d, stuck)

  -- The task is cancelled while it waits for an event.
  unfoldable pub cancel_waiting : TaskContext → Dispatcher F → Dispatcher F
  unfolding finish
  cancel_waiting ctx d = finish ctx cancelled_error d

  module _ (app : Application F) (ctx : TaskContext)
      (wakes : List (Dispatcher F → Dispatcher F)) where
    round_on : List (QueuedEvent F) → Dispatcher F → Dispatcher F × Round
    unfolding finish after_delivery
    round_on [] d = if d.stopping then (finish ctx cancelled_error d, ended returned) else (d, idle)
    round_on (q ∷ qs) d =
        after_delivery ctx q (emit_now app ctx wakes q.event (record d { queue = qs }))

    -- One round of the loop.
    unfoldable pub worker_round : Dispatcher F → Dispatcher F × Round
    unfolding round_on
    worker_round d = round_on d.queue d

    -- The loop, for a number of rounds.
    unfoldable pub run : ℕ → Dispatcher F → Dispatcher F × Round
    run zero d = (d, next_round)
    run (suc rounds) d =
        let (d', r) = worker_round d in
        let rest = run rounds d' in
        elim r [
          | next_round ↦ rest
          | idle ↦ (d', idle)
          | ended x ↦ (d', ended x)
          | stuck ↦ (d', stuck)
        ]
