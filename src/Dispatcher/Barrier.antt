-- ===== src/Dispatcher/Barrier.antt =====
-- `emit_and_wait` of event_dispatcher.py: the emission whose caller waits until the event has been
-- handled.
use aionetx.Base.{
  ℕ, ◌≡◌, Bool, true, false, not, List, [], ◌∷◌, some, arith, if◌then◌else◌, runtime_error,
  cancelled_error,
}
use aionetx.Events.{NetworkEvent}
use aionetx.Dispatcher.State.{
  Dispatcher, QueuedEvent, FutureState, pending, finished, cancelled_future, failed, settle, done,
  has_background_worker, accepting_background_events,
}
use aionetx.Dispatcher.Context.{
  TaskContext, is_inline, is_in_inline_dispatch_context, current_task_is_worker,
  current_task_would_deliver_inline,
}
use aionetx.Dispatcher.Queue.{enqueue, record_stop_phase_drop, Enqueued, enqueued, dropped, blocked}
use aionetx.Dispatcher.Emit.{
  Exit, returned, raised, cancelled, waits_forever, Application, emit_now, count_emit,
  count_inline_fallback,
}

-- What happens while the caller waits: other tasks change the dispatcher, or the caller's task is
-- cancelled.
pub data WaitStep (F : Type 0) : Type 0 where
  progress : (Dispatcher F → Dispatcher F) → WaitStep F
  cancel_caller : WaitStep F

-- The end of `emit_and_wait`, with the future done; a stored CancelledError is raised as such.
abbrev pub exit_of_future : FutureState → Bool → Exit
exit_of_future pending caller_cancelled = waits_forever
exit_of_future cancelled_future caller_cancelled = cancelled
exit_of_future (failed cancelled_error) caller_cancelled = cancelled
exit_of_future (failed e) caller_cancelled = raised e
exit_of_future finished caller_cancelled = if caller_cancelled then cancelled else returned

finished_of_returned : (s : FutureState) (c : Bool) → exit_of_future s c ≡ returned → s ≡ finished
finished_of_returned s c h = ground arith

module _ {F : Type 0} where
  -- The loop that awaits `handled`, shielded from the caller's cancellation.
  pub await_handled : List (WaitStep F) → ℕ → Bool → Dispatcher F → Dispatcher F × Exit
  await_handled [] k caller_cancelled d = (d, exit_of_future (d.futures k) caller_cancelled)
  await_handled (progress f ∷ steps) k caller_cancelled d =
      let rest = await_handled steps k caller_cancelled (f d) in
      if done (d.futures k) then (d, exit_of_future (d.futures k) caller_cancelled) else rest
  await_handled (cancel_caller ∷ steps) k caller_cancelled d = await_handled steps k true d

  -- The wait for room may not end; then nothing is awaited behind it.
  after_enqueue : Enqueued → List (WaitStep F) → ℕ → Dispatcher F → Dispatcher F × Exit
  unfolding await_handled
  after_enqueue blocked steps k d = (d, waits_forever)
  after_enqueue enqueued steps k d = await_handled steps k false d
  after_enqueue dropped steps k d = await_handled steps k false d

  await_handled_returned :
      (steps : List (WaitStep F)) (k : ℕ) (c : Bool) (d : Dispatcher F)
      → (await_handled steps k c d).1 ≡ returned
      → (await_handled steps k c d).0.futures k ≡ finished
  unfolding await_handled
  await_handled_returned [] k c d h = finished_of_returned (d.futures k) c h
  await_handled_returned (progress f ∷ steps) k c d h =
      ground (arith, finished_of_returned (d.futures k) c, await_handled_returned steps k c (f d))
  await_handled_returned (cancel_caller ∷ steps) k c d h = await_handled_returned steps k true d h

  after_enqueue_returned :
      (x : Enqueued) (steps : List (WaitStep F)) (k : ℕ) (d : Dispatcher F)
      → (after_enqueue x steps k d).1 ≡ returned
      → (after_enqueue x steps k d).0.futures k ≡ finished
  unfolding after_enqueue
  after_enqueue_returned blocked steps k d h = cc
  after_enqueue_returned enqueued steps k d h = await_handled_returned steps k false d h
  after_enqueue_returned dropped steps k d h = await_handled_returned steps k false d h

  module _ (app : Application F) where
    -- `handled` is the future that the loop creates for the call.
    unfoldable pub emit_and_wait :
        TaskContext
        → List (Dispatcher F → Dispatcher F)
        → List (WaitStep F)
        → (handled : ℕ) → (drop_on_backpressure : Bool) → NetworkEvent F
        → Dispatcher F
        → Dispatcher F × Exit
    unfolding is_in_inline_dispatch_context accepting_background_events current_task_is_worker
        has_background_worker record_stop_phase_drop after_enqueue
    emit_and_wait ctx wakes steps handled drop_on_backpressure event d =
        let d' = count_emit d in
        if is_inline d'.delivery.dispatch_mode
        then emit_now app ctx wakes event d'
        else (if is_in_inline_dispatch_context ctx d'
            then emit_now app ctx wakes event (count_inline_fallback d')
            else (if not (accepting_background_events d')
                then (record_stop_phase_drop d', raised runtime_error)
                else (if current_task_is_worker ctx d'
                    then emit_now app ctx wakes event (count_inline_fallback d')
                    else (if not (has_background_worker d')
                        then emit_now app ctx wakes event (count_inline_fallback d')
                        else let (d'', x) =
                            enqueue wakes
                              (record {
                                event = event;
                                handled = some handled;
                                drop_on_backpressure = drop_on_backpressure;
                              })
                              (record d' { futures = settle handled pending d'.futures }) in
                          after_enqueue x steps handled d''))))

    -- Where the event would not be delivered inline, a call of `emit_and_wait` that returns found
    -- the dispatcher accepting events, and the future of its event is finished, which is how
    -- handled events are marked: not failed, as that of a dropped event is, nor cancelled.
    pub emit_and_wait_returned :
        (ctx : TaskContext) (wakes : List (Dispatcher F → Dispatcher F)) (steps : List (WaitStep F))
        (k : ℕ) (drop : Bool) (e : NetworkEvent F) (d : Dispatcher F)
        → current_task_would_deliver_inline ctx d ≡ false
        → (emit_and_wait ctx wakes steps k drop e d).1 ≡ returned
        → (d.stopping ≡ false) × ((emit_and_wait ctx wakes steps k drop e d).0.futures k ≡ finished)
    unfolding emit_and_wait current_task_would_deliver_inline
    emit_and_wait_returned ctx wakes steps k drop e d h r =
        let q : QueuedEvent F = record {
          event = e;
          handled = some k;
          drop_on_backpressure = drop;
        } in
        let (d', x) =
          enqueue wakes q (record (count_emit d) { futures = settle k pending d.futures }) in
        ground (arith, after_enqueue_returned x steps k d')
