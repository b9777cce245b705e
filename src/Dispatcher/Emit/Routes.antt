-- ===== src/Dispatcher/Emit/Routes.antt =====
-- Which way an event takes that `emit` of event_dispatcher.py is given.
use aionetx.Base.{◌≡◌, true, false, List, arith, none}
use aionetx.Events.{NetworkEvent, background, inline}
use aionetx.Dispatcher.State.{Dispatcher}
use aionetx.Dispatcher.Context.{
  TaskContext, is_in_inline_dispatch_context, current_task_would_deliver_inline,
}
use aionetx.Dispatcher.Queue.{record_stop_phase_drop}
use aionetx.Dispatcher.Emit.{returned, Application, emit_with, emit, emit_now, count_emit}

module _ {F : Type 0} (app : Application F) (ctx : TaskContext)
    (wakes : List (Dispatcher F → Dispatcher F)) (e : NetworkEvent F) (d : Dispatcher F) where
  -- A background dispatcher that stops and has no worker, outside of an inline context, tells a
  -- task that its events would be delivered inline, and counts and drops the event that is
  -- emitted.
  pub dropped_though_inline :
      d.delivery.dispatch_mode ≡ background
      → d.stopping ≡ true
      → d.worker_task ≡ none
      → is_in_inline_dispatch_context ctx d ≡ false
      → (current_task_would_deliver_inline ctx d ≡ true)
        × (emit app ctx wakes e d ≡ (record_stop_phase_drop (count_emit d), returned))
  unfolding emit emit_with current_task_would_deliver_inline
  dropped_though_inline m s w i = ground arith

  pub emit_inline :
      d.delivery.dispatch_mode ≡ inline
      → emit app ctx wakes e d ≡ emit_now app ctx wakes e (count_emit d)
  unfolding emit emit_with
  emit_inline m = ground arith
