-- ===== src/Dispatcher/Emit/Passing.antt =====
-- Which end of the handler `emit` of event_dispatcher.py passes on to the task that emits.
use aionetx.Base.{◌≡◌, refl, true, false, some, List, arith, ap, ◌∙◌, handler_cancelled_error}
use aionetx.Events.{NetworkEvent, raise_in_inline_mode, resource_id, inline}
use aionetx.Dispatcher.State.{Dispatcher}
use aionetx.Dispatcher.Context.{TaskContext, enter_handler_dispatch}
use aionetx.Dispatcher.Emit.{
  HandlerExit, returns, raises, raises_cancelled, Exit, returned, raised, cancelled, Application,
  handle_handler_failure, record_handler_failure, after_handler, emit_now_on, emit_now, emit,
  count_attempt, count_emit,
}
use aionetx.Dispatcher.Emit.Routes.{emit_inline}
use aionetx.Dispatcher.Emit.Failures.{
  KeepsSettings, Deliver, policy, handler_policy, delivered, delivery-delivered, emit_now_with_lem,
}

module _ {F : Type 0} where
  module _ (app : Application F) (keeps : KeepsSettings app) (ctx : TaskContext)
      (wakes : List (Dispatcher F → Dispatcher F)) where
    -- How the handler's own end is passed on where its exceptions are raised to the emitter.
    abbrev passed_on : HandlerExit → Exit
    passed_on returns = returned
    passed_on (raises error) = raised error
    passed_on (raises_cancelled true) = cancelled
    passed_on (raises_cancelled false) = raised handler_cancelled_error

    after_handler-passed_on :
        (f : Deliver F) (e : NetworkEvent F) (x : HandlerExit) (d : Dispatcher F)
        → policy d ≡ raise_in_inline_mode
        → d.delivery.dispatch_mode ≡ inline
        → (after_handler app f ctx wakes e x d).1 ≡ passed_on x
    unfolding after_handler record_handler_failure handle_handler_failure
    after_handler-passed_on f e returns d p m = refl
    after_handler-passed_on f e (raises error) d p m = ground arith
    after_handler-passed_on f e (raises_cancelled true) d p m = refl
    after_handler-passed_on f e (raises_cancelled false) d p m = ground arith

    emit_now-passed_on :
        (e : NetworkEvent F) (d : Dispatcher F)
        → policy d ≡ raise_in_inline_mode
        → d.delivery.dispatch_mode ≡ inline
        → (emit_now app ctx wakes e d).1 ≡ passed_on (delivered app keeps ctx wakes e d).1
    unfolding emit_now
    emit_now-passed_on e d p m =
        let same = delivery-delivered app keeps ctx wakes e d in
        let (d', x) = delivered app keeps ctx wakes e d in
        rw (emit_now_with_lem app keeps ctx wakes (emit_now_on app 1 ctx wakes) e d) (
          after_handler-passed_on (emit_now_on app 1 ctx wakes) e x d' (ap handler_policy same ∙ p)
            (ap (λ s. s.dispatch_mode) same ∙ m))

    -- Under RAISE_IN_INLINE_MODE in inline mode, with a handler that does not change the settings,
    -- `emit` ends as the handler does: it returns, is cancelled with its task, or raises the
    -- handler's exception; a CancelledError that is not the task's own cancellation is raised as
    -- _HandlerCancelledError.
    pub emit_passes_on :
        (e : NetworkEvent F) (d : Dispatcher F)
        → policy d ≡ raise_in_inline_mode
        → d.delivery.dispatch_mode ≡ inline
        → let (d₁, ctx₁, token) =
            enter_handler_dispatch (some (resource_id e)) ctx (count_attempt (count_emit d)) in
          (emit app ctx wakes e d).1 ≡ passed_on (app.on_event ctx₁ e d₁).1
    unfolding delivered
    emit_passes_on e d p m =
        ap (λ r. r.1) (emit_inline app ctx wakes e d m) ∙ emit_now-passed_on e (count_emit d) p m
