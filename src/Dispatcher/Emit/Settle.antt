-- ===== src/Dispatcher/Emit/Settle.antt =====
-- `_emit_now` of event_dispatcher.py while the dispatcher stops: the queue, the worker and the waits.
use aionetx.Base.{
  ℕ, zero, ◌≤◌, ◌≡◌, refl, Bool, true, false, List, Option, some, inl, inr, Exception,
  handler_cancelled_error, arith, length, Option-cases, String,
}
use aionetx.Events.{
  NetworkEvent, EventHandlerFailurePolicy, log_only, emit_error_event, stop_component,
  raise_in_inline_mode, network_error, handler_failure_policy_stop, event_type, resource_id,
}
use aionetx.Dispatcher.State.{Dispatcher}
use aionetx.Dispatcher.Context.{
  TaskContext, enter_handler_dispatch, leave_handler_dispatch, enter_handler_origin_only,
  enter_stop_await_bypass,
}
use aionetx.Dispatcher.Emit.{
  HandlerExit, returns, raises, raises_cancelled, Exit, returned, raised, cancelled, waits_forever,
  out_of_fuel, Application, emit_with, emit_control, run_stop_callback, handle_handler_failure,
  record_handler_failure, after_handler, emit_now_with, emit_now_on, emit_now, and_then,
  source_or_default, count_emit, count_failure, count_attempt, count_inline_fallback,
}
use aionetx.Dispatcher.Emit.Failures.{Deliver, policy}

abbrev pub not_waiting : Exit → Bool
not_waiting waits_forever = false
not_waiting _ = true

module _ {F : Type 0} where
  -- From the one dispatcher to the other the stop goes on, with no more events and the same worker.
  pub record Shrinks (d d' : Dispatcher F) : Type 0 where
    pub still : d'.stopping ≡ true
    pub shorter : length d'.queue ≤ length d.queue
    pub worker : d'.worker_task ≡ d.worker_task

  Shrinks-trans : {d d' d'' : Dispatcher F} → Shrinks d d' → Shrinks d' d'' → Shrinks d d''
  Shrinks-trans s t = ground arith

  -- The application's code, in its turn, does not add events to a dispatcher that stops, which
  -- drops them, nor does it start it again or change its worker.
  pub record IsQuiet (app : Application F) : Type 0 where
    pub handler_quiet :
        (ctx : TaskContext) (e : NetworkEvent F) (d : Dispatcher F)
        → d.stopping ≡ true
        → Shrinks d (app.on_event ctx e d).0
    pub callback_quiet :
        (k : ℕ) (ctx : TaskContext) (d : Dispatcher F)
        → d.stopping ≡ true
        → Shrinks d (app.callback k ctx d).0

  -- A delivery that shrinks the queue and does not wait for ever.
  abbrev pub Settles : Dispatcher F → Dispatcher F × Exit → Type 0
  Settles d r = Shrinks d r.0 × (not_waiting r.1 ≡ true)

  abbrev DeliverSettles : Deliver F → Type 0
  DeliverSettles f = (e : NetworkEvent F) (d : Dispatcher F) → d.stopping ≡ true → Settles d (f e d)

  emit_with-Settles :
      (f : Deliver F) (ctx : TaskContext) (wakes : List (Dispatcher F → Dispatcher F))
      (e : NetworkEvent F) (d : Dispatcher F)
      → DeliverSettles f
      → d.stopping ≡ true
      → Settles d (emit_with f ctx wakes e d)
  unfolding emit_with
  emit_with-Settles f ctx wakes e d h s =
      ground (arith, h e (count_emit d) s, h e (count_inline_fallback (count_emit d)) s)

  emit_control-Settles :
      (f : Deliver F) (ctx : TaskContext) (wakes : List (Dispatcher F → Dispatcher F))
      (e : NetworkEvent F) (d : Dispatcher F)
      → DeliverSettles f
      → d.stopping ≡ true
      → Settles d (emit_control f ctx wakes e d)
  unfolding emit_control
  emit_control-Settles f ctx wakes e d h s =
      ground (arith, h e d s, emit_with-Settles f ctx wakes e d h s)

  and_then-Settles :
      (d : Dispatcher F) (r : Dispatcher F × Exit) (k : Dispatcher F → Dispatcher F × Exit)
      → Settles d r
      → ((d' : Dispatcher F) → d'.stopping ≡ true → Settles d' (k d'))
      → Settles d (and_then r k)
  and_then-Settles d (d', returned) k h g =
      (Shrinks-trans h.0 (g d' h.0.still).0, (g d' h.0.still).1)
  and_then-Settles d (d', raised e) k h g = h
  and_then-Settles d (d', cancelled) k h g = h
  and_then-Settles d (d', waits_forever) k h g = h
  and_then-Settles d (d', out_of_fuel) k h g = h

  module _ (app : Application F) (quiet : IsQuiet app) (ctx : TaskContext)
      (wakes : List (Dispatcher F → Dispatcher F)) where
    run_stop_callback-Settles :
        (e : NetworkEvent F) (k : ℕ) (d : Dispatcher F)
        → d.stopping ≡ true
        → Settles d (run_stop_callback app ctx e k d)
    unfolding run_stop_callback
    run_stop_callback-Settles e k d s =
        let (d₁, ctx₁, bypass_token) = enter_stop_await_bypass ctx d in
        let (d₂, ctx₂, origin_token) = enter_handler_origin_only (some (resource_id e)) ctx₁ d₁ in
        ground (arith, quiet.callback_quiet k ctx₂ d₂ s)

    handle-Settles :
        (f : Deliver F) (p : EventHandlerFailurePolicy) (error : Exception) (e : NetworkEvent F)
        (d : Dispatcher F)
        → DeliverSettles f
        → d.stopping ≡ true
        → Settles d (handle_handler_failure app f ctx wakes p error e d)
    unfolding handle_handler_failure
    handle-Settles f log_only error e d h s = ground arith
    handle-Settles f raise_in_inline_mode error e d h s = ground arith
    handle-Settles f emit_error_event error e d h s = ground (
      arith,
      emit_control-Settles f ctx wakes (network_error (source_or_default d.error_source) error) d h
          s,
    )
    handle-Settles f stop_component error e d h s =
        let control : NetworkEvent F =
          handler_failure_policy_stop (source_or_default d.error_source) (event_type e) error
            stop_component d.delivery.dispatch_mode in
        elim (Option-cases d.stop_component_callback) [
          | inl n ↦ ground (arith, n)
          | inr (k, n) ↦ ground (
            arith,
            n,
            and_then-Settles d (emit_control f ctx wakes control d) (run_stop_callback app ctx e k)
                (emit_control-Settles f ctx wakes control d h s)
                (λ d' t. run_stop_callback-Settles e k d' t),
          )
        ]

    after_handler-Settles :
        (f : Deliver F) (e : NetworkEvent F) (x : HandlerExit) (d : Dispatcher F)
        → DeliverSettles f
        → d.stopping ≡ true
        → Settles d (after_handler app f ctx wakes e x d)
    unfolding after_handler record_handler_failure
    after_handler-Settles f e returns d h s = ground arith
    after_handler-Settles f e (raises error) d h s =
        ground (arith, handle-Settles f (policy d) error e (count_failure d) h s)
    after_handler-Settles f e (raises_cancelled true) d h s = ground arith
    after_handler-Settles f e (raises_cancelled false) d h s =
        ground (arith, handle-Settles f (policy d) handler_cancelled_error e (count_failure d) h s)

    Shrinks-enter :
        (r : Option String) (d : Dispatcher F)
        → d.stopping ≡ true
        → Shrinks d (enter_handler_dispatch r ctx d).0
    unfolding enter_handler_dispatch
    Shrinks-enter r d s = ground arith

    Shrinks-leave :
        (t : Option ℕ) (d : Dispatcher F)
        → d.stopping ≡ true
        → Shrinks d (leave_handler_dispatch t d)
    unfolding leave_handler_dispatch
    Shrinks-leave t d s = ground arith

    emit_now_with-Settles :
        (f : Deliver F) → DeliverSettles f → DeliverSettles (emit_now_with app f ctx wakes)
    unfolding emit_now_with
    emit_now_with-Settles f h e d s =
        let (d₁, ctx₁, token) =
          enter_handler_dispatch (some (resource_id e)) ctx (count_attempt d) in
        let (d₂, x) = app.on_event ctx₁ e d₁ in
        let entered = Shrinks-enter (some (resource_id e)) (count_attempt d) s in
        let handled = quiet.handler_quiet ctx₁ e d₁ entered.still in
        let left = Shrinks-leave token d₂ handled.still in
        let before = Shrinks-trans entered (Shrinks-trans handled left) in
        let after = after_handler-Settles f e x (leave_handler_dispatch token d₂) h left.still in
        (
          Shrinks-trans
              (record { still = before.still; shorter = before.shorter; worker = before.worker })
              after.0,
          after.1,
        )

    -- If the application's code lets a dispatcher that stops neither grow, start nor change its
    -- worker, then a delivery by a dispatcher that stops leaves it stopping, with no more events
    -- queued and the same worker, and does not wait for ever.
    pub emit_now-Settles :
        (e : NetworkEvent F) (d : Dispatcher F)
        → d.stopping ≡ true
        → Settles d (emit_now app ctx wakes e d)
    unfolding emit_now
    emit_now-Settles e d s =
        emit_now_with-Settles (emit_now_on app 1 ctx wakes)
          (emit_now_with-Settles (emit_now_on app zero ctx wakes)
            (λ c d' t. (record { still = t; shorter = omega arith; worker = refl }, refl)))
          e d s
