-- ===== src/Dispatcher/Emit/Exits.antt =====
-- Which exceptions a delivery lets out: `_emit_now` under each failure policy.
use aionetx.Base.{
  ℕ, zero, ◌≡◌, inl, inr, refl, Bool, true, false, List, arith, ap, ◌∙◌, sym, subst, Exception,
  Option-cases, handler_cancelled_error,
}
use aionetx.Events.{
  NetworkEvent, EventHandlerFailurePolicy, log_only, emit_error_event, stop_component,
  raise_in_inline_mode, network_error, handler_failure_policy_stop, event_type, EventDispatchMode,
}
use aionetx.Dispatcher.State.{Dispatcher}
use aionetx.Dispatcher.Context.{TaskContext, is_inline}
use aionetx.Dispatcher.Emit.{
  HandlerExit, returns, raises, raises_cancelled, Exit, returned, raised, cancelled, waits_forever,
  out_of_fuel, Application, emit_with, emit_control, run_stop_callback, handle_handler_failure,
  record_handler_failure, after_handler, emit_now_with, emit_now_on, emit_now, and_then,
  source_or_default, count_emit, count_failure, count_inline_fallback,
}
use aionetx.Dispatcher.Emit.Failures.{
  KeepsSettings, Deliver, policy, IsControl, IsControl-subst, handler_policy, delivered,
  delivery-delivered, emit_now_with_lem,
}

-- Whether a policy may let an exception out to the task that delivers.
abbrev pub may_raise : EventHandlerFailurePolicy → EventDispatchMode → Bool
may_raise log_only mode = false
may_raise emit_error_event mode = false
may_raise raise_in_inline_mode mode = is_inline mode
may_raise stop_component mode = true

-- The exits of a delivery, with exceptions only where they may be.
abbrev pub allowed : Bool → Exit → Bool
allowed may returned = true
allowed may cancelled = true
allowed may waits_forever = true
allowed may (raised e) = may
allowed may out_of_fuel = false

allowed-true : (may : Bool) (x : Exit) → allowed may x ≡ true → allowed true x ≡ true
allowed-true may x h = ground arith

module _ {F : Type 0} where
  abbrev pub lets_out : Dispatcher F → Bool
  lets_out d = may_raise (policy d) d.delivery.dispatch_mode

  emit_with_exit :
      (f : Deliver F) (ctx : TaskContext) (wakes : List (Dispatcher F → Dispatcher F)) (may : Bool)
      (e : NetworkEvent F) (d : Dispatcher F)
      → ((d' : Dispatcher F) → d'.delivery ≡ d.delivery → allowed may (f e d').1 ≡ true)
      → allowed may (emit_with f ctx wakes e d).1 ≡ true
  unfolding emit_with
  emit_with_exit f ctx wakes may e d h =
      ground (arith, h (count_emit d) refl, h (count_inline_fallback (count_emit d)) refl)

  emit_control_exit :
      (f : Deliver F) (ctx : TaskContext) (wakes : List (Dispatcher F → Dispatcher F)) (may : Bool)
      (e : NetworkEvent F) (d : Dispatcher F)
      → ((d' : Dispatcher F) → d'.delivery ≡ d.delivery → allowed may (f e d').1 ≡ true)
      → allowed may (emit_control f ctx wakes e d).1 ≡ true
  unfolding emit_control
  emit_control_exit f ctx wakes may e d h =
      ground (arith, h d refl, emit_with_exit f ctx wakes may e d h)

  and_then_exit :
      (r : Dispatcher F × Exit) (k : Dispatcher F → Dispatcher F × Exit)
      → allowed true r.1 ≡ true
      → ((d : Dispatcher F) → allowed true (k d).1 ≡ true)
      → allowed true (and_then r k).1 ≡ true
  and_then_exit (d, returned) k h g = g d
  and_then_exit (d, raised e) k h g = refl
  and_then_exit (d, cancelled) k h g = refl
  and_then_exit (d, waits_forever) k h g = refl
  and_then_exit (d, out_of_fuel) k h g = h

  module _ (app : Application F) (keeps : KeepsSettings app) (ctx : TaskContext)
      (wakes : List (Dispatcher F → Dispatcher F)) where
    run_stop_callback_exit :
        (e : NetworkEvent F) (k : ℕ) (d : Dispatcher F)
        → allowed true (run_stop_callback app ctx e k d).1 ≡ true
    unfolding run_stop_callback
    run_stop_callback_exit e k d = ground arith

    handle_control_exit :
        (f : Deliver F) (p : EventHandlerFailurePolicy) (error : Exception) (e : NetworkEvent F)
        (d : Dispatcher F)
        → IsControl p e
        → allowed
            (may_raise p d.delivery.dispatch_mode)
            (handle_handler_failure app f ctx wakes p error e d).1
          ≡ true
    unfolding handle_handler_failure
    handle_control_exit f log_only error e d h = refl
    handle_control_exit f raise_in_inline_mode error e d h = ground arith
    handle_control_exit f emit_error_event error e d h = ground (arith, h)
    handle_control_exit f stop_component error e d h = ground (arith, h)

    after_control_exit :
        (f : Deliver F) (e : NetworkEvent F) (x : HandlerExit) (d : Dispatcher F)
        → IsControl (policy d) e
        → allowed (lets_out d) (after_handler app f ctx wakes e x d).1 ≡ true
    unfolding after_handler record_handler_failure
    after_control_exit f e returns d h = refl
    after_control_exit f e (raises error) d h =
        handle_control_exit f (policy d) error e (count_failure d) h
    after_control_exit f e (raises_cancelled true) d h = refl
    after_control_exit f e (raises_cancelled false) d h =
        handle_control_exit f (policy d) handler_cancelled_error e (count_failure d) h

    lets_out-same : (d d' : Dispatcher F) → d'.delivery ≡ d.delivery → lets_out d' ≡ lets_out d
    lets_out-same d d' h = ap (λ s. may_raise s.handler_failure_policy s.dispatch_mode) h

    control_exit :
        (f : Deliver F) (e : NetworkEvent F) (d : Dispatcher F)
        → IsControl (policy d) e
        → allowed (lets_out d) (emit_now_with app f ctx wakes e d).1 ≡ true
    control_exit f e d h =
        let same = delivery-delivered app keeps ctx wakes e d in
        let (d', x) = delivered app keeps ctx wakes e d in
        rw (emit_now_with_lem app keeps ctx wakes f e d) (
          subst (λ b. allowed b (after_handler app f ctx wakes e x d').1 ≡ true)
            (lets_out-same d d' same)
            (after_control_exit f e x d' (IsControl-subst e (ap handler_policy (sym same)) h)))

    -- The exits of a delivery of control events.
    abbrev ControlExits : Deliver F → Type 0
    ControlExits f =
        (e : NetworkEvent F) (d : Dispatcher F)
        → IsControl (policy d) e
        → allowed (lets_out d) (f e d).1 ≡ true

    handle_exit :
        (f : Deliver F) (p : EventHandlerFailurePolicy) (error : Exception) (e : NetworkEvent F)
        (d : Dispatcher F)
        → p ≡ policy d
        → ControlExits f
        → allowed
            (may_raise p d.delivery.dispatch_mode)
            (handle_handler_failure app f ctx wakes p error e d).1
          ≡ true
    unfolding handle_handler_failure
    handle_exit f log_only error e d h a = refl
    handle_exit f raise_in_inline_mode error e d h a = ground arith
    handle_exit f emit_error_event error e d h a =
        let control : NetworkEvent F = network_error (source_or_default d.error_source) error in
        ground (
          arith,
          emit_control_exit f ctx wakes false control d (λ d' same.
              let kind = h ∙ ap handler_policy (sym same) in
              ground (arith, kind, a control d' (IsControl-subst control kind refl))),
        )
    handle_exit f stop_component error e d h a =
        let control : NetworkEvent F =
          handler_failure_policy_stop (source_or_default d.error_source) (event_type e) error
            stop_component d.delivery.dispatch_mode in
        let sent : allowed true (emit_control f ctx wakes control d).1 ≡ true =
          emit_control_exit f ctx wakes true control d (λ d' same.
            allowed-true (lets_out d') (f control d').1
              (a control d' (IsControl-subst control (h ∙ ap handler_policy (sym same)) refl))) in
        elim (Option-cases d.stop_component_callback) [
          | inl n ↦ ground (arith, n)
          | inr (k, n) ↦ ground (
            arith,
            n,
            and_then_exit (emit_control f ctx wakes control d) (run_stop_callback app ctx e k) sent
                (λ d'. run_stop_callback_exit e k d'),
          )
        ]

    after_handler_exit :
        (f : Deliver F) (e : NetworkEvent F) (x : HandlerExit) (d : Dispatcher F)
        → ControlExits f
        → allowed (lets_out d) (after_handler app f ctx wakes e x d).1 ≡ true
    unfolding after_handler record_handler_failure
    after_handler_exit f e returns d a = refl
    after_handler_exit f e (raises error) d a =
        handle_exit f (policy d) error e (count_failure d) refl a
    after_handler_exit f e (raises_cancelled true) d a = refl
    after_handler_exit f e (raises_cancelled false) d a =
        handle_exit f (policy d) handler_cancelled_error e (count_failure d) refl a

    -- If the handler does not change the delivery settings, then, whatever else it does, a
    -- delivery does not run out of its two levels, and it lets an exception out to the task that
    -- delivers only under RAISE_IN_INLINE_MODE in inline mode, or under STOP_COMPONENT.
    pub emit_now-allowed :
        (e : NetworkEvent F) (d : Dispatcher F)
        → allowed (lets_out d) (emit_now app ctx wakes e d).1 ≡ true
    unfolding emit_now
    emit_now-allowed e d =
        let same = delivery-delivered app keeps ctx wakes e d in
        let (d', x) = delivered app keeps ctx wakes e d in
        rw (emit_now_with_lem app keeps ctx wakes (emit_now_on app 1 ctx wakes) e d) (
          subst
            (λ b.
              allowed b (after_handler app (emit_now_on app 1 ctx wakes) ctx wakes e x d').1 ≡ true)
            (lets_out-same d d' same)
            (after_handler_exit (emit_now_on app 1 ctx wakes) e x d'
              (λ c d'' h. control_exit (emit_now_on app zero ctx wakes) c d'' h)))
