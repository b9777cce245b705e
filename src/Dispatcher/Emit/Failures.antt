-- ===== src/Dispatcher/Emit/Failures.antt =====
-- The handling of handler failures: how deep `_emit_now` and `_handle_handler_failure` of
-- event_dispatcher.py call each other.
use aionetx.Base.{
  ℕ, suc, zero, ◌≡◌, refl, true, false, Option, some, List, arith, ap, ◌∙◌, sym, Exception,
  handler_cancelled_error, String,
}
use aionetx.Events.{
  EventDeliverySettings, NetworkEvent, EventHandlerFailurePolicy, log_only, emit_error_event,
  stop_component, raise_in_inline_mode, network_error, handler_failure_policy_stop, event_type,
  network_error_event, handler_failure_policy_stop_event, resource_id,
}
use aionetx.Dispatcher.State.{Dispatcher}
use aionetx.Dispatcher.Context.{TaskContext, enter_handler_dispatch, leave_handler_dispatch}
use aionetx.Dispatcher.Emit.{
  HandlerExit, returns, raises, raises_cancelled, Exit, Application, emit_with, emit_control,
  handle_handler_failure, record_handler_failure, after_handler, emit_now_with, emit_now_on,
  emit_now, count_attempt, source_or_default, count_emit, count_failure, count_inline_fallback,
}

-- `_delivery` is assigned in `__init__` alone: no other code changes the settings.
pub record KeepsSettings {F : Type 0} (app : Application F) : Type 0 where
  pub by_handler :
      (ctx : TaskContext) (event : NetworkEvent F) (d : Dispatcher F)
      → (app.on_event ctx event d).0.delivery ≡ d.delivery

abbrev pub handler_policy : EventDeliverySettings → EventHandlerFailurePolicy
handler_policy s = s.handler_failure_policy

abbrev pub Deliver : Type 0 → Type 0
Deliver F = NetworkEvent F → Dispatcher F → Dispatcher F × Exit

module _ {F : Type 0} where
  abbrev pub policy : Dispatcher F → EventHandlerFailurePolicy
  policy d = d.delivery.handler_failure_policy

  -- The control event that a policy emits is not answered by another one.
  abbrev pub IsControl : EventHandlerFailurePolicy → NetworkEvent F → Type 0
  IsControl log_only e = Unit {0}
  IsControl raise_in_inline_mode e = Unit {0}
  IsControl emit_error_event e = event_type e ≡ network_error_event
  IsControl stop_component e = event_type e ≡ handler_failure_policy_stop_event

  pub IsControl-subst :
      {p q : EventHandlerFailurePolicy} (e : NetworkEvent F) → p ≡ q → IsControl p e → IsControl q e
  IsControl-subst e h c = rw (← h) c

  delivery-enter :
      (r : Option String) (ctx : TaskContext) (d : Dispatcher F)
      → (enter_handler_dispatch r ctx d).0.delivery ≡ d.delivery
  unfolding enter_handler_dispatch
  delivery-enter r ctx d = ground arith

  delivery-leave :
      (t : Option ℕ) (d : Dispatcher F) → (leave_handler_dispatch t d).delivery ≡ d.delivery
  unfolding leave_handler_dispatch
  delivery-leave t d = ground arith

  module _ (app : Application F) (keeps : KeepsSettings app) (ctx : TaskContext)
      (wakes : List (Dispatcher F → Dispatcher F)) where
    handle_control :
        (f g : Deliver F) (p : EventHandlerFailurePolicy) (error : Exception) (e : NetworkEvent F)
        (d : Dispatcher F)
        → IsControl p e
        → handle_handler_failure app f ctx wakes p error e d
          ≡ handle_handler_failure app g ctx wakes p error e d
    unfolding handle_handler_failure
    handle_control f g log_only error e d h = refl
    handle_control f g raise_in_inline_mode error e d h = refl
    handle_control f g emit_error_event error e d h = ground (arith, h)
    handle_control f g stop_component error e d h = ground (arith, h)

    after_handler_control :
        (f g : Deliver F) (e : NetworkEvent F) (x : HandlerExit) (d : Dispatcher F)
        → IsControl (policy d) e
        → after_handler app f ctx wakes e x d ≡ after_handler app g ctx wakes e x d
    unfolding after_handler record_handler_failure
    after_handler_control f g e returns d h = refl
    after_handler_control f g e (raises error) d h =
        handle_control f g _ error e (count_failure d) h
    after_handler_control f g e (raises_cancelled true) d h = refl
    after_handler_control f g e (raises_cancelled false) d h =
        handle_control f g _ handler_cancelled_error e (count_failure d) h

    -- The dispatcher and the handler's exit when a delivery comes to its `except` clauses.
    unfoldable pub delivered : NetworkEvent F → Dispatcher F → Dispatcher F × HandlerExit
    delivered e d =
        let (d₁, ctx₁, token) =
          enter_handler_dispatch (some (resource_id e)) ctx (count_attempt d) in
        let (d₂, exit) = app.on_event ctx₁ e d₁ in (leave_handler_dispatch token d₂, exit)

    pub delivery-delivered :
        (e : NetworkEvent F) (d : Dispatcher F) → (delivered e d).0.delivery ≡ d.delivery
    unfolding delivered
    delivery-delivered e d =
        delivery-leave _ _ ∙ keeps.by_handler _ e _ ∙ delivery-enter _ ctx (count_attempt d)

    pub emit_now_with_lem :
        (f : Deliver F) (e : NetworkEvent F) (d : Dispatcher F)
        → emit_now_with app f ctx wakes e d
          ≡ after_handler app f ctx wakes e (delivered e d).1 (delivered e d).0
    unfolding delivered emit_now_with
    emit_now_with_lem f e d = refl

    pub control_stable :
        (f g : Deliver F) (e : NetworkEvent F) (d : Dispatcher F)
        → IsControl (policy d) e
        → emit_now_with app f ctx wakes e d ≡ emit_now_with app g ctx wakes e d
    control_stable f g e d h =
        rw (emit_now_with_lem f e d, emit_now_with_lem g e d)
          (after_handler_control f g e _ _
            (IsControl-subst e (ap handler_policy (sym (delivery-delivered e d))) h))

    emit_with_stable :
        (f g : Deliver F) (e : NetworkEvent F) (d : Dispatcher F)
        → ((d' : Dispatcher F) → d'.delivery ≡ d.delivery → f e d' ≡ g e d')
        → emit_with f ctx wakes e d ≡ emit_with g ctx wakes e d
    unfolding emit_with
    emit_with_stable f g e d h =
        ground (arith, h (count_emit d) refl, h (count_inline_fallback (count_emit d)) refl)

    emit_control_stable :
        (f g : Deliver F) (e : NetworkEvent F) (d : Dispatcher F)
        → ((d' : Dispatcher F) → d'.delivery ≡ d.delivery → f e d' ≡ g e d')
        → emit_control f ctx wakes e d ≡ emit_control g ctx wakes e d
    unfolding emit_control
    emit_control_stable f g e d h = ground (arith, h d refl, emit_with_stable f g e d h)

    -- Two deliveries that agree on control events.
    abbrev Agree : Deliver F → Deliver F → Type 0
    Agree f g = (e : NetworkEvent F) (d : Dispatcher F) → IsControl (policy d) e → f e d ≡ g e d

    handle_stable :
        (f g : Deliver F) (p : EventHandlerFailurePolicy) (error : Exception) (e : NetworkEvent F)
        (d : Dispatcher F)
        → p ≡ policy d
        → Agree f g
        → handle_handler_failure app f ctx wakes p error e d
          ≡ handle_handler_failure app g ctx wakes p error e d
    unfolding handle_handler_failure
    handle_stable f g log_only error e d h a = refl
    handle_stable f g raise_in_inline_mode error e d h a = refl
    handle_stable f g emit_error_event error e d h a =
        let control : NetworkEvent F = network_error (source_or_default d.error_source) error in
        ground (
          arith,
          emit_control_stable f g control d (λ d' same.
              a control d' (IsControl-subst control (h ∙ ap handler_policy (sym same)) refl)),
        )
    handle_stable f g stop_component error e d h a =
        let control : NetworkEvent F =
          handler_failure_policy_stop (source_or_default d.error_source) (event_type e) error
            stop_component d.delivery.dispatch_mode in
        ground (
          arith,
          emit_control_stable f g control d (λ d' same.
              a control d' (IsControl-subst control (h ∙ ap handler_policy (sym same)) refl)),
        )

    after_handler_stable :
        (f g : Deliver F) (e : NetworkEvent F) (x : HandlerExit) (d : Dispatcher F)
        → Agree f g
        → after_handler app f ctx wakes e x d ≡ after_handler app g ctx wakes e x d
    unfolding after_handler record_handler_failure
    after_handler_stable f g e returns d a = refl
    after_handler_stable f g e (raises error) d a =
        handle_stable f g _ error e (count_failure d) refl a
    after_handler_stable f g e (raises_cancelled true) d a = refl
    after_handler_stable f g e (raises_cancelled false) d a =
        handle_stable f g _ handler_cancelled_error e (count_failure d) refl a

    -- If the handler does not change the delivery settings, handler failures are handled in two
    -- levels at most: any larger bound on the depth gives the same dispatcher and the same exit.
    pub emit_now_on_enough :
        (fuel : ℕ) (e : NetworkEvent F) (d : Dispatcher F)
        → emit_now_on app (suc (suc fuel)) ctx wakes e d ≡ emit_now app ctx wakes e d
    unfolding emit_now
    emit_now_on_enough fuel e d =
        rw (emit_now_with_lem _ e d, emit_now_with_lem _ e d)
          (after_handler_stable (emit_now_on app (suc fuel) ctx wakes) (emit_now_on app 1 ctx wakes)
            e (delivered e d).1 (delivered e d).0
            (λ c d' h.
              control_stable (emit_now_on app fuel ctx wakes) (emit_now_on app zero ctx wakes) c d'
                h))
