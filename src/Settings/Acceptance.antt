-- ===== src/Settings/Acceptance.antt =====
-- Which settings the `validate` methods of src/aionetx/api accept.
use aionetx.Base.{
  ℕ, ◌≡◌, ◌↔◌, ◌≤◌, refl, Bool, not, true, false, Result, ok, err, require, ◌>>◌, ◌&&◌, arith,
}
use aionetx.Events.{
  EventDeliverySettings, EventDispatchMode, EventBackpressurePolicy, EventHandlerFailurePolicy,
}
use aionetx.Settings.Values.{
  Value, bool_value, int_value, float_value, enum_value, Builtins, require_positive_int,
  require_enum_member, a_dispatch_mode, a_backpressure_policy, a_handler_failure_policy,
  dispatch_modes, backpressure_policies, handler_failure_policies, a_jitter, require_bool,
  require_positive_finite_number, require_finite_number_at_least, is_positive_finite,
  is_finite_at_least, require_int_range,
}
use aionetx.Runtime.Backoff.{TcpReconnectSettings}
use aionetx.Settings.Delivery.{
  DeliveryFields, ReconnectFields, invalid, validate_delivery, validate_reconnect,
}

-- Two calls in sequence that succeed are two calls that succeed.
both_ok :
    {A B : Type 0} (m : Result A) (k : Result B) (b : B)
    → (m >> k) ≡ ok b
    → ((a : A) × (m ≡ ok a)) × (k ≡ ok b)
both_ok (ok a) k b h = ((a, refl), h)
both_ok (err e) k b h = cc

module _ {F : Type 0} (builtins : Builtins F) where
  -- The fields of delivery settings that have the types that they are declared with.
  abbrev pub delivery_fields : EventDeliverySettings → DeliveryFields F
  delivery_fields s = record {
    dispatch_mode = enum_value (a_dispatch_mode s.dispatch_mode);
    backpressure_policy = enum_value (a_backpressure_policy s.backpressure_policy);
    max_pending_events = int_value s.max_pending_events;
    handler_failure_policy = enum_value (a_handler_failure_policy s.handler_failure_policy);
  }

  positive_of_ok :
      (v : Value F) (n : ℕ)
      → require_positive_int builtins invalid v ≡ ok n
      → (v ≡ int_value n) × (1 ≤ n)
  unfolding require_positive_int
  positive_of_ok v n h = ground (arith, h)

  mode_of_ok :
      (v : Value F) (m : EventDispatchMode)
      → require_enum_member builtins invalid dispatch_modes v ≡ ok m
      → v ≡ enum_value (a_dispatch_mode m)
  unfolding require_enum_member
  mode_of_ok v m h = ground (arith, h)

  backpressure_of_ok :
      (v : Value F) (m : EventBackpressurePolicy)
      → require_enum_member builtins invalid backpressure_policies v ≡ ok m
      → v ≡ enum_value (a_backpressure_policy m)
  unfolding require_enum_member
  backpressure_of_ok v m h = ground (arith, h)

  failure_of_ok :
      (v : Value F) (m : EventHandlerFailurePolicy)
      → require_enum_member builtins invalid handler_failure_policies v ≡ ok m
      → v ≡ enum_value (a_handler_failure_policy m)
  unfolding require_enum_member
  failure_of_ok v m h = ground (arith, h)

  rebuild :
      (f : DeliveryFields F) (s : EventDeliverySettings)
      → f.dispatch_mode ≡ (delivery_fields s).dispatch_mode
      → f.backpressure_policy ≡ (delivery_fields s).backpressure_policy
      → f.max_pending_events ≡ (delivery_fields s).max_pending_events
      → f.handler_failure_policy ≡ (delivery_fields s).handler_failure_policy
      → f ≡ delivery_fields s
  rebuild f s a b c d = ground (arith, a, b, c, d)

  range_of_ok :
      (a b : ℕ) (v : Value F) (n : ℕ)
      → require_int_range builtins invalid a b v ≡ ok n
      → (v ≡ int_value n) × (a ≤ n) × (n ≤ b)
  unfolding require_int_range
  range_of_ok a b v n h = ground (arith, h)

  retry_of_ok :
      (policy enabled : Bool)
      → require (not (policy && not enabled)) invalid ≡ ok tt
      → policy ≡ true
      → enabled ≡ true
  retry_of_ok policy enabled h p = ground (arith, h, p)

  abbrev IsDelivery : DeliveryFields F → Type 0
  IsDelivery f = (s : EventDeliverySettings) × (f ≡ delivery_fields s) × (1 ≤ s.max_pending_events)

  typed_of_ok : (f : DeliveryFields F) → validate_delivery builtins f ≡ ok tt → IsDelivery f
  unfolding validate_delivery
  typed_of_ok f h =
      let ((p, e), _) = both_ok _ (ok tt) tt h in
      let ((b, e'), ep) = both_ok _ _ p e in
      let ((m, e''), eb) = both_ok _ _ b e' in
      let ((n, en), em) = both_ok _ _ m e'' in
      let (number, positive) = positive_of_ok f.max_pending_events n en in
      let mode = mode_of_ok f.dispatch_mode m em in
      let backpressure = backpressure_of_ok f.backpressure_policy b eb in
      let failure = failure_of_ok f.handler_failure_policy p ep in
      let s : EventDeliverySettings = record {
        dispatch_mode = m;
        backpressure_policy = b;
        max_pending_events = n;
        handler_failure_policy = p;
      } in
      (s, rebuild f s mode backpressure number failure, positive)

  delivery_ok : (f : DeliveryFields F) → IsDelivery f → validate_delivery builtins f ≡ ok tt
  unfolding validate_delivery require_positive_int require_enum_member
  delivery_ok f (s, e, p) = rw (e, validate_delivery) (ground (arith, p))

  -- Delivery settings are accepted exactly if their fields are of the declared types and the queue
  -- may hold at least one event.
  pub validate_delivery_iff :
      (f : DeliveryFields F)
      → (validate_delivery builtins f ≡ ok tt)
        ↔ ((s : EventDeliverySettings) × (f ≡ delivery_fields s) × (1 ≤ s.max_pending_events))
  unfolding validate_delivery
  validate_delivery_iff f = (typed_of_ok f, delivery_ok f)

  -- The fields of reconnect settings that have the declared types.
  abbrev pub reconnect_fields : TcpReconnectSettings F → ReconnectFields F
  reconnect_fields s = record {
    enabled = bool_value s.enabled;
    initial_delay_seconds = float_value s.initial_delay_seconds;
    max_delay_seconds = float_value s.max_delay_seconds;
    backoff_factor = float_value s.backoff_factor;
    jitter = enum_value (a_jitter s.jitter);
  }

  -- Reconnect settings with fields of the declared types are accepted exactly if both delays are
  -- finite and positive, the maximum is not below the initial delay, and the factor is finite and
  -- not below one.
  pub validate_reconnect_iff :
      (s : TcpReconnectSettings F)
      → (validate_reconnect builtins (reconnect_fields s) ≡ ok tt) ↔ (
          (is_positive_finite builtins s.initial_delay_seconds ≡ true)
          × (is_positive_finite builtins s.max_delay_seconds ≡ true)
          × (builtins.floats.less s.max_delay_seconds s.initial_delay_seconds ≡ false)
          × (is_finite_at_least builtins builtins.floats.one s.backoff_factor ≡ true))
  unfolding validate_reconnect require_bool require_positive_finite_number
      require_finite_number_at_least require_enum_member
  validate_reconnect_iff s = ground arith
