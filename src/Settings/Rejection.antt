-- ===== src/Settings/Rejection.antt =====
-- With which exceptions the `validate` methods of src/aionetx/api reject settings.
use aionetx.Base.{
  ℕ, ◌≡◌, refl, Bool, not, true, false, Option, none, Result, ok, err, require, ◌>>◌, ◌>>=◌,
  Exception, invalid_network_configuration_error, overflow_error, attribute_error, arith,
}
use aionetx.Settings.Values.{
  Value, bool_value, int_value, Builtins, require_bool, require_non_empty_str, require_int_range,
  require_positive_int, require_positive_finite_number, require_optional_positive_finite_number,
  require_finite_number_at_least, require_enum_member, EnumMember, error_policies, is_true,
}
use aionetx.Settings.Delivery.{
  DeliveryFields, ReconnectFields, HeartbeatFields, invalid, validate_delivery, validate_reconnect,
  validate_heartbeat,
}
use aionetx.Settings.Transports.{
  Nested, settings, other_object, with_settings, require_reconnect, ClientFields, ServerFields,
  validate_client, validate_server, unless_none, is_retry,
}

abbrev pub is_expected : Exception → Bool
is_expected invalid_network_configuration_error = true
is_expected overflow_error = true
is_expected attribute_error = true
is_expected _ = false

-- A result, or one of the three exceptions.
abbrev pub Rejects : {A : Type 0} → Result A → Type 0
Rejects {A} m = (e : Exception) → m ≡ err e → is_expected e ≡ true

Rejects-bind :
    {A B : Type 0} (m : Result A) (f : A → Result B)
    → Rejects m
    → ((a : A) → Rejects (f a))
    → Rejects (m >>= f)
Rejects-bind (ok a) f h g = g a
Rejects-bind (err e) f h g = λ e' k. ground (arith, h e refl, k)

infixl 5 ◌then◌
◌then◌ : {A B : Type 0} {m : Result A} {k : Result B} → Rejects m → Rejects k → Rejects (m >> k)
◌then◌ {m = m} {k = k} h g = Rejects-bind m (λ _. k) h (λ _. g)

module _ {F : Type 0} (builtins : Builtins F) where
  require-Rejects : (b : Bool) → Rejects (require b invalid)
  require-Rejects b e h = ground (arith, h)

  bool-Rejects : (v : Value F) → Rejects (require_bool builtins invalid v)
  unfolding require_bool
  bool-Rejects v e h = ground (arith, h)

  str-Rejects : (v : Value F) → Rejects (require_non_empty_str builtins invalid v)
  unfolding require_non_empty_str
  str-Rejects v e h = ground (arith, h)

  range-Rejects : (a b : ℕ) (v : Value F) → Rejects (require_int_range builtins invalid a b v)
  unfolding require_int_range
  range-Rejects a b v e h = ground (arith, h)

  positive-Rejects : (v : Value F) → Rejects (require_positive_int builtins invalid v)
  unfolding require_positive_int
  positive-Rejects v e h = ground (arith, h)

  number-Rejects : (v : Value F) → Rejects (require_positive_finite_number builtins invalid v)
  unfolding require_positive_finite_number
  number-Rejects v e h = ground (arith, h)

  optional-Rejects :
      (v : Value F) → Rejects (require_optional_positive_finite_number builtins invalid v)
  unfolding require_optional_positive_finite_number
  optional-Rejects v e h = ground (arith, h)

  at_least-Rejects :
      (x : F) (v : Value F) → Rejects (require_finite_number_at_least builtins invalid x v)
  unfolding require_finite_number_at_least
  at_least-Rejects x v e h = ground (arith, h)

  member-Rejects :
      {A : Type 0} (t : EnumMember → Option A) (v : Value F)
      → Rejects (require_enum_member builtins invalid t v)
  unfolding require_enum_member
  member-Rejects t v e h = ground (arith, h)

  ok-Rejects : {A : Type 0} (a : A) → Rejects (ok a)
  ok-Rejects a e h = cc

  delivery-Rejects : (s : DeliveryFields F) → Rejects (validate_delivery builtins s)
  unfolding validate_delivery
  delivery-Rejects s =
      positive-Rejects s.max_pending_events
      then member-Rejects _ s.dispatch_mode
      then member-Rejects _ s.backpressure_policy
      then member-Rejects _ s.handler_failure_policy
      then ok-Rejects tt

  reconnect-Rejects : (s : ReconnectFields F) → Rejects (validate_reconnect builtins s)
  unfolding validate_reconnect
  reconnect-Rejects s = Rejects-bind _ _ (bool-Rejects s.enabled) (λ enabled.
      Rejects-bind _ _ (number-Rejects s.initial_delay_seconds) (λ initial.
        Rejects-bind _ _ (number-Rejects s.max_delay_seconds) (λ maximum.
          Rejects-bind _ _ (require-Rejects (not (builtins.floats.less maximum initial))) (λ _.
            at_least-Rejects builtins.floats.one s.backoff_factor
            then member-Rejects _ s.jitter
            then ok-Rejects tt))))

  heartbeat-Rejects : (s : HeartbeatFields F) → Rejects (validate_heartbeat builtins s)
  unfolding validate_heartbeat
  heartbeat-Rejects s =
      bool-Rejects s.enabled then number-Rejects s.interval_seconds then ok-Rejects tt

  policy-Rejects :
      (v : Value F)
      → Rejects
          (unless_none (λ w. require_enum_member builtins invalid error_policies w >> ok tt) v)
  unfolding require_enum_member
  policy-Rejects v e h = ground (arith, h)

  nested-Rejects :
      {Fields : Type 0} (test : Fields → Result (Unit {0})) (nested : Nested Fields)
      → ((fields : Fields) → Rejects (test fields))
      → Rejects (with_settings test nested)
  nested-Rejects test (settings fields) h e k = h fields e k
  nested-Rejects test other_object h e k = ground (arith, k)

  retry-Rejects :
      (is_retry : Bool) (reconnect : Nested (ReconnectFields F))
      → Rejects (require_reconnect builtins is_retry reconnect)
  retry-Rejects false reconnect = ok-Rejects tt
  retry-Rejects true reconnect =
      nested-Rejects (λ fields. require (is_true builtins fields.enabled) invalid) reconnect
        (λ fields. require-Rejects (is_true builtins fields.enabled))

  -- A client's settings, whatever its fields hold, are rejected with an
  -- InvalidNetworkConfigurationError, an OverflowError or an AttributeError, and with nothing else.
  pub validate_client-Rejects :
      (s : ClientFields F) (e : Exception)
      → validate_client builtins s ≡ err e
      → is_expected e ≡ true
  unfolding validate_client
  validate_client-Rejects s =
      str-Rejects s.host
      then range-Rejects 1 65535 s.port
      then positive-Rejects s.receive_buffer_size
      then optional-Rejects s.connect_timeout_seconds
      then optional-Rejects s.connection_send_timeout_seconds
      then policy-Rejects s.error_policy
      then retry-Rejects (is_retry s.error_policy) s.reconnect
      then nested-Rejects (validate_reconnect builtins) s.reconnect reconnect-Rejects
      then nested-Rejects (validate_heartbeat builtins) s.heartbeat heartbeat-Rejects
      then nested-Rejects (validate_delivery builtins) s.event_delivery delivery-Rejects

  -- A server's settings, whatever its fields hold, are rejected with an
  -- InvalidNetworkConfigurationError, an OverflowError or an AttributeError, and with nothing else.
  pub validate_server-Rejects :
      (s : ServerFields F) (e : Exception)
      → validate_server builtins s ≡ err e
      → is_expected e ≡ true
  unfolding validate_server
  validate_server-Rejects s =
      str-Rejects s.host
      then range-Rejects 1 65535 s.port
      then positive-Rejects s.max_connections
      then optional-Rejects s.connection_idle_timeout_seconds
      then positive-Rejects s.broadcast_concurrency_limit
      then optional-Rejects s.broadcast_send_timeout_seconds
      then optional-Rejects s.connection_send_timeout_seconds
      then positive-Rejects s.receive_buffer_size
      then positive-Rejects s.backlog
      then nested-Rejects (validate_heartbeat builtins) s.heartbeat heartbeat-Rejects
      then nested-Rejects (validate_delivery builtins) s.event_delivery delivery-Rejects

  -- Reconnect settings with a Boolean switch whose initial delay is an integer too large for a
  -- float are rejected with an OverflowError.
  pub reconnect_overflow :
      (s : ReconnectFields F) (b : Bool) (n : ℕ)
      → s.enabled ≡ bool_value b
      → s.initial_delay_seconds ≡ int_value n
      → builtins.float_of_int n ≡ none
      → validate_reconnect builtins s ≡ err overflow_error
  unfolding validate_reconnect require_bool require_positive_finite_number
  reconnect_overflow s b n h i o = ground (arith, h, i, o)
