-- ===== src/Settings/Delivery.antt =====
-- Settings that are parts of others: event_delivery_settings.py, tcp_reconnect_settings.py and
-- heartbeat.py. A record holds the values of a dataclass's fields, whatever they are.
use aionetx.Base.{
  Bool, not, Result, ok, require, ◌>>◌, ◌>>=◌, Exception, invalid_network_configuration_error,
  type_error, ◌&&◌,
}
use aionetx.Settings.Values.{
  Value, Builtins, require_bool, require_positive_int, require_positive_finite_number,
  require_finite_number_at_least, require_enum_member, dispatch_modes, backpressure_policies,
  handler_failure_policies, jitters,
}

pub record DeliveryFields (F : Type 0) : Type 0 where
  pub dispatch_mode : Value F
  pub backpressure_policy : Value F
  pub max_pending_events : Value F
  pub handler_failure_policy : Value F

pub record ReconnectFields (F : Type 0) : Type 0 where
  pub enabled : Value F
  pub initial_delay_seconds : Value F
  pub max_delay_seconds : Value F
  pub backoff_factor : Value F
  pub jitter : Value F

pub record HeartbeatFields (F : Type 0) : Type 0 where
  pub enabled : Value F
  pub interval_seconds : Value F

-- The error type that the tests have by default.
abbrev pub invalid : Exception
invalid = invalid_network_configuration_error

module _ {F : Type 0} (builtins : Builtins F) where
  -- `EventDeliverySettings.validate`.
  unfoldable pub validate_delivery : DeliveryFields F → Result (Unit {0})
  validate_delivery s =
      require_positive_int builtins invalid s.max_pending_events
      >> require_enum_member builtins invalid dispatch_modes s.dispatch_mode
      >> require_enum_member builtins invalid backpressure_policies s.backpressure_policy
      >> require_enum_member builtins invalid handler_failure_policies s.handler_failure_policy
      >> ok tt

  -- `TcpReconnectSettings.validate`.
  unfoldable pub validate_reconnect : ReconnectFields F → Result (Unit {0})
  validate_reconnect s = do
    enabled ← require_bool builtins invalid s.enabled
    initial ← require_positive_finite_number builtins invalid s.initial_delay_seconds
    maximum ← require_positive_finite_number builtins invalid s.max_delay_seconds
    require (not (builtins.floats.less maximum initial)) invalid
    require_finite_number_at_least builtins invalid builtins.floats.one s.backoff_factor
        >> require_enum_member builtins invalid jitters s.jitter
        >> ok tt

  -- `TcpHeartbeatSettings.validate`.
  unfoldable pub validate_heartbeat : HeartbeatFields F → Result (Unit {0})
  validate_heartbeat s =
      require_bool builtins invalid s.enabled
      >> require_positive_finite_number builtins invalid s.interval_seconds
      >> ok tt

  -- `HeartbeatResult.__post_init__`; `is_bytes_like` tells of the payload.
  unfoldable pub validate_heartbeat_result : Value F → (is_bytes_like : Bool) → Result (Unit {0})
  validate_heartbeat_result should_send is_bytes_like = do
    send ← require_bool builtins type_error should_send
    require (not (send && not is_bytes_like)) type_error
