-- ===== src/Settings/Transports.antt =====
-- The settings of the transports: tcp_client.py, tcp_server.py, udp.py and
-- multicast_receiver_settings.py.
use aionetx.Base.{
  Bool, true, false, Option, some, none, Result, ok, err, require, ◌>>◌, ◌>>=◌, attribute_error,
}
use aionetx.Supervision.{retry}
use aionetx.Settings.Values.{
  Value, none_value, enum_value, an_error_policy, Builtins, require_bool, require_non_empty_str,
  require_optional_non_empty_str, require_int_range, require_positive_int,
  require_optional_positive_finite_number, require_enum_member, error_policies, is_true,
}
use aionetx.Settings.Delivery.{
  DeliveryFields, ReconnectFields, HeartbeatFields, invalid, validate_delivery, validate_reconnect,
  validate_heartbeat,
}

-- What stands where settings are expected: those settings, or an object without their attributes.
pub data Nested (Fields : Type 0) : Type 0 where
  settings : Fields → Nested Fields
  other_object : Nested Fields

-- An attribute of such settings, or a call of `validate`.
abbrev pub with_settings :
    {Fields Value : Type 0} → (Fields → Result Value) → Nested Fields → Result Value
with_settings read (settings fields) = read fields
with_settings read other_object = err attribute_error

pub record ClientFields (F : Type 0) : Type 0 where
  pub host : Value F
  pub port : Value F
  pub reconnect : Nested (ReconnectFields F)
  pub heartbeat : Nested (HeartbeatFields F)
  pub error_policy : Value F
  pub receive_buffer_size : Value F
  pub connect_timeout_seconds : Value F
  pub connection_send_timeout_seconds : Value F
  pub event_delivery : Nested (DeliveryFields F)

pub record ServerFields (F : Type 0) : Type 0 where
  pub host : Value F
  pub port : Value F
  pub max_connections : Value F
  pub connection_idle_timeout_seconds : Value F
  pub broadcast_concurrency_limit : Value F
  pub broadcast_send_timeout_seconds : Value F
  pub connection_send_timeout_seconds : Value F
  pub heartbeat : Nested (HeartbeatFields F)
  pub receive_buffer_size : Value F
  pub backlog : Value F
  pub event_delivery : Nested (DeliveryFields F)

pub record UdpSenderFields (F : Type 0) : Type 0 where
  pub default_host : Value F
  pub default_port : Value F
  pub local_host : Value F
  pub local_port : Value F
  pub enable_broadcast : Value F

pub record MulticastFields (F : Type 0) : Type 0 where
  pub group_ip : Value F
  pub port : Value F
  pub bind_ip : Value F
  pub interface_ip : Value F
  pub receive_buffer_size : Value F
  pub event_delivery : Nested (DeliveryFields F)

-- `if value is not None: …`.
abbrev pub unless_none : {F : Type 0} → (Value F → Result (Unit {0})) → Value F → Result (Unit {0})
unless_none test none_value = ok tt
unless_none test value = test value

-- `value == ErrorPolicy.RETRY` for a value that is None or a member of `ErrorPolicy`.
abbrev pub is_retry : {F : Type 0} → Value F → Bool
is_retry (enum_value (an_error_policy retry)) = true
is_retry _ = false

-- `_validate_ipv4_address`.
abbrev validate_ipv4_address : {F : Type 0} → (Value F → Option Bool) → Value F → Result Bool
validate_ipv4_address parse_ipv4 value = elim (parse_ipv4 value) [
  | none ↦ err invalid
  | some is_multicast ↦ ok is_multicast
]

module _ {F : Type 0} (builtins : Builtins F) where
  -- `if self.error_policy == ErrorPolicy.RETRY and not self.reconnect.enabled: raise …`.
  abbrev pub require_reconnect : Bool → Nested (ReconnectFields F) → Result (Unit {0})
  require_reconnect false reconnect = ok tt
  require_reconnect true reconnect =
      with_settings (λ fields. require (is_true builtins fields.enabled) invalid) reconnect

  -- `TcpClientSettings.validate`.
  unfoldable pub validate_client : ClientFields F → Result (Unit {0})
  validate_client s =
      require_non_empty_str builtins invalid s.host
      >> require_int_range builtins invalid 1 65535 s.port
      >> require_positive_int builtins invalid s.receive_buffer_size
      >> require_optional_positive_finite_number builtins invalid s.connect_timeout_seconds
      >> require_optional_positive_finite_number builtins invalid s.connection_send_timeout_seconds
      >> unless_none (λ v. require_enum_member builtins invalid error_policies v >> ok tt)
          s.error_policy
      >> require_reconnect (is_retry s.error_policy) s.reconnect
      >> with_settings (validate_reconnect builtins) s.reconnect
      >> with_settings (validate_heartbeat builtins) s.heartbeat
      >> with_settings (validate_delivery builtins) s.event_delivery

  -- `TcpServerSettings.validate`.
  unfoldable pub validate_server : ServerFields F → Result (Unit {0})
  validate_server s =
      require_non_empty_str builtins invalid s.host
      >> require_int_range builtins invalid 1 65535 s.port
      >> require_positive_int builtins invalid s.max_connections
      >> require_optional_positive_finite_number builtins invalid s.connection_idle_timeout_seconds
      >> require_positive_int builtins invalid s.broadcast_concurrency_limit
      >> require_optional_positive_finite_number builtins invalid s.broadcast_send_timeout_seconds
      >> require_optional_positive_finite_number builtins invalid s.connection_send_timeout_seconds
      >> require_positive_int builtins invalid s.receive_buffer_size
      >> require_positive_int builtins invalid s.backlog
      >> with_settings (validate_heartbeat builtins) s.heartbeat
      >> with_settings (validate_delivery builtins) s.event_delivery

  -- `UdpSenderSettings.validate`.
  unfoldable pub validate_udp_sender : UdpSenderFields F → Result (Unit {0})
  validate_udp_sender s =
      require_optional_non_empty_str builtins invalid s.default_host
      >> unless_none (λ v. require_int_range builtins invalid 1 65535 v >> ok tt) s.default_port
      >> require_non_empty_str builtins invalid s.local_host
      >> require_int_range builtins invalid 0 65535 s.local_port
      >> require_bool builtins invalid s.enable_broadcast
      >> ok tt

  -- `MulticastReceiverSettings.validate`; `parse_ipv4` is `ipaddress.IPv4Address`, which says of an
  -- address whether it is a multicast address, and raises a ValueError for anything else.
  unfoldable pub validate_multicast :
      (parse_ipv4 : Value F → Option Bool) → MulticastFields F → Result (Unit {0})
  validate_multicast parse_ipv4 s = do
    require_non_empty_str builtins invalid s.group_ip
        >> require_int_range builtins invalid 1 65535 s.port
        >> require_non_empty_str builtins invalid s.bind_ip
        >> require_non_empty_str builtins invalid s.interface_ip
    is_multicast ← validate_ipv4_address parse_ipv4 s.group_ip
    require is_multicast invalid
        >> validate_ipv4_address parse_ipv4 s.bind_ip
        >> validate_ipv4_address parse_ipv4 s.interface_ip
        >> require_positive_int builtins invalid s.receive_buffer_size
        >> with_settings (validate_delivery builtins) s.event_delivery
