-- ===== src/Settings/Tests.antt =====
-- Settings with natural numbers for floats, of which those up to 99 are finite, and the theorems at
-- them.
use aionetx.Base.{
  ℕ, ◌≡◌, ◌↔◌, ◌≤◌, refl, true, false, some, none, ok, ltb, leb, attribute_error, err,
  if◌then◌else◌, str_eq, ◌+◌, ◌-◌, ◌*◌,
}
use aionetx.Events.{EventDeliverySettings, background, block, log_only}
use aionetx.Runtime.Backoff.{TcpReconnectSettings, no_jitter}
use aionetx.Supervision.{retry}
use aionetx.Settings.Values.{
  Value, Builtins, int_value, float_value, bool_value, str_value, enum_value, none_value,
  an_error_policy, require_non_empty_str, require_int_range, require_positive_int,
  require_optional_positive_finite_number, require_enum_member, require_bool,
  require_positive_finite_number, require_finite_number_at_least,
}
use aionetx.Settings.Delivery.{
  ReconnectFields, HeartbeatFields, validate_delivery, validate_reconnect, validate_heartbeat,
  invalid,
}
use aionetx.Settings.Transports.{
  ClientFields, ServerFields, validate_client, settings, other_object,
}
use aionetx.Settings.Acceptance.{delivery_fields, reconnect_fields, validate_delivery_iff}

abbrev builtins : Builtins ℕ
builtins = record {
  floats = record {
    zero = 0;
    one = 1;
    add = λ x y. x + y;
    sub = λ x y. x - y;
    mul = λ x y. x * y;
    half = λ x. x;
    less = ltb;
    at_most = leb;
  };
  float_of_int = λ n. if ltb n 100 then some n else none;
  float_of_negative = λ n. none;
  is_finite = λ x. ltb x 100;
  is_blank = λ s. str_eq s "";
}

abbrev reconnect : TcpReconnectSettings ℕ
reconnect = record {
  enabled = true;
  initial_delay_seconds = 1;
  max_delay_seconds = 30;
  backoff_factor = 2;
  jitter = no_jitter;
}

abbrev delivery : EventDeliverySettings
delivery = record {
  dispatch_mode = background;
  backpressure_policy = block;
  max_pending_events = 1024;
  handler_failure_policy = log_only;
}

abbrev heartbeat : HeartbeatFields ℕ
heartbeat = record { enabled = bool_value false; interval_seconds = float_value 1 }

abbrev client : Value ℕ → ClientFields ℕ
client port = record {
  host = str_value "localhost";
  port = port;
  reconnect = settings (reconnect_fields builtins reconnect);
  heartbeat = settings heartbeat;
  error_policy = enum_value (an_error_policy retry);
  receive_buffer_size = int_value 4096;
  connect_timeout_seconds = none_value;
  connection_send_timeout_seconds = float_value 30;
  event_delivery = settings (delivery_fields builtins delivery);
}

abbrev server : ServerFields ℕ
server = record {
  host = str_value "localhost";
  port = int_value 9000;
  max_connections = int_value 10;
  connection_idle_timeout_seconds = none_value;
  broadcast_concurrency_limit = int_value 64;
  broadcast_send_timeout_seconds = int_value 100;
  connection_send_timeout_seconds = float_value 30;
  heartbeat = settings heartbeat;
  receive_buffer_size = int_value 4096;
  backlog = int_value 100;
  event_delivery = settings (delivery_fields builtins delivery);
}

-- A client with a valid port, one with the port 0, and one with no reconnect settings.
accepted : validate_client builtins (client (int_value 9000)) ≡ ok tt
unfolding validate_client require_non_empty_str require_int_range require_positive_int
    require_optional_positive_finite_number require_enum_member validate_reconnect
    validate_heartbeat validate_delivery require_bool require_positive_finite_number
    require_finite_number_at_least
accepted = refl

port_rejected : validate_client builtins (client (int_value 0)) ≡ err invalid
unfolding validate_client require_non_empty_str require_int_range
port_rejected = refl

no_reconnect :
    validate_client builtins (record (client (int_value 9000)) { reconnect = other_object })
    ≡ err attribute_error
unfolding validate_client require_non_empty_str require_int_range require_positive_int
    require_optional_positive_finite_number require_enum_member
no_reconnect = refl

abbrev patient : ReconnectFields ℕ
patient = record (reconnect_fields builtins reconnect) { initial_delay_seconds = int_value 400 }

validate_delivery_iff_example :
    (validate_delivery builtins (delivery_fields builtins delivery) ≡ ok tt) ↔ (
      (s : EventDeliverySettings) × (delivery_fields builtins delivery ≡ delivery_fields builtins s)
      × (1 ≤ s.max_pending_events))
validate_delivery_iff_example = validate_delivery_iff builtins (delivery_fields builtins delivery)
