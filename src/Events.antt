-- ===== src/Events.antt =====
-- The events that handlers receive and the settings of their delivery: the dataclasses of
-- src/aionetx/api (network_event.py, connection_events.py, bytes_received_event.py,
-- network_error_event.py, handler_failure_policy_stop_event.py, reconnect_events.py,
-- connection_metadata.py, event_delivery_settings.py). `F` is the type of floats.
use aionetx.Base.{ℕ, String, Option, List, Exception}
use aionetx.Lifecycle.{ComponentLifecycleChangedEvent}

pub data EventDispatchMode : Type 0 where
  inline background : EventDispatchMode

pub data EventBackpressurePolicy : Type 0 where
  block drop_oldest drop_newest : EventBackpressurePolicy

pub data EventHandlerFailurePolicy : Type 0 where
  log_only emit_error_event stop_component raise_in_inline_mode : EventHandlerFailurePolicy

pub record EventDeliverySettings : Type 0 where
  pub dispatch_mode : EventDispatchMode
  pub backpressure_policy : EventBackpressurePolicy
  pub max_pending_events : ℕ
  pub handler_failure_policy : EventHandlerFailurePolicy

pub data ConnectionRole : Type 0 where
  client server multicast_receiver udp_receiver : ConnectionRole

pub data ConnectionState : Type 0 where
  created connecting connected closing closed : ConnectionState

pub record ConnectionMetadata : Type 0 where
  pub connection_id : String
  pub role : ConnectionRole
  pub local_host : Option String
  pub local_port : Option ℕ
  pub remote_host : Option String
  pub remote_port : Option ℕ

-- `type(event).__name__`.
pub data EventType : Type 0 where
  connection_opened_event connection_rejected_event connection_closed_event : EventType
  bytes_received_event network_error_event handler_failure_policy_stop_event : EventType
  component_lifecycle_changed_event reconnect_attempt_started_event : EventType
  reconnect_attempt_failed_event reconnect_scheduled_event : EventType

-- The union `NetworkEvent`, the fields of each class in their order. Bytes are numbers below 256.
pub data NetworkEvent (F : Type 0) : Type 0 where
  connection_opened : (resource_id : String) → ConnectionMetadata → NetworkEvent F
  connection_rejected :
      (resource_id connection_id reason : String)
      → (remote_host : Option String) → (remote_port : Option ℕ) → NetworkEvent F
  connection_closed :
      (resource_id : String) → ConnectionState → Option ConnectionMetadata → NetworkEvent F
  bytes_received :
      (resource_id : String)
      → (payload : List ℕ) → (remote_host : Option String) → (remote_port : Option ℕ)
      → NetworkEvent F
  network_error : (resource_id : String) → Exception → NetworkEvent F
  handler_failure_policy_stop :
      (resource_id : String)
      → (triggering_event_name : EventType) → Exception
      → EventHandlerFailurePolicy
      → EventDispatchMode
      → NetworkEvent F
  component_lifecycle_changed : ComponentLifecycleChangedEvent → NetworkEvent F
  reconnect_attempt_started : (resource_id : String) → (attempt : ℕ) → NetworkEvent F
  reconnect_attempt_failed :
      (resource_id : String)
      → (attempt : ℕ) → Exception
      → (next_delay_seconds : Option F) → NetworkEvent F
  reconnect_scheduled :
      (resource_id : String) → (attempt : ℕ) → (delay_seconds : F) → NetworkEvent F

module _ {F : Type 0} where
  abbrev pub event_type : NetworkEvent F → EventType
  event_type (connection_opened r m) = connection_opened_event
  event_type (connection_rejected r c w h p) = connection_rejected_event
  event_type (connection_closed r s m) = connection_closed_event
  event_type (bytes_received r b h p) = bytes_received_event
  event_type (network_error r e) = network_error_event
  event_type (handler_failure_policy_stop r n e q m) = handler_failure_policy_stop_event
  event_type (component_lifecycle_changed e) = component_lifecycle_changed_event
  event_type (reconnect_attempt_started r n) = reconnect_attempt_started_event
  event_type (reconnect_attempt_failed r n e d) = reconnect_attempt_failed_event
  event_type (reconnect_scheduled r n d) = reconnect_scheduled_event

  -- `event.resource_id`, which every class of the union has.
  abbrev pub resource_id : NetworkEvent F → String
  resource_id (connection_opened r m) = r
  resource_id (connection_rejected r c w h p) = r
  resource_id (connection_closed r s m) = r
  resource_id (bytes_received r b h p) = r
  resource_id (network_error r e) = r
  resource_id (handler_failure_policy_stop r n e q m) = r
  resource_id (component_lifecycle_changed e) = e.resource_id
  resource_id (reconnect_attempt_started r n) = r
  resource_id (reconnect_attempt_failed r n e d) = r
  resource_id (reconnect_scheduled r n d) = r
