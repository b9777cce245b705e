-- ===== src/Connection/Create.antt =====
-- `AsyncioTcpConnection.__init__` (asyncio_tcp_connection.py) and `build_connection_metadata`
-- (_tcp_connection_helpers.py).
use aionetx.Base.{
  ℕ, String, Bool, false, Option, none, some, [], Result, ok, ◌>>=◌, ◌>>◌, require, value_error,
  not, str_eq, ◌==◌,
}
use aionetx.Events.{created, ConnectionRole, ConnectionMetadata}
use aionetx.Dispatcher.State.{Dispatcher}
use aionetx.Settings.Values.{Value, Builtins, require_optional_positive_finite_number}
use aionetx.Connection.{TcpConnection, World}

-- What `writer.get_extra_info` gives: a tuple of at least two, with its first entry as a text and
-- its second one as a number where `int` accepts it, or something else.
pub data AddressInfo : Type 0 where
  no_address : AddressInfo
  address : (host : String) → (port : Option ℕ) → AddressInfo

pub record ConnectionArgs (F : Type 0) : Type 0 where
  pub connection_id : String
  pub role : ConnectionRole
  pub sockname : AddressInfo
  pub peername : AddressInfo
  pub receive_buffer_size : ℕ
  pub idle_timeout_seconds : Option F
  pub send_timeout_seconds : Value F
  pub on_closed_callback : Option ℕ
  pub on_ready_callback : Option ℕ

abbrev pub host_of : AddressInfo → Option String
host_of no_address = none
host_of (address host port) = some host

abbrev pub port_of : AddressInfo → Option ℕ
port_of no_address = none
port_of (address host port) = port

unfoldable pub build_connection_metadata :
    (connection_id : String)
    → ConnectionRole
    → (sockname peername : AddressInfo) → ConnectionMetadata
build_connection_metadata connection_id role sockname peername = record {
  connection_id = connection_id;
  role = role;
  local_host = host_of sockname;
  local_port = port_of sockname;
  remote_host = host_of peername;
  remote_port = port_of peername;
}

module _ {F : Type 0} where
  -- `idle_timeout_seconds is not None and idle_timeout_seconds <= 0`.
  abbrev is_bad_idle_timeout : Builtins F → Option F → Bool
  is_bad_idle_timeout builtins none = false
  is_bad_idle_timeout builtins (some x) = builtins.floats.at_most x builtins.floats.zero

  unfoldable pub init : Builtins F → ConnectionArgs F → Result (TcpConnection F)
  unfolding build_connection_metadata require_optional_positive_finite_number
  init builtins args =
      require (not (str_eq args.connection_id "")) value_error
      >> require (not (args.receive_buffer_size == 0)) value_error
      >> require (not (is_bad_idle_timeout builtins args.idle_timeout_seconds)) value_error
      >> require_optional_positive_finite_number builtins value_error args.send_timeout_seconds
      >>= λ send_timeout_seconds. ok (record {
        connection_id = args.connection_id;
        role = args.role;
        receive_buffer_size = args.receive_buffer_size;
        idle_timeout_seconds = args.idle_timeout_seconds;
        send_timeout_seconds = send_timeout_seconds;
        on_closed_callback = args.on_closed_callback;
        on_ready_callback = args.on_ready_callback;
        state = created;
        metadata =
            build_connection_metadata args.connection_id args.role args.sockname args.peername;
        read_task = none;
        closed_event_published = false;
        close_event_previous_state = none;
        close_task = none;
        close_event_task = none;
        opening_event_task = none;
        close_event_deferred = false;
        deferred_close_event_waiter = none;
        deferred_close_publish_task = none;
      })

  -- The world right after the connection was made, on a loop whose next task and future have these
  -- numbers.
  unfoldable pub new_world : TcpConnection F → Dispatcher F → ℕ → ℕ → World F
  new_world c d next_task next_future = record {
    connection = c;
    dispatcher = d;
    tasks = λ t. none;
    next_task = next_task;
    next_future = next_future;
    published = [];
    teardowns = 0;
  }
