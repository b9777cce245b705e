-- ===== src/Server/Broadcast/Tests.antt =====
-- A broadcast to three clients, of which one is not connected, one fails, and one closes before its
-- own send; and the theorem at it.
use aionetx.Base.{
  ℕ, String, ◌≡◌, refl, false, none, some, List, [], ◌∷◌, ◌++◌, map, All, os_error, runtime_error,
  Exception, Option,
}
use aionetx.Events.{ConnectionState, connected, server}
use aionetx.Connection.{TcpConnection}
use aionetx.Connection.Stream.{Awaited, gave, raised, bytes_like}
use aionetx.Server.Broadcast.{
  Client, broadcast_to_connections, broadcast_is_best_effort, IsUndisturbed, live, failed_of,
  send_error, close_errors, written_to, id_of,
}

abbrev connection : String → ConnectionState → TcpConnection ℕ
connection id state = record {
  connection_id = id;
  role = server;
  receive_buffer_size = 64;
  idle_timeout_seconds = none;
  send_timeout_seconds = some 30;
  on_closed_callback = none;
  on_ready_callback = none;
  state = state;
  metadata = record {
    connection_id = id;
    role = server;
    local_host = none;
    local_port = none;
    remote_host = none;
    remote_port = none;
  };
  read_task = none;
  closed_event_published = false;
  close_event_previous_state = none;
  close_task = none;
  close_event_task = none;
  opening_event_task = none;
  close_event_deferred = false;
  deferred_close_event_waiter = none;
  deferred_close_publish_task = none;
}

abbrev client : TcpConnection ℕ → TcpConnection ℕ → Awaited (Unit {0}) → Option Exception → Client ℕ
client c at_send drain on_close = record {
  connection = c;
  at_send = at_send;
  drain = drain;
  on_error_event = gave tt;
  on_close = on_close;
  on_report = gave tt;
}

abbrev clients : List (Client ℕ)
clients =
    client (connection "a" connected) (connection "a" connected) (raised os_error)
      (some runtime_error)
    ∷ client (connection "b" ConnectionState.closed) (connection "b" ConnectionState.closed)
        (gave tt) none
    ∷ client (connection "c" connected) (connection "c" ConnectionState.closing) (gave tt) none
    ∷ []

undisturbed : All IsUndisturbed clients
undisturbed = (
  record { on_send = refl; on_error = refl; on_report_event = refl },
  (
    record { on_send = refl; on_error = refl; on_report_event = refl },
    (record { on_send = refl; on_error = refl; on_report_event = refl }, tt),
  ),
)

broadcast_is_best_effort_example :
    let failed = failed_of (live clients) in
    broadcast_to_connections "tcp/server" (bytes_like (1 ∷ [])) clients ≡ record {
      writes = map (written_to (1 ∷ [])) (live clients);
      events = map (send_error "tcp/server") failed ++ close_errors "tcp/server" failed;
      closes = map id_of failed;
      is_cancelled = false;
    }
broadcast_is_best_effort_example =
    broadcast_is_best_effort "tcp/server" (1 ∷ []) clients undisturbed

closed_two :
    (broadcast_to_connections "tcp/server" (bytes_like (1 ∷ [])) clients).closes ≡ "a" ∷ "c" ∷ []
unfolding broadcast_to_connections
closed_two = refl
