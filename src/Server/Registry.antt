-- ===== src/Server/Registry.antt =====
-- Accepting, registering and removing connections: `handle_accepted_client` and
-- `start_server_heartbeat_if_needed` (_tcp_server_helpers.py), `_on_connection_closed`
-- (asyncio_tcp_server.py). Each function is one hold of the state lock.
use aionetx.Base.{
  ℕ, suc, String, Bool, true, false, not, ◌&&◌, Option, none, some, if◌then◌else◌, leb, length,
}
use aionetx.Lifecycle.{running, same_state}
use aionetx.Events.{NetworkEvent, connection_rejected}
use aionetx.Connection.Create.{AddressInfo, host_of, port_of}
use aionetx.Server.{TcpServer, has_key, insert, remove, lookup}

-- What becomes of an accepted client.
pub data Acceptance (F : Type 0) : Type 0 where
  rejected : (rejection_event : Option (NetworkEvent F)) → Acceptance F
  registered : (connection_id : String) → Acceptance F

module _ {F : Type 0} where
  -- `_next_connection_id`: the sequence is counted up, and `build_id` makes the text.
  abbrev pub next_sequence : TcpServer F → TcpServer F
  next_sequence s = record s { connection_sequence = suc s.connection_sequence }

  abbrev rejection : TcpServer F → String → AddressInfo → NetworkEvent F
  rejection s id peer =
      connection_rejected s.component_id id "max_connections_reached" (host_of peer) (port_of peer)

  -- `handle_accepted_client`; `connection` is the new object, if it is built.
  unfoldable pub accept_section :
      (build_id : AddressInfo → ℕ → String)
      → AddressInfo
      → (connection : ℕ) → TcpServer F
      → TcpServer F × Acceptance F
  accept_section build_id peer connection s =
      let s' = next_sequence s in
      let id = build_id peer s'.connection_sequence in
      if not (same_state s.lifecycle_state running)
      then (s', rejected none)
      else (if leb s.max_connections (length s.connections)
          then (s', rejected (some (rejection s id peer)))
          else (record s' { connections = insert id connection s'.connections }, registered id))

  -- `start_server_heartbeat_if_needed`: whether the sender is started.
  unfoldable pub register_heartbeat_section :
      String → (sender : ℕ) → TcpServer F → TcpServer F × Bool
  register_heartbeat_section id sender s =
      if same_state s.lifecycle_state running && has_key id s.connections
      then (record s { heartbeat_senders = insert id sender s.heartbeat_senders }, true)
      else (s, false)

  -- The same, where the start of the sender raises.
  unfoldable pub unregister_heartbeat_section : String → TcpServer F → TcpServer F
  unregister_heartbeat_section id s = record s { heartbeat_senders = remove id s.heartbeat_senders }

  -- `_on_connection_closed`: the sender to stop.
  unfoldable pub connection_closed_section : String → TcpServer F → TcpServer F × Option ℕ
  connection_closed_section id s = (
    record s {
      heartbeat_senders = remove id s.heartbeat_senders;
      connections = remove id s.connections;
    },
    lookup id s.heartbeat_senders,
  )
