-- ===== src/UdpSender.antt =====
-- The UDP sender: asyncio_udp_sender.py. Event loops and sockets are numbers.
pub mod Polling
pub mod Guarantees
mod Tests
use aionetx.Base.{
  ℕ, String, Bool, true, false, not, Option, none, some, List, [], ◌∷◌, ◌++◌, if◌then◌else◌, Result,
  ok, err, Exception, os_error, type_error, udp_sender_stopped_error, udp_invalid_target_error,
  discard, ◌>>=◌,
}
use aionetx.Runtime.Guards.{assert_running_on_owner_loop}
use aionetx.Settings.Values.{Value, none_value, Builtins, require_non_empty_str, require_int_range}
use aionetx.Connection.Stream.{Payload, bytes_like, other_object}
use aionetx.Server.Listen.{is_os_error}

pub record UdpSender (F : Type 0) : Type 0 where
  pub default_host : Value F
  pub default_port : Value F
  pub socket : Option ℕ
  pub closed : Bool
  pub owner_loop : Option ℕ
  pub connection_id : String

-- Making the socket: what `socket.socket` gives, what raises while it is configured and bound, and
-- what `getsockname` says, if it says something.
pub record SocketSetup : Type 0 where
  pub created : Result ℕ
  pub set_up : Option Exception
  pub sockname : Option (String × ℕ)

pub record Datagram (F : Type 0) : Type 0 where
  pub on_socket : ℕ
  pub payload : List ℕ
  pub host : Value F
  pub port : ℕ

-- The sender, the sockets of the process that it opened and did not close, and the datagrams that it
-- handed to the loop, the last one first.
pub record World (F : Type 0) : Type 0 where
  pub sender : UdpSender F
  pub open_sockets : List ℕ
  pub datagrams : List (Datagram F)

-- The arguments of one call of `send`, what the loop does with a socket that must be made, and
-- how the loop's own send ends.
pub record SendCall (F : Type 0) : Type 0 where
  pub running_loop : Option ℕ
  pub payload : Payload
  pub host : Value F
  pub port : Value F
  pub setup : SocketSetup
  pub on_send : Option Exception

abbrev pub to_result : Option Exception → Result (Unit {0})
to_result none = ok tt
to_result (some e) = err e

module _ {F : Type 0} where
  -- `value if value is not None else default`.
  abbrev pub or_default : Value F → Value F → Value F
  or_default none_value default = default
  or_default value default = value

  -- `_refresh_connection_identity_from_socket`.
  abbrev pub refresh_identity :
      (String → ℕ → String) → Option (String × ℕ) → UdpSender F → UdpSender F
  refresh_identity component_id none s = s
  refresh_identity component_id (some (host, port)) s = record s {
    connection_id = component_id host port;
  }

  abbrev pub opens : ℕ → World F → World F
  opens k w = record w { open_sockets = k ∷ w.open_sockets }

  abbrev pub closes : ℕ → World F → World F
  closes k w = record w { open_sockets = discard k w.open_sockets }

  abbrev pub after_set_up : (String → ℕ → String) → ℕ → SocketSetup → World F → World F × Result ℕ
  after_set_up component_id k setup w = elim setup.set_up [
    | some e ↦ (if is_os_error e then w else opens k w, err e)
    | none ↦ (
      record (opens k w) {
        sender = record (refresh_identity component_id setup.sockname w.sender) { socket = some k };
      },
      ok k,
    )
  ]

  -- `_ensure_socket`; a socket whose set-up raises an OSError is opened and closed.
  unfoldable pub ensure_socket :
      (component_id : String → ℕ → String) → SocketSetup → World F → World F × Result ℕ
  ensure_socket component_id setup w = elim w.sender.socket [
    | some k ↦ (w, ok k)
    | none ↦ elim setup.created [ err e ↦ (w, err e) | ok k ↦ after_set_up component_id k setup w ]
  ]

  -- The target of a datagram: the call's own host and port, or the defaults.
  unfoldable pub resolve_target :
      Builtins F → Value F → Value F → UdpSender F → Result (Value F × ℕ)
  unfolding require_non_empty_str require_int_range
  resolve_target builtins host port s = do
    h ← require_non_empty_str builtins udp_invalid_target_error (or_default host s.default_host)
    p ← require_int_range builtins udp_invalid_target_error 1 65535 (or_default port s.default_port)
    ok (h, p)

  -- `_send_nonblocking`, where the loop has `sock_sendto`.
  abbrev pub send_on :
      List ℕ → Value F × ℕ → Option Exception → World F × Result ℕ → World F × Result (Unit {0})
  send_on bytes target end (w, err e) = (w, err e)
  send_on bytes target end (w, ok k) = (
    record w {
      datagrams =
          record { on_socket = k; payload = bytes; host = target.0; port = target.1 } ∷ w.datagrams;
    },
    to_result end,
  )

  unfoldable pub send_to :
      (String → ℕ → String)
      → SendCall F
      → List ℕ
      → Result (Value F × ℕ)
      → World F
      → World F × Result (Unit {0})
  unfolding ensure_socket
  send_to component_id call bytes (err e) w = (w, err e)
  send_to component_id call bytes (ok target) w =
      send_on bytes target call.on_send (ensure_socket component_id call.setup w)

  unfoldable pub send_payload :
      Builtins F
      → (String → ℕ → String)
      → SendCall F
      → Payload
      → World F
      → World F × Result (Unit {0})
  unfolding send_to resolve_target
  send_payload builtins component_id call other_object w = (w, err type_error)
  send_payload builtins component_id call (bytes_like bytes) w =
      send_to component_id call bytes (resolve_target builtins call.host call.port w.sender) w

  abbrev pub owned_by : ℕ → World F → World F
  owned_by loop w = record w { sender = record (w.sender) { owner_loop = some loop } }

  -- `send`; `component_id` is `udp_sender_component_id`.
  unfoldable pub send :
      Builtins F
      → (component_id : String → ℕ → String) → SendCall F
      → World F
      → World F × Result (Unit {0})
  unfolding assert_running_on_owner_loop send_payload
  send builtins component_id call w =
      elim (assert_running_on_owner_loop call.running_loop w.sender.owner_loop) [
        | err e ↦ (w, err e)
        | ok loop ↦
            let w' = owned_by loop w in
            if w.sender.closed
            then (w', err udp_sender_stopped_error)
            else send_payload builtins component_id call call.payload w'
      ]

  -- A `socket.close()` that raises leaves the sender its socket, which counts as open.
  abbrev pub close_socket :
      Option ℕ → (on_close : Option Exception) → World F → World F × Result (Unit {0})
  close_socket none on_close w = (w, ok tt)
  close_socket (some k) (some e) w = (w, err e)
  close_socket (some k) none w =
      (closes k (record w { sender = record (w.sender) { socket = none } }), ok tt)

  -- `stop`; `on_close` is how `socket.close()` ends.
  unfoldable pub stop :
      (running_loop : Option ℕ)
      → (on_close : Option Exception) → World F
      → World F × Result (Unit {0})
  unfolding assert_running_on_owner_loop
  stop running_loop on_close w =
      if w.sender.closed
      then (w, ok tt)
      else elim (assert_running_on_owner_loop running_loop w.sender.owner_loop) [
        | err e ↦ (w, err e)
        | ok loop ↦
            close_socket w.sender.socket on_close
              (record w { sender = record (w.sender) { owner_loop = some loop; closed = true } })
      ]
