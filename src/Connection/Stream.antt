-- ===== src/Connection/Stream.antt =====
-- Bytes out and in: `send`, `_read_loop` and `_safe_emit_error` of asyncio_tcp_connection.py.
pub mod Delivery
mod Tests
use aionetx.Base.{
  ℕ, ◌≡◌, ◌⊎◌, inl, inr, refl, String, Bool, true, false, not, Option, none, some, List, [], ◌∷◌,
  ◌++◌, map, Result, ok, err, Exception, connection_closed_error, type_error, if◌then◌else◌, arith,
  length, All, ◌≤◌, if-cases, ◌∙◌, ap,
}
use aionetx.Events.{NetworkEvent, bytes_received, network_error}
use aionetx.Connection.{TcpConnection, is_connected, is_down}

-- What a caller passes as `data`.
pub data Payload : Type 0 where
  bytes_like : List ℕ → Payload
  other_object : Payload

pub data WriterCall (F : Type 0) : Type 0 where
  writes : List ℕ → WriterCall F
  drains : WriterCall F
  drains_within : F → WriterCall F

-- How an await ends.
pub data Awaited (A : Type 0) : Type 0 where
  gave : A → Awaited A
  raised : Exception → Awaited A
  was_cancelled : Awaited A

-- One turn of the loop: what the read gives, the connection after it, and how the emission of the
-- event ends, with the connection after that.
pub record Turn (F : Type 0) : Type 0 where
  pub read : Awaited (List ℕ)
  pub after_read : TcpConnection F → TcpConnection F
  pub emission : Awaited (Unit {0})
  pub after_emission : TcpConnection F → TcpConnection F

-- How the loop ends. It still runs where the turns end before it.
pub data LoopEnd : Type 0 where
  ended failed_to_report cancelled runs : LoopEnd

pub record Loop (F : Type 0) : Type 0 where
  pub connection : TcpConnection F
  pub events : List (NetworkEvent F)
  pub loop_end : LoopEnd

module _ {F : Type 0} where
  abbrev pub drain_call : Option F → WriterCall F
  drain_call none = drains
  drain_call (some seconds) = drains_within seconds

  -- `drain` is how the writer's own call ends, the exception of an expired timeout included.
  unfoldable pub send :
      TcpConnection F
      → Payload
      → (drain : Awaited (Unit {0})) → List (WriterCall F) × Awaited (Unit {0})
  send c payload drain =
      if not (is_connected c) then ([], raised connection_closed_error) else elim payload [
        | other_object ↦ ([], raised type_error)
        | bytes_like bytes ↦ (writes bytes ∷ drain_call c.send_timeout_seconds ∷ [], drain)
      ]

  -- `finally: if self._state not in (CLOSING, CLOSED): await self.close()`.
  abbrev pub closes_at_end : TcpConnection F → Bool
  closes_at_end c = not (is_down c.state)

  abbrev pub stops : TcpConnection F → LoopEnd → Loop F
  stops c e = record { connection = c; events = []; loop_end = e }

  abbrev pub before : NetworkEvent F → Loop F → Loop F
  before e l = record l { events = e ∷ l.events }

  -- `_safe_emit_error`, at the end of the loop.
  abbrev pub reports : Exception → (emission : Awaited (Unit {0})) → TcpConnection F → Loop F
  reports e (gave _) c = record {
    connection = c;
    events = network_error c.connection_id e ∷ [];
    loop_end = ended;
  }
  reports e (raised _) c = record {
    connection = c;
    events = network_error c.connection_id e ∷ [];
    loop_end = failed_to_report;
  }
  reports e was_cancelled c = record {
    connection = c;
    events = network_error c.connection_id e ∷ [];
    loop_end = cancelled;
  }

  -- Behind `emit`; `rest` is what the loop does next.
  abbrev pub after_emission :
      Awaited (Unit {0}) → (reporting : Awaited (Unit {0})) → TcpConnection F → Loop F → Loop F
  after_emission (gave _) reporting c rest = rest
  after_emission (raised e) reporting c rest = reports e reporting c
  after_emission was_cancelled reporting c rest = stops c cancelled

  -- Behind the read: the connection then, and the turn from there on.
  abbrev pub after_read :
      Awaited (List ℕ)
      → (reporting : Awaited (Unit {0})) → TcpConnection F
      → (handed_on : Loop F) → Loop F
  after_read was_cancelled reporting c handed_on = stops c cancelled
  after_read (raised e) reporting c handed_on = reports e reporting c
  after_read (gave []) reporting c handed_on = stops c ended
  after_read (gave (byte ∷ bytes)) reporting c handed_on =
      before (bytes_received c.connection_id (byte ∷ bytes) none none) handed_on

  abbrev pub while_connected : TcpConnection F → Loop F → Loop F
  while_connected c turn = if is_connected c then turn else stops c ended

  -- The events that it hands to the dispatcher, in order; `reporting` is how the emission of an
  -- error event ends.
  unfoldable pub read_loop :
      (reporting : Awaited (Unit {0})) → List (Turn F) → TcpConnection F → Loop F
  read_loop reporting [] c = while_connected c (stops c runs)
  read_loop reporting (turn ∷ turns) c =
      let c' = turn.after_read c in
      let c'' = turn.after_emission c' in
      let rest = read_loop reporting turns c'' in
      while_connected c
        (after_read turn.read reporting c' (after_emission turn.emission reporting c'' rest))
