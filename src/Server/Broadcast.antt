-- ===== src/Server/Broadcast.antt =====
-- `broadcast_to_connections` and `report_teardown_errors` of _tcp_server_helpers.py. The sends run
-- concurrently, as many at a time as the limit allows; what is modelled is what each of them does,
-- and what follows when all have ended. Messages of the log are left out.
mod Tests
use mathlib.Core.List.{append-nil}
use aionetx.Base.{
  ℕ, ◌≡◌, refl, String, Bool, true, false, not, ◌&&◌, Option, none, some, List, [], ◌∷◌, ◌++◌, map,
  if◌then◌else◌, Exception, cancelled_error, arith, ap, ◌∙◌, All, is_some, Bool-cases, inl, inr,
  if-cases, connection_closed_error,
}
use aionetx.Events.{NetworkEvent, network_error}
use aionetx.Connection.{TcpConnection, is_connected}
use aionetx.Connection.Stream.{
  Payload, Awaited, gave, raised, was_cancelled, WriterCall, drain_call, send, bytes_like,
}

-- A connection as the snapshot sees it and as its own send finds it, behind the semaphore; and how
-- the calls for it end: the writer's drain, an expired timeout of the broadcast included, the
-- emissions of its error events, and its close.
pub record Client (F : Type 0) : Type 0 where
  pub connection : TcpConnection F
  pub at_send : TcpConnection F
  pub drain : Awaited (Unit {0})
  pub on_error_event : Awaited (Unit {0})
  pub on_close : Option Exception
  pub on_report : Awaited (Unit {0})

pub record Broadcast (F : Type 0) : Type 0 where
  pub writes : List (List (WriterCall F))
  pub events : List (NetworkEvent F)
  pub closes : List String
  pub is_cancelled : Bool

-- `isinstance(error, Exception)`.
abbrev pub is_exception : Exception → Bool
is_exception cancelled_error = false
is_exception _ = true

-- Whether an emission lets the code go on: exceptions are suppressed, a cancellation is not.
abbrev pub goes_on : Awaited (Unit {0}) → Bool
goes_on was_cancelled = false
goes_on _ = true

-- The events that are handed to the dispatcher, and whether all was done.
abbrev pub Reported : Type 0 → Type 0
Reported F = List (NetworkEvent F) × Bool

-- What `_send_one` makes of the end of a send: none where it is cancelled.
abbrev pub result_of : Awaited (Unit {0}) → Option (Option Exception)
result_of (gave _) = some none
result_of (raised e) = some (some e)
result_of was_cancelled = none

module _ {F : Type 0} where
  abbrev then_report : Bool → NetworkEvent F → Reported F → Reported F
  then_report true event (events, end) = (event ∷ events, end)
  then_report false event rest = (event ∷ [], false)

  abbrev report_one :
      (component_id : String) → Option Exception → Awaited (Unit {0}) → Reported F → Reported F
  report_one component_id none emission rest = rest
  report_one component_id (some e) emission rest =
      if is_exception e
      then then_report (goes_on emission) (network_error component_id e) rest
      else rest

  -- `report_teardown_errors`: the results, each with how the emission of its event ends.
  unfoldable pub report_teardown_errors :
      (component_id : String) → List (Option Exception × Awaited (Unit {0})) → Reported F
  report_teardown_errors component_id [] = ([], true)
  report_teardown_errors component_id ((result, emission) ∷ results) =
      report_one component_id result emission (report_teardown_errors component_id results)

  -- `_send_one`.
  unfoldable pub send_one : Payload → Client F → Option (Option Exception)
  unfolding send
  send_one payload client = result_of (send client.at_send payload client.drain).1

  -- `connection for connection in connections if connection.is_connected`.
  unfoldable pub live : List (Client F) → List (Client F)
  live [] = []
  live (client ∷ clients) =
      if is_connected client.connection then client ∷ live clients else live clients

  -- The clients whose send failed, each with its error; none where one send was cancelled.
  unfoldable pub failures : Payload → List (Client F) → Option (List (Exception × Client F))
  unfolding send_one
  failures payload [] = some []
  failures payload (client ∷ clients) = elim (send_one payload client) [
    | none ↦ none
    | some result ↦ elim (failures payload clients) [
      | none ↦ none
      | some failed ↦ elim result [ none ↦ some failed | some e ↦ some ((e, client) ∷ failed) ]
    ]
  ]

  -- The loop over the results of the sends.
  unfoldable pub emit_failures : (component_id : String) → List (Exception × Client F) → Reported F
  emit_failures component_id [] = ([], true)
  emit_failures component_id ((e, client) ∷ failed) =
      then_report (goes_on client.on_error_event) (network_error component_id e)
        (emit_failures component_id failed)

  unfoldable pub calls_of : Payload → Client F → List (WriterCall F)
  unfolding send
  calls_of payload client = (send client.at_send payload client.drain).0

  abbrev pub id_of : Exception × Client F → String
  id_of f = f.1.connection.connection_id

  abbrev pub close_result : Exception × Client F → Option Exception × Awaited (Unit {0})
  close_result f = (f.1.on_close, f.1.on_report)

  -- What follows the sends.
  unfoldable pub after_sends :
      (component_id : String)
      → List (List (WriterCall F))
      → Option (List (Exception × Client F))
      → Broadcast F
  unfolding emit_failures report_teardown_errors
  after_sends component_id writes none = record {
    writes = writes;
    events = [];
    closes = [];
    is_cancelled = true;
  }
  after_sends component_id writes (some failed) =
      let (events, end) = emit_failures component_id failed in
      let (reports, end') = report_teardown_errors component_id (map close_result failed) in
      if end
      then record {
        writes = writes;
        events = events ++ reports;
        closes = map id_of failed;
        is_cancelled = not end';
      }
      else record { writes = writes; events = events; closes = []; is_cancelled = true }

  unfoldable pub broadcast_to_connections :
      (component_id : String) → Payload → List (Client F) → Broadcast F
  unfolding live send failures after_sends
  broadcast_to_connections component_id payload clients =
      let snapshot = live clients in
      after_sends component_id (map (calls_of payload) snapshot) (failures payload snapshot)

module _ {F : Type 0} where
  -- No call for the client is cancelled.
  pub record IsUndisturbed (client : Client F) : Type 0 where
    pub on_send : is_some (result_of client.drain) ≡ true
    pub on_error : goes_on client.on_error_event ≡ true
    pub on_report_event : goes_on client.on_report ≡ true

  -- What reaches the writer of a client: its drain is awaited if it is still connected.
  abbrev pub written_to : List ℕ → Client F → List (WriterCall F)
  written_to bytes client =
      if is_connected client.at_send
      then WriterCall.writes bytes ∷ drain_call client.at_send.send_timeout_seconds ∷ []
      else []

  -- A client that is not connected any more fails, and one whose drain raises.
  abbrev pub failure_of : Client F → Awaited (Unit {0})
  failure_of client =
      if is_connected client.at_send then client.drain else raised connection_closed_error

  abbrev pub with_failure :
      Awaited (Unit {0}) → Client F → List (Exception × Client F) → List (Exception × Client F)
  with_failure (raised e) client rest = (e, client) ∷ rest
  with_failure _ client rest = rest

  -- The clients that fail, each with the exception.
  abbrev pub failed_of : List (Client F) → List (Exception × Client F)
  failed_of [] = []
  failed_of (client ∷ clients) = with_failure (failure_of client) client (failed_of clients)

  -- The errors of the closes that are reported.
  abbrev pub close_errors : String → List (Exception × Client F) → List (NetworkEvent F)
  close_errors component_id [] = []
  close_errors component_id ((e, client) ∷ failed) =
      let rest = close_errors component_id failed in
      elim client.on_close [
        | none ↦ rest
        | some x ↦ if is_exception x then network_error component_id x ∷ rest else rest
      ]

  abbrev pub send_error : String → Exception × Client F → NetworkEvent F
  send_error component_id f = network_error component_id f.0

  failing_first :
      (bytes : List ℕ) (client : Client F) (clients : List (Client F))
      → IsUndisturbed client
      → failures (bytes_like bytes) clients ≡ some (failed_of clients)
      → failures (bytes_like bytes) (client ∷ clients) ≡ some (failed_of (client ∷ clients))
  unfolding failures send_one send
  failing_first bytes client clients h e = elim (Bool-cases (is_connected client.at_send)) [
    | inl c ↦ ground (arith, c, h, e)
    | inr c ↦ ground (arith, c, h, e)
  ]

  calls-written :
      (bytes : List ℕ) (client : Client F)
      → calls_of (bytes_like bytes) client ≡ written_to bytes client
  unfolding calls_of send
  calls-written bytes client = ground arith

  all_calls-written :
      (bytes : List ℕ) (clients : List (Client F))
      → map (calls_of (bytes_like bytes)) clients ≡ map (written_to bytes) clients
  all_calls-written bytes [] = refl
  all_calls-written bytes (client ∷ clients) =
      rw (calls-written bytes client, all_calls-written bytes clients) refl

  failures-failed_of :
      (bytes : List ℕ) (clients : List (Client F))
      → All IsUndisturbed clients
      → failures (bytes_like bytes) (live clients) ≡ some (failed_of (live clients))
  unfolding failures live send_one send
  failures-failed_of bytes [] h = refl
  failures-failed_of bytes (client ∷ clients) (h, hs) =
      elim (Bool-cases (is_connected client.connection)) [
        | inl c ↦
            rw c (failing_first bytes client (live clients) h (failures-failed_of bytes clients hs))
        | inr c ↦ rw c (failures-failed_of bytes clients hs)
      ]

  emitted :
      (component_id : String) (failed : List (Exception × Client F))
      → All (λ f. IsUndisturbed f.1) failed
      → emit_failures component_id failed ≡ (map (send_error component_id) failed, true)
  unfolding emit_failures
  emitted component_id [] h = refl
  emitted component_id ((e, client) ∷ failed) (h, hs) =
      rw (h.on_error, emitted component_id failed hs) refl

  reported :
      (component_id : String) (failed : List (Exception × Client F))
      → All (λ f. IsUndisturbed f.1) failed
      → report_teardown_errors component_id (map close_result failed)
        ≡ (close_errors component_id failed, true)
  unfolding report_teardown_errors
  reported component_id [] h = refl
  reported component_id ((e, client) ∷ failed) (h, hs) =
      ground (arith, h.on_report_event, reported component_id failed hs)

  live-IsUndisturbed :
      (clients : List (Client F)) → All IsUndisturbed clients → All IsUndisturbed (live clients)
  unfolding live
  live-IsUndisturbed [] h = tt
  live-IsUndisturbed (client ∷ clients) (h, hs) =
      if-cases (All IsUndisturbed) (is_connected client.connection) (client ∷ live clients)
        (live clients) (λ e. (h, live-IsUndisturbed clients hs))
        (λ e. live-IsUndisturbed clients hs)

  with_failure-IsUndisturbed :
      (drain : Awaited (Unit {0})) (client : Client F) (rest : List (Exception × Client F))
      → IsUndisturbed client
      → All (λ f. IsUndisturbed f.1) rest
      → All (λ f. IsUndisturbed f.1) (with_failure drain client rest)
  with_failure-IsUndisturbed (gave u) client rest h hs = hs
  with_failure-IsUndisturbed (raised e) client rest h hs = (h, hs)
  with_failure-IsUndisturbed was_cancelled client rest h hs = hs

  failed-IsUndisturbed :
      (clients : List (Client F))
      → All IsUndisturbed clients
      → All (λ f. IsUndisturbed f.1) (failed_of clients)
  failed-IsUndisturbed [] h = tt
  failed-IsUndisturbed (client ∷ clients) (h, hs) =
      with_failure-IsUndisturbed (failure_of client) client (failed_of clients) h
        (failed-IsUndisturbed clients hs)

  -- A broadcast is best effort: if no call is cancelled, a client whose send fails disturbs no
  -- other one. Every client of the snapshot that is still connected when its own send begins is
  -- written to; exactly those that are not connected any more then, with a ConnectionClosedError,
  -- and those whose drain raises are closed, in their order; and one error event is emitted for
  -- each of these failures, and one for each of these closes that raises an Exception.
  pub broadcast_is_best_effort :
      (component_id : String) (bytes : List ℕ) (clients : List (Client F))
      → All IsUndisturbed clients
      → let failed = failed_of (live clients) in
        broadcast_to_connections component_id (bytes_like bytes) clients ≡ record {
          writes = map (written_to bytes) (live clients);
          events = map (send_error component_id) failed ++ close_errors component_id failed;
          closes = map id_of failed;
          is_cancelled = false;
        }
  unfolding broadcast_to_connections after_sends
  broadcast_is_best_effort component_id bytes clients h =
      let failed = failed_of (live clients) in
      let hs = failed-IsUndisturbed (live clients) (live-IsUndisturbed clients h) in
      rw
        (
          all_calls-written bytes (live clients),
          failures-failed_of bytes clients h,
          emitted component_id failed hs,
          reported component_id failed hs,
        )
        refl
