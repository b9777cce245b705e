-- ===== src/Heartbeat.antt =====
-- The heartbeat sender: asyncio_heartbeat_sender.py. Tasks are numbers; what the clock, the
-- connection and the heartbeat provider do is an argument, turn by turn.
mod Tests
use aionetx.Base.{
  ℕ, suc, ◌≡◌, ◌≤◌, ◌⊎◌, inl, inr, Bool, true, false, not, ◌&&◌, Option, none, some, List, [], ◌∷◌,
  ◌++◌, Exception, type_error, if◌then◌else◌, length, All,
}
use aionetx.Connection.Stream.{
  Payload, bytes_like, other_object, Awaited, gave, raised, was_cancelled, LoopEnd, ended,
  failed_to_report, cancelled, runs,
}

pub record HeartbeatSender : Type 0 where
  pub task : Option ℕ
  pub running : Bool
  -- How many tasks `start` has created.
  pub created : ℕ

-- `start`.
unfoldable pub start : HeartbeatSender → HeartbeatSender
start s =
    if s.running
    then s
    else record { task = some s.created; running = true; created = suc s.created }

-- The section of `stop`, and the task that is cancelled behind it.
unfoldable pub stop_section : HeartbeatSender → HeartbeatSender × Option ℕ
stop_section s =
    if not s.running then (s, none) else (record s { task = none; running = false }, s.task)

-- `finally`, at the end of `_run`.
unfoldable pub final_section : HeartbeatSender → HeartbeatSender
final_section s = record s { task = none; running = false }

-- What `create_heartbeat` returns.
pub data Heartbeat : Type 0 where
  heartbeat_result : (should_send : Bool) → (payload : Payload) → Heartbeat
  other_result : Heartbeat

-- One turn of the loop: whether the sender runs before the sleep and after it, whether the
-- connection is connected then, and how the awaits end.
pub record Turn : Type 0 where
  pub running : Bool
  pub sleep : Awaited (Unit {0})
  pub still_running : Bool
  pub connected : Bool
  pub heartbeat : Awaited Heartbeat
  pub sending : Awaited (Unit {0})

-- The payloads handed to `connection.send`, the errors handed to the dispatcher, and the end.
pub record Beats : Type 0 where
  pub payloads : List (List ℕ)
  pub errors : List Exception
  pub loop_end : LoopEnd

abbrev stops : LoopEnd → Beats
stops e = record { payloads = []; errors = []; loop_end = e }

-- `_safe_emit_error`, which lets a cancellation out and no exception.
abbrev reports : Exception → (reporting : Awaited (Unit {0})) → Beats
reports e (gave _) = record { payloads = []; errors = e ∷ []; loop_end = ended }
reports e (raised _) = record { payloads = []; errors = e ∷ []; loop_end = ended }
reports e was_cancelled = record { payloads = []; errors = e ∷ []; loop_end = cancelled }

abbrev sends : List ℕ → Beats → Beats
sends bytes b = record b { payloads = bytes ∷ b.payloads }

-- Behind an await of the loop's body.
abbrev after : Awaited (Unit {0}) → (reporting : Awaited (Unit {0})) → Beats → Beats
after (gave _) reporting rest = rest
after (raised e) reporting rest = reports e reporting
after was_cancelled reporting rest = stops cancelled

abbrev send_payload : Payload → (sending reporting : Awaited (Unit {0})) → (rest : Beats) → Beats
send_payload other_object sending reporting rest = reports type_error reporting
send_payload (bytes_like bytes) sending reporting rest = sends bytes (after sending reporting rest)

abbrev after_heartbeat :
    Awaited Heartbeat → (sending reporting : Awaited (Unit {0})) → (rest : Beats) → Beats
after_heartbeat was_cancelled sending reporting rest = stops cancelled
after_heartbeat (raised e) sending reporting rest = reports e reporting
after_heartbeat (gave other_result) sending reporting rest = reports type_error reporting
after_heartbeat (gave (heartbeat_result false payload)) sending reporting rest = rest
after_heartbeat (gave (heartbeat_result true payload)) sending reporting rest =
    send_payload payload sending reporting rest

-- Behind the sleep.
abbrev tick : Turn → (reporting : Awaited (Unit {0})) → (rest : Beats) → Beats
tick turn reporting rest =
    if turn.still_running && turn.connected
    then after_heartbeat turn.heartbeat turn.sending reporting rest
    else stops ended

-- `_run`; `reporting` is how the emission of an error event ends.
unfoldable pub run : (reporting : Awaited (Unit {0})) → List Turn → Beats
run reporting [] = stops runs
run reporting (turn ∷ turns) =
    let rest = run reporting turns in
    if turn.running then after turn.sleep reporting (tick turn reporting rest) else stops ended

-- The payload that a turn is to send, as a list.
abbrev pub due_payload : Awaited Heartbeat → List (List ℕ)
due_payload (gave (heartbeat_result true (bytes_like bytes))) = bytes ∷ []
due_payload (gave (heartbeat_result true other_object)) = []
due_payload (gave (heartbeat_result false payload)) = []
due_payload (gave other_result) = []
due_payload (raised e) = []
due_payload was_cancelled = []

abbrev pub due : List Turn → List (List ℕ)
due [] = []
due (turn ∷ turns) = due_payload turn.heartbeat ++ due turns

abbrev pub is_live : Turn → Bool
is_live turn = turn.running && (turn.still_running && turn.connected)

-- What the loop has sent of what the provider gave.
pub record IsSent (turns : List Turn) (b : Beats) : Type 0 where
  pub taken : List Turn
  pub untaken : List Turn
  pub are_first : turns ≡ taken ++ untaken
  pub are_live : All (λ turn. is_live turn ≡ true) taken
  pub are_due : b.payloads ≡ due taken
  pub one_error : length b.errors ≤ 1
  pub all_while_running : b.loop_end ≡ runs → (untaken ≡ []) × (b.errors ≡ [])
