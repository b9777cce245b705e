-- ===== src/Heartbeat/Tests.antt =====
-- A loop of three turns and the theorem at it, and a restart while the old task ends.
use aionetx.Base.{◌≡◌, refl, true, false, none, some, [], ◌∷◌, List, connection_closed_error}
use aionetx.Connection.Stream.{gave, raised, bytes_like, ended}
use aionetx.Heartbeat.{
  HeartbeatSender, Turn, heartbeat_result, run, start, stop_section, final_section,
}

abbrev turn : Turn
turn = record {
  running = true;
  sleep = gave tt;
  still_running = true;
  connected = true;
  heartbeat = gave (heartbeat_result true (bytes_like (7 ∷ [])));
  sending = gave tt;
}

abbrev silent_turn : Turn
silent_turn = record turn { heartbeat = gave (heartbeat_result false (bytes_like [])) }

abbrev failing_turn : Turn
failing_turn = record turn { sending = raised connection_closed_error }

abbrev turns : List Turn
turns = turn ∷ silent_turn ∷ failing_turn ∷ []

beats : run (gave tt) turns ≡ record {
  payloads = (7 ∷ []) ∷ (7 ∷ []) ∷ [];
  errors = connection_closed_error ∷ [];
  loop_end = ended;
}
unfolding run
beats = refl

abbrev started : HeartbeatSender
started = record { task = some 0; running = true; created = 1 }

-- `start` while the cancelled task is on its way out: its `finally` clears what `start` set.
restart_is_lost :
    final_section (start (stop_section started).0)
    ≡ record { task = none; running = false; created = 2 }
unfolding start stop_section final_section
restart_is_lost = refl
