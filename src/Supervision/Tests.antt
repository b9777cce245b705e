-- ===== src/Supervision/Tests.antt =====
-- A client that reconnects, and the theorems at it.
use aionetx.Base.{ℕ, ◌≡◌, refl, true, false, Option, none, some, [], ◌∷◌, user_error}
use aionetx.Lifecycle.{
  stopped, running, collect_terminal_lifecycle_events, apply, assert_legal_lifecycle_transition,
}
use aionetx.Runtime.Floats.{Floats}
use aionetx.Runtime.Backoff.{no_jitter, TcpReconnectSettings}
use aionetx.Supervision.{
  ErrorPolicy, fail_fast, TcpClient, Supervised, Outcome, done, Await, Cycle, Final,
}
use aionetx.Supervision.Steps.{
  may_reconnect, await_connection_termination, handle_connect_cycle_failure,
  determine_failure_outcome,
}
use aionetx.Supervision.Run.{run, cycle, finalize_supervision}
use aionetx.Supervision.Order.{HasStopped, not_waiting, run-HasStopped, cycle-may_reconnect}
use aionetx.Supervision.Report.{Returns, Announces, extend, report}
use aionetx.Supervision.Failures.{handle_connect_cycle_failure_trace}
use aionetx.Supervision.Finish.{
  Leaves, await_connection_termination_released, finalize_supervision-EndsIn,
}

module _ {F : Type 0} where
  -- Nothing happens.
  abbrev idle : Await F
  idle c = (c, done tt)

  -- The client is stopped meanwhile.
  abbrev stops : Await F
  stops c = (record c { is_running = false }, done tt)

  abbrev refuses : Await F
  refuses c = (c, Outcome.raised (user_error 1))

  idle-Returns : Returns idle
  idle-Returns = record { returns = λ c. refl; same_attempt = λ c. refl; same_id = λ c. refl }

  idle-Leaves : Leaves idle
  idle-Leaves = record { returns = λ c. refl; same_state = λ c. refl; same_waiter = λ c. refl }

abbrev floats : Floats ℕ
floats = record {
  zero = 0;
  one = 1;
  add = λ x y. x;
  sub = λ x y. x;
  mul = λ x y. y;
  half = λ x. x;
  less = λ x y. false;
  at_most = λ x y. true;
}

abbrev settings : TcpReconnectSettings ℕ
settings = record {
  enabled = true;
  initial_delay_seconds = 1;
  max_delay_seconds = 30;
  backoff_factor = 2;
  jitter = no_jitter;
}

abbrev client : Option ErrorPolicy → TcpClient ℕ
client policy = record {
  attempt_counter = 4;
  backoff = record { settings = settings; current_delay = 1 };
  component_id = "tcp/client/localhost/9000";
  connection = none;
  last_connect_error = none;
  lifecycle_state = running;
  is_running = true;
  error_policy = policy;
  reconnect = settings;
  stop_waiter = none;
  status_changed = false;
  status_version = 0;
  connection_closed_event = false;
}

abbrev supervised : Supervised ℕ
supervised = record { client = client none; trace = [] }

abbrev impatient : Supervised ℕ
impatient = record { client = client (some fail_fast); trace = [] }

abbrev connecting : Await ℕ → Cycle ℕ
connecting connect = record {
  on_attempt_started = idle;
  on_connect = connect;
  on_waits = idle ∷ [];
  on_network_error = idle;
  on_attempt_failed = idle;
  on_stop_heartbeat_sender = idle;
  on_close_connection = idle;
  on_reconnect_scheduled = idle;
  on_delay = idle;
  uniform = λ a b. a;
}

abbrev calm : Final ℕ
calm = record {
  on_stop_heartbeat_sender = idle;
  on_close_connection = idle;
  on_lifecycle_event = idle;
  on_stop_dispatcher = idle;
}

run-HasStopped_example :
    HasStopped (run floats (connecting idle ∷ connecting stops ∷ []) calm supervised).0
unfolding run cycle collect_terminal_lifecycle_events apply assert_legal_lifecycle_transition
run-HasStopped_example =
    run-HasStopped floats (connecting idle ∷ connecting stops ∷ []) calm supervised refl

cycle-may_reconnect_example :
    may_reconnect (cycle floats (connecting refuses) supervised).0.client ≡ true
unfolding cycle
cycle-may_reconnect_example = cycle-may_reconnect floats (connecting refuses) supervised refl

handle_connect_cycle_failure_trace_example :
    let (s', outcome) =
      determine_failure_outcome floats (connecting idle) (user_error 1) supervised in
    Announces
      (client none)
      outcome
      (extend [] (report (client none) (user_error 1) outcome))
      (handle_connect_cycle_failure floats (connecting idle) (user_error 1) supervised).0.trace
handle_connect_cycle_failure_trace_example =
    handle_connect_cycle_failure_trace floats (connecting idle) (user_error 1) supervised
      idle-Returns idle-Returns idle-Returns idle-Returns

await_connection_termination_released_example :
    not_waiting (await_connection_termination (idle ∷ stops ∷ []) supervised).1 ≡ true
await_connection_termination_released_example =
    await_connection_termination_released (idle ∷ []) [] stops supervised (λ c. refl, tt)
      (λ c. refl) (λ c. refl)

finalize_supervision-EndsIn_example :
    ((finalize_supervision calm supervised).1 ≡ done tt)
    × ((finalize_supervision calm supervised).0.client.lifecycle_state ≡ stopped)
finalize_supervision-EndsIn_example =
    finalize_supervision-EndsIn calm supervised idle-Leaves idle-Leaves idle-Leaves idle-Leaves refl
