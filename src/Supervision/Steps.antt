-- ===== src/Supervision/Steps.antt =====
-- The phases of supervision, in the order of tcp_client_supervision.py.
use aionetx.Base.{
  suc, ◌+◌, Bool, true, false, not, ◌&&◌, ◌||◌, Option, none, some, List, [], ◌∷◌, ◌++◌, Exception,
  runtime_error, if◌then◌else◌,
}
use aionetx.Lifecycle.{running, same_state}
use aionetx.Events.{
  ConnectionState, closed, network_error, reconnect_attempt_started, reconnect_attempt_failed,
  reconnect_scheduled,
}
use aionetx.Runtime.Floats.{Floats}
use aionetx.Runtime.Backoff.{reset, next_delay}
use aionetx.Supervision.{
  ErrorPolicy, retry, fail_fast, is_fail_fast, is_ignore, TcpClient, Action, emits, connects,
  stops_heartbeat_sender, closes_connection, Supervised, Outcome, done, raised, cancelled, waiting,
  Await, Cycle, ReconnectPlan, FailureOutcome, ◌>>=◌,
}

abbrev is_closed : Option ConnectionState → Bool
is_closed none = true
is_closed (some closed) = true
is_closed (some _) = false

module _ {F : Type 0} where
  -- `_ReconnectPlan.disabled` and `_ReconnectPlan.scheduled`.
  abbrev disabled : ReconnectPlan F
  disabled = record { should_reconnect = false; delay_seconds = none }

  abbrev scheduled : F → ReconnectPlan F
  scheduled delay = record { should_reconnect = true; delay_seconds = some delay }

  -- `_notify_status_changed` of asyncio_tcp_client.py.
  abbrev pub notify_status_changed : TcpClient F → TcpClient F
  notify_status_changed c = record c {
    status_version = suc c.status_version;
    status_changed = true;
  }

  -- `_resolve_error_policy` of asyncio_tcp_client.py.
  abbrev pub resolve_error_policy : TcpClient F → ErrorPolicy
  resolve_error_policy c = elim c.error_policy [
    | some policy ↦ policy
    | none ↦ if c.reconnect.enabled then retry else fail_fast
  ]

  -- A call of others.
  abbrev pub perform : Action F → Await F → Supervised F → Supervised F × Outcome Unit
  perform action await s =
      let (c, o) = await s.client in (record { client = c; trace = s.trace ++ action ∷ [] }, o)

  abbrev update : (TcpClient F → TcpClient F) → Supervised F → Supervised F
  update f s = record s { client = f s.client }

  abbrev pub may_reconnect : TcpClient F → Bool
  may_reconnect c = c.is_running && c.reconnect.enabled

  -- The first statements of `_start_connect_attempt`.
  abbrev pub next_attempt : TcpClient F → TcpClient F
  next_attempt c =
      notify_status_changed
        (record c { last_connect_error = none; attempt_counter = suc c.attempt_counter })

  -- The body of `_await_connection_termination`'s loop follows each wait.
  unfoldable pub await_connection_termination :
      List (Await F) → Supervised F → Supervised F × Outcome Unit
  await_connection_termination [] s = if s.client.is_running then (s, waiting) else (s, done tt)
  await_connection_termination (wait ∷ waits) s =
      let (c, o) = wait s.client in
      let c' = record c { connection_closed_event = false } in
      let rest = await_connection_termination waits (record s { client = c' }) in
      if not s.client.is_running then (s, done tt) else elim o [
        | done _ ↦ if is_closed c'.connection then (record s { client = c' }, done tt) else rest
        | raised e ↦ (record s { client = c }, raised e)
        | cancelled ↦ (record s { client = c }, cancelled)
        | waiting ↦ (record s { client = c }, waiting)
      ]

  -- `_emit_reconnect_scheduled`.
  unfoldable pub emit_reconnect_scheduled : Cycle F → F → Supervised F → Supervised F × Outcome Unit
  emit_reconnect_scheduled w delay s =
      perform
        (emits (reconnect_scheduled s.client.component_id (s.client.attempt_counter + 1) delay))
        w.on_reconnect_scheduled s

  -- `_wait_for_reconnect_delay_or_stop`: clearing the flag does not change the version, so that
  -- the first test of the version holds. The wait ends by a change of the status or the timeout.
  unfoldable pub wait_for_reconnect_delay_or_stop :
      Cycle F → Supervised F → Supervised F × Outcome Bool
  wait_for_reconnect_delay_or_stop w s =
      let (c, o) = w.on_delay (record (s.client) { status_changed = false }) in
      (record s { client = c }, o) >>= λ (s, _). (s, done (may_reconnect s.client))

  unfoldable pub after_scheduled : Cycle F → Supervised F → Supervised F × Outcome Bool
  unfolding wait_for_reconnect_delay_or_stop
  after_scheduled w s =
      if not s.client.is_running || not s.client.reconnect.enabled
      then (s, done false)
      else wait_for_reconnect_delay_or_stop w s

  unfoldable pub sleep_until_next_reconnect :
      Cycle F → ReconnectPlan F → Supervised F → Supervised F × Outcome Bool
  unfolding emit_reconnect_scheduled after_scheduled
  sleep_until_next_reconnect w plan s =
      if not plan.should_reconnect
      then (s, done false)
      else (if not s.client.is_running || not s.client.reconnect.enabled
          then (s, done false)
          else elim plan.delay_seconds [
            | none ↦ (s, raised runtime_error)
            | some delay ↦ emit_reconnect_scheduled w delay s >>= λ (s, _). after_scheduled w s
          ])

  -- `_capture_failure_state`.
  abbrev pub capture_failure_state : Exception → TcpClient F → TcpClient F
  capture_failure_state error c =
      notify_status_changed (record c { last_connect_error = some error })

  unfoldable pub emit_network_error :
      Cycle F → Exception → ErrorPolicy → Supervised F → Supervised F × Outcome Unit
  emit_network_error w error policy s =
      if not (is_ignore policy)
      then perform (emits (network_error s.client.component_id error)) w.on_network_error s
      else (s, done tt)

  -- `_publish_connect_failure`, that is `_emit_failure_events`.
  unfoldable pub publish_connect_failure :
      Cycle F → Exception → FailureOutcome F → Supervised F → Supervised F × Outcome Unit
  unfolding emit_network_error
  publish_connect_failure w error outcome s =
      emit_network_error w error outcome.policy s >>= λ (s, _).
      perform
        (emits (
          reconnect_attempt_failed s.client.component_id s.client.attempt_counter error
            outcome.plan.delay_seconds))
        w.on_attempt_failed s

  -- `_teardown_after_failure`, and `_shutdown_active_resources` at the end.
  unfoldable pub teardown : Await F → Await F → Supervised F → Supervised F × Outcome Unit
  teardown on_stop_heartbeat_sender on_close_connection s =
      perform stops_heartbeat_sender on_stop_heartbeat_sender s >>= λ (s, _).
      perform closes_connection on_close_connection s

  abbrev should_stop_after_failure : ErrorPolicy → TcpClient F → Bool
  should_stop_after_failure policy c =
      is_fail_fast policy || (not c.is_running || not c.reconnect.enabled)

  unfoldable pub after_teardown :
      Cycle F → FailureOutcome F → Supervised F → Supervised F × Outcome Bool
  unfolding sleep_until_next_reconnect
  after_teardown w outcome s =
      if should_stop_after_failure outcome.policy s.client
      then (s, done false)
      else sleep_until_next_reconnect w outcome.plan s

  module _ (floats : Floats F) where
    unfoldable pub after_connect : Supervised F → Supervised F × Outcome Bool
    unfolding reset
    after_connect s =
        if not s.client.is_running
        then (s, done false)
        else (update (λ c. record c { backoff = reset floats c.backoff }) s, done true)

    unfoldable pub start_connect_attempt : Cycle F → Supervised F → Supervised F × Outcome Bool
    unfolding after_connect
    start_connect_attempt w s =
        let c = next_attempt s.client in
        perform (emits (reconnect_attempt_started c.component_id c.attempt_counter))
          w.on_attempt_started (update next_attempt s)
        >>= λ (s, _).
            if not s.client.is_running || not (same_state s.client.lifecycle_state running)
            then (s, done false)
            else (perform connects w.on_connect s >>= λ (s, _). after_connect s)

    unfoldable pub plan_reconnect : Cycle F → Supervised F → Supervised F × ReconnectPlan F
    unfolding next_delay
    plan_reconnect w s =
        let (b, delay) = next_delay floats w.uniform s.client.backoff in
        if not s.client.is_running || not s.client.reconnect.enabled
        then (s, disabled)
        else (update (λ c. record c { backoff = b }) s, scheduled delay)

    -- `_schedule_reconnect_after_disconnect`.
    unfoldable pub schedule_reconnect_after_disconnect :
        Cycle F → Supervised F → Supervised F × Outcome Bool
    unfolding plan_reconnect sleep_until_next_reconnect
    schedule_reconnect_after_disconnect w s =
        let (s', plan) = plan_reconnect w s in sleep_until_next_reconnect w plan s'

    unfoldable pub after_start : Cycle F → Supervised F × Bool → Supervised F × Outcome Bool
    unfolding await_connection_termination schedule_reconnect_after_disconnect
    after_start w (s, false) = (s, done false)
    after_start w (s, true) = await_connection_termination w.on_waits s >>= λ (s, _).
        schedule_reconnect_after_disconnect w s

    unfoldable pub run_connect_cycle : Cycle F → Supervised F → Supervised F × Outcome Bool
    unfolding start_connect_attempt after_start
    run_connect_cycle w s = start_connect_attempt w s >>= after_start w

    unfoldable pub determine_failure_outcome :
        Cycle F → Exception → Supervised F → Supervised F × FailureOutcome F
    unfolding plan_reconnect
    determine_failure_outcome w error s =
        let captured = update (capture_failure_state error) s in
        let (s', plan) = plan_reconnect w captured in
        (s', record { policy = resolve_error_policy captured.client; plan = plan })

    unfoldable pub handle_connect_cycle_failure :
        Cycle F → Exception → Supervised F → Supervised F × Outcome Bool
    unfolding determine_failure_outcome publish_connect_failure teardown after_teardown
    handle_connect_cycle_failure w error s =
        let (s', outcome) = determine_failure_outcome w error s in
        publish_connect_failure w error outcome s'
        >>= (λ (s, _). teardown w.on_stop_heartbeat_sender w.on_close_connection s)
        >>= λ (s, _). after_teardown w outcome s
