-- ===== src/Supervision/Run.antt =====
-- The loop of supervision and its end: `run` and `_finalize_supervision` of tcp_client_supervision.py.
use aionetx.Base.{
  String, Bool, true, false, not, some, List, [], ◌∷◌, Result, ok, err, if◌then◌else◌, is_some,
}
use aionetx.Lifecycle.{
  ComponentLifecycleState, starting, running, ComponentLifecycleChangedEvent, Publisher, tcp_client,
  collect_terminal_lifecycle_events,
}
use aionetx.Events.{component_lifecycle_changed}
use aionetx.Runtime.Floats.{Floats}
use aionetx.Supervision.{
  TcpClient, emits, stops_dispatcher, Supervised, Outcome, done, raised, cancelled, waiting, Await,
  Cycle, Final, ◌>>=◌,
}
use aionetx.Supervision.Steps.{
  perform, notify_status_changed, run_connect_cycle, handle_connect_cycle_failure, teardown,
}

abbrev is_active : ComponentLifecycleState → Bool
is_active starting = true
is_active running = true
is_active _ = false

-- `try: … finally: …`; the end of the `finally` block counts, unless it is done.
abbrev pub and_finally :
    {F A : Type 0}
    → Supervised F × Outcome A
    → (Supervised F → Supervised F × Outcome A)
    → Supervised F × Outcome A
and_finally (s, waiting) k = (s, waiting)
and_finally (s, o) k =
    let (s', o') = k s in
    (s', elim o' [ done _ ↦ o | raised e ↦ raised e | cancelled ↦ cancelled | waiting ↦ waiting ])

module _ {F : Type 0} where
  -- `_on_lifecycle_state_applied` of asyncio_tcp_client.py.
  abbrev pub on_lifecycle_state_applied : ComponentLifecycleState → TcpClient F → TcpClient F
  on_lifecycle_state_applied target c =
      notify_status_changed (record c { is_running = is_active target })

  -- The client's `_lifecycle_publisher`.
  abbrev pub publisher : String → Publisher (TcpClient F)
  publisher component_id = record {
    resource_id = component_id;
    role = tcp_client;
    get_state = λ c. c.lifecycle_state;
    set_state = λ state c. record c { lifecycle_state = state };
    on_state_applied = some on_lifecycle_state_applied;
  }

  -- `for event in transition_events: await self._client._emit_lifecycle_event(event)`.
  unfoldable pub emit_lifecycle_events :
      Await F → List ComponentLifecycleChangedEvent → Supervised F → Supervised F × Outcome Unit
  emit_lifecycle_events on_event [] s = (s, done tt)
  emit_lifecycle_events on_event (event ∷ events) s =
      perform (emits (component_lifecycle_changed event)) on_event s >>= λ (s, _).
      emit_lifecycle_events on_event events s

  unfoldable pub after_collect :
      Await F
      → Result (List ComponentLifecycleChangedEvent × TcpClient F)
      → Supervised F
      → Supervised F × Outcome Unit
  unfolding emit_lifecycle_events
  after_collect on_event (ok (events, c)) s =
      emit_lifecycle_events on_event events (record s { client = c })
  after_collect on_event (err e) s = (s, raised e)

  -- `_publish_terminal_lifecycle_transitions`.
  unfoldable pub publish_terminal_lifecycle_transitions :
      Final F → Supervised F → Supervised F × Outcome Unit
  unfolding after_collect
  publish_terminal_lifecycle_transitions end s =
      after_collect end.on_lifecycle_event
        (collect_terminal_lifecycle_events (publisher s.client.component_id) s.client) s

  -- `_stop_dispatcher`.
  unfoldable pub stop_dispatcher : Final F → Supervised F → Supervised F × Outcome Unit
  stop_dispatcher end s =
      if is_some s.client.stop_waiter
      then (s, done tt)
      else perform stops_dispatcher end.on_stop_dispatcher s

  unfoldable pub after_shutdown : Final F → Supervised F → Supervised F × Outcome Unit
  unfolding publish_terminal_lifecycle_transitions
  after_shutdown end s =
      if not (is_some s.client.stop_waiter)
      then publish_terminal_lifecycle_transitions end s
      else (s, done tt)

  -- The `try` block of `_finalize_supervision`.
  unfoldable pub shut_down : Final F → Supervised F → Supervised F × Outcome Unit
  unfolding teardown after_shutdown
  shut_down end s = teardown end.on_stop_heartbeat_sender end.on_close_connection s >>= λ (s, _).
      after_shutdown end s

  unfoldable pub finalize_supervision : Final F → Supervised F → Supervised F × Outcome Unit
  unfolding shut_down stop_dispatcher
  finalize_supervision end s = and_finally (shut_down end s) (stop_dispatcher end)

  module _ (floats : Floats F) where
    unfoldable pub after_cycle : Cycle F → Supervised F × Outcome Bool → Supervised F × Outcome Bool
    unfolding handle_connect_cycle_failure
    after_cycle w (s, done b) = (s, done b)
    after_cycle w (s, raised e) = handle_connect_cycle_failure floats w e s
    after_cycle w (s, cancelled) = (s, cancelled)
    after_cycle w (s, waiting) = (s, waiting)

    -- The body of the loop of `run`; with `false` the loop is left.
    unfoldable pub cycle : Cycle F → Supervised F → Supervised F × Outcome Bool
    unfolding run_connect_cycle after_cycle
    cycle w s = after_cycle w (run_connect_cycle floats w s)

    -- The loop of `run`, for the cycles that are given.
    unfoldable pub cycles : List (Cycle F) → Supervised F → Supervised F × Outcome Unit
    cycles [] s = if s.client.is_running then (s, waiting) else (s, done tt)
    cycles (w ∷ ws) s =
        let (s', o) = cycle w s in
        let rest = cycles ws s' in
        if not s.client.is_running then (s, done tt) else elim o [
          | done b ↦ if b then rest else (s', done tt)
          | raised e ↦ (s', raised e)
          | cancelled ↦ (s', cancelled)
          | waiting ↦ (s', waiting)
        ]

    unfoldable pub run : List (Cycle F) → Final F → Supervised F → Supervised F × Outcome Unit
    unfolding cycles finalize_supervision
    run ws end s = and_finally (cycles ws s) (finalize_supervision end)
