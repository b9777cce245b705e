-- ===== src/Supervision/Order.antt =====
-- What the supervisor of tcp_client_supervision.py calls, in which order, and when it goes on.
use aionetx.Base.{
  suc, ◌≡◌, ◌⊎◌, inl, inr, refl, Bool, true, false, List, [], ◌∷◌, ◌++◌, Exception, is_some, arith,
  Bool-cases, Option-cases,
}
use aionetx.Lifecycle.{running}
use aionetx.Events.{reconnect_attempt_started}
use aionetx.Runtime.Floats.{Floats}
use aionetx.Supervision.{
  Action, emits, connects, stops_dispatcher, Supervised, Outcome, done, raised, cancelled, waiting,
  Cycle, Final, ReconnectPlan, FailureOutcome, ◌>>=◌,
}
use aionetx.Supervision.Steps.{
  start_connect_attempt, after_start, after_scheduled, after_teardown, await_connection_termination,
  plan_reconnect, may_reconnect, sleep_until_next_reconnect, emit_reconnect_scheduled,
  wait_for_reconnect_delay_or_stop, schedule_reconnect_after_disconnect, run_connect_cycle,
  handle_connect_cycle_failure, determine_failure_outcome, publish_connect_failure, teardown,
  next_attempt,
}
use aionetx.Supervision.Run.{
  and_finally, stop_dispatcher, shut_down, finalize_supervision, cycle, after_cycle, cycles, run,
}

abbrev pub not_waiting : {A : Type 0} → Outcome A → Bool
not_waiting waiting = false
not_waiting _ = true

done_inj : (b : Bool) → ◌≡◌ {A = Outcome Bool} (done b) (done true) → b ≡ true
done_inj b h = cc

module _ {F : Type 0} where
  -- The dispatcher has been stopped as the last thing, or a stop of the client is in progress, which
  -- stops it.
  abbrev pub HasStopped : Supervised F → Type 0
  HasStopped s =
      (is_some s.client.stop_waiter ≡ true)
      ⊎ ((before : List (Action F)) × (s.trace ≡ before ++ stops_dispatcher ∷ []))

  stop_dispatcher-HasStopped :
      (end : Final F) (s : Supervised F) → HasStopped (stop_dispatcher end s).0
  unfolding stop_dispatcher
  stop_dispatcher-HasStopped end s = elim (Option-cases s.client.stop_waiter) [
    | inl n ↦ rw n (inr (s.trace, refl))
    | inr (w, n) ↦ ground (arith, n)
  ]

  and_finally-HasStopped :
      {A : Type 0} (r : Supervised F × Outcome A) (k : Supervised F → Supervised F × Outcome A)
      → ((s : Supervised F) → not_waiting (k s).1 ≡ true → HasStopped (k s).0)
      → not_waiting (and_finally r k).1 ≡ true
      → HasStopped (and_finally r k).0
  and_finally-HasStopped (s, done a) k h w = ground (arith, h s)
  and_finally-HasStopped (s, raised e) k h w = ground (arith, h s)
  and_finally-HasStopped (s, cancelled) k h w = ground (arith, h s)
  and_finally-HasStopped (s, waiting) k h w = cc

  finalize_supervision-HasStopped :
      (end : Final F) (s : Supervised F)
      → not_waiting (finalize_supervision end s).1 ≡ true
      → HasStopped (finalize_supervision end s).0
  unfolding finalize_supervision
  finalize_supervision-HasStopped end s w =
      and_finally-HasStopped (shut_down end s) (stop_dispatcher end)
        (λ s' _. stop_dispatcher-HasStopped end s') w

  -- If it is to go on, the client runs and reconnects.
  abbrev Continues : Supervised F × Outcome Bool → Type 0
  Continues r = r.1 ≡ done true → may_reconnect r.0.client ≡ true

  bind-Continues :
      {A : Type 0} (r : Supervised F × Outcome A)
      (f : Supervised F × A → Supervised F × Outcome Bool)
      → ((x : Supervised F × A) → Continues (f x))
      → Continues (r >>= f)
  bind-Continues (s, done a) f h = h (s, a)
  bind-Continues (s, raised e) f h = λ k. cc
  bind-Continues (s, cancelled) f h = λ k. cc
  bind-Continues (s, waiting) f h = λ k. cc

  after_scheduled-Continues : (w : Cycle F) (s : Supervised F) → Continues (after_scheduled w s)
  unfolding after_scheduled wait_for_reconnect_delay_or_stop
  after_scheduled-Continues w s = elim (Bool-cases (may_reconnect s.client)) [
    | inl m ↦
        let (c, o) = w.on_delay (record (s.client) { status_changed = false }) in
        ground (
          arith,
          m,
          bind-Continues (record s { client = c }, o) (λ x. (x.0, done (may_reconnect x.0.client)))
              (λ x h. done_inj (may_reconnect x.0.client) h),
        )
    | inr m ↦ ground (arith, m)
  ]

  sleep-Continues :
      (w : Cycle F) (plan : ReconnectPlan F) (s : Supervised F)
      → Continues (sleep_until_next_reconnect w plan s)
  unfolding sleep_until_next_reconnect
  sleep-Continues w plan s = elim (Option-cases plan.delay_seconds) [
    | inl n ↦ ground (arith, n)
    | inr (delay, n) ↦ ground (
      arith,
      n,
      bind-Continues (emit_reconnect_scheduled w delay s) (λ x. after_scheduled w x.0)
          (λ x. after_scheduled-Continues w x.0),
    )
  ]

  after_teardown-Continues :
      (w : Cycle F) (outcome : FailureOutcome F) (s : Supervised F)
      → Continues (after_teardown w outcome s)
  unfolding after_teardown
  after_teardown-Continues w outcome s = ground (arith, sleep-Continues w outcome.plan s)

  module _ (floats : Floats F) where
    -- Whatever others do meanwhile, and whether supervision ends by a return, an exception or a
    -- cancellation: once it has ended, stopping the dispatcher was the last thing that it did, or
    -- a stop of the client is in progress.
    pub run-HasStopped :
        (ws : List (Cycle F)) (end : Final F) (s : Supervised F)
        → not_waiting (run floats ws end s).1 ≡ true
        → HasStopped (run floats ws end s).0
    unfolding run finalize_supervision
    run-HasStopped ws end s w =
        and_finally-HasStopped (cycles floats ws s) (finalize_supervision end)
          (finalize_supervision-HasStopped end) w

    -- An attempt is announced before all else, under the next number; a connection is opened only
    -- after that, and only by a client that, after the announcement, runs and is in the state
    -- RUNNING.
    pub start_connect_attempt_trace :
        (w : Cycle F) (s : Supervised F)
        → let started =
            emits
              (reconnect_attempt_started s.client.component_id (suc s.client.attempt_counter)) in
          let c = (w.on_attempt_started (next_attempt s.client)).0 in
          ((start_connect_attempt floats w s).0.trace ≡ s.trace ++ started ∷ [])
          ⊎ (((start_connect_attempt floats w s).0.trace
                ≡ (s.trace ++ started ∷ []) ++ connects ∷ [])
              × (c.is_running ≡ true)
              × (c.lifecycle_state ≡ running))
    unfolding start_connect_attempt
    start_connect_attempt_trace w s = ground arith

    after_start-Continues :
        (w : Cycle F) (x : Supervised F × Bool) → Continues (after_start floats w x)
    unfolding after_start schedule_reconnect_after_disconnect
    after_start-Continues w (s, false) = λ h. cc
    after_start-Continues w (s, true) =
        bind-Continues (await_connection_termination w.on_waits s)
          (λ x. schedule_reconnect_after_disconnect floats w x.0)
          (λ x. sleep-Continues w (plan_reconnect floats w x.0).1 (plan_reconnect floats w x.0).0)

    failure-Continues :
        (w : Cycle F) (e : Exception) (s : Supervised F)
        → Continues (handle_connect_cycle_failure floats w e s)
    unfolding handle_connect_cycle_failure
    failure-Continues w e s =
        let (s', outcome) = determine_failure_outcome floats w e s in
        bind-Continues
          (publish_connect_failure w e outcome s' >>= λ x.
            teardown w.on_stop_heartbeat_sender w.on_close_connection x.0)
          (λ x. after_teardown w outcome x.0) (λ x. after_teardown-Continues w outcome x.0)

    after_cycle-Continues :
        (w : Cycle F) (r : Supervised F × Outcome Bool)
        → Continues r
        → Continues (after_cycle floats w r)
    unfolding after_cycle
    after_cycle-Continues w (s, done b) h = h
    after_cycle-Continues w (s, raised e) h = failure-Continues w e s
    after_cycle-Continues w (s, cancelled) h = λ k. cc
    after_cycle-Continues w (s, waiting) h = λ k. cc

    -- Supervision goes on to a next cycle, after a disconnect as after a failure, only if at that
    -- time the client runs and reconnecting is enabled.
    pub cycle-may_reconnect :
        (w : Cycle F) (s : Supervised F)
        → (cycle floats w s).1 ≡ done true
        → may_reconnect (cycle floats w s).0.client ≡ true
    unfolding cycle run_connect_cycle
    cycle-may_reconnect w s = after_cycle-Continues w (run_connect_cycle floats w s) (
        bind-Continues (start_connect_attempt floats w s) (after_start floats w)
          (after_start-Continues w))
