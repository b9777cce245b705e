-- ===== src/Supervision/Failures.antt =====
-- tcp_client_supervision.py: what follows a failed attempt, and when it is the last one.
use aionetx.Base.{◌≡◌, refl, ◌∙◌, Bool, true, false, Exception, arith}
use aionetx.Runtime.Floats.{Floats}
use aionetx.Supervision.{
  is_fail_fast, Supervised, Outcome, done, raised, cancelled, waiting, Cycle, FailureOutcome, ◌>>=◌,
}
use aionetx.Supervision.Steps.{
  plan_reconnect, after_teardown, handle_connect_cycle_failure, determine_failure_outcome,
  publish_connect_failure, teardown, resolve_error_policy,
}
use aionetx.Supervision.Report.{
  extend, Returns, report, Announces, sleep-Announces, Announces-subst, publish-Reported,
  teardown-Reported, report_lem, bind_after,
}

abbrev pub goes_on : Outcome Bool → Bool
goes_on (done b) = b
goes_on _ = false

module _ {F : Type 0} where
  bind_stops :
      {A : Type 0} (r : Supervised F × Outcome A)
      (f : Supervised F × A → Supervised F × Outcome Bool)
      → ((x : Supervised F × A) → goes_on (f x).1 ≡ false)
      → goes_on (r >>= f).1 ≡ false
  bind_stops (s, done a) f h = h (s, a)
  bind_stops (s, raised e) f h = refl
  bind_stops (s, cancelled) f h = refl
  bind_stops (s, waiting) f h = refl

  after_teardown_stops :
      (w : Cycle F) (outcome : FailureOutcome F) (s : Supervised F)
      → is_fail_fast outcome.policy ≡ true
      → goes_on (after_teardown w outcome s).1 ≡ false
  unfolding after_teardown
  after_teardown_stops w outcome s h = ground (arith, h)

  module _ (floats : Floats F) where
    -- Under the policy FAIL_FAST, and without reconnecting if no policy is set, supervision does
    -- not go on after a failed attempt, whatever others do.
    pub fail_fast_stops :
        (w : Cycle F) (e : Exception) (s : Supervised F)
        → is_fail_fast (resolve_error_policy s.client) ≡ true
        → goes_on (handle_connect_cycle_failure floats w e s).1 ≡ false
    unfolding handle_connect_cycle_failure determine_failure_outcome
    fail_fast_stops w e s h =
        let (s', outcome) = determine_failure_outcome floats w e s in
        bind_stops
          (publish_connect_failure w e outcome s' >>= λ x.
            teardown w.on_stop_heartbeat_sender w.on_close_connection x.0)
          (λ x. after_teardown w outcome x.0) (λ x. after_teardown_stops w outcome x.0 h)

    determine_same :
        (w : Cycle F) (e : Exception) (s : Supervised F)
        → let s' = (determine_failure_outcome floats w e s).0 in
          (s'.trace ≡ s.trace)
          × (s'.client.attempt_counter ≡ s.client.attempt_counter)
          × (s'.client.component_id ≡ s.client.component_id)
    unfolding determine_failure_outcome plan_reconnect
    determine_same w e s = ground arith

    -- A failed attempt, if the calls of others for its report and for the teardown return and
    -- start no attempt: it is reported in the fixed order, under the number of the attempt that
    -- failed; after that comes nothing, or the announcement of the next attempt, under the next
    -- number and with the delay that the report gives.
    pub handle_connect_cycle_failure_trace :
        (w : Cycle F) (e : Exception) (s : Supervised F)
        → Returns w.on_network_error
        → Returns w.on_attempt_failed
        → Returns w.on_stop_heartbeat_sender
        → Returns w.on_close_connection
        → let (s', outcome) = determine_failure_outcome floats w e s in
          Announces s.client outcome
            (extend s.trace (report s.client e outcome))
            (handle_connect_cycle_failure floats w e s).0.trace
    unfolding handle_connect_cycle_failure
    handle_connect_cycle_failure_trace w e s r1 r2 r3 r4 =
        let (s', outcome) = determine_failure_outcome floats w e s in
        let same = determine_same w e s in
        let published = publish_connect_failure w e outcome s' in
        let torn_down =
          published >>= λ x. teardown w.on_stop_heartbeat_sender w.on_close_connection x.0 in
        let reported =
          teardown-Reported s'.client _ w published r3 r4 (publish-Reported w e outcome s' r1 r2) in
        bind_after torn_down (λ x. after_teardown w outcome x.0)
          (λ r. Announces s.client outcome (extend s.trace (report s.client e outcome)) r.0.trace)
          reported.0
          (Announces-subst torn_down.0.client s.client outcome torn_down.0.trace
            (extend s.trace (report s.client e outcome))
            (after_teardown w outcome torn_down.0).0.trace
            (reported.1
              ∙ report_lem s'.client s.client e outcome s'.trace s.trace same.1 same.2 same.0)
            (reported.2 ∙ same.1) (reported.3 ∙ same.2) (sleep-Announces w outcome torn_down.0))
