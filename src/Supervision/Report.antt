-- ===== src/Supervision/Report.antt =====
-- tcp_client_supervision.py: the report of a failed attempt, and the announcement of the next one.
use aionetx.Base.{
  ◌+◌, ◌≡◌, ◌⊎◌, inl, inr, refl, ◌∙◌, Bool, true, false, some, List, [], ◌∷◌, ◌++◌, Exception,
  if◌then◌else◌, arith, Option-cases,
}
use aionetx.Events.{network_error, reconnect_attempt_failed, reconnect_scheduled}
use aionetx.Supervision.{
  ErrorPolicy, is_ignore, TcpClient, Action, emits, stops_heartbeat_sender, closes_connection,
  Supervised, Outcome, done, raised, cancelled, waiting, Await, Cycle, FailureOutcome, ◌>>=◌,
}
use aionetx.Supervision.Steps.{
  perform, sleep_until_next_reconnect, emit_reconnect_scheduled, after_scheduled,
  wait_for_reconnect_delay_or_stop, after_teardown, publish_connect_failure, teardown,
  emit_network_error,
}

-- The actions that follow one another.
abbrev pub extend : {F : Type 0} → List (Action F) → List (Action F) → List (Action F)
extend t [] = t
extend t (a ∷ rest) = extend (t ++ a ∷ []) rest

module _ {F : Type 0} where
  -- A call that returns, while nobody starts another attempt.
  pub record Returns (await : Await F) : Type 0 where
    pub returns : (c : TcpClient F) → (await c).1 ≡ done tt
    pub same_attempt : (c : TcpClient F) → (await c).0.attempt_counter ≡ c.attempt_counter
    pub same_id : (c : TcpClient F) → (await c).0.component_id ≡ c.component_id

  -- The report of a failure: the error, unless errors are ignored, then the failed attempt with the
  -- delay that is planned, the end of the heartbeat and that of the connection, in this order.
  abbrev pub report : TcpClient F → Exception → FailureOutcome F → List (Action F)
  report c error outcome =
      (if is_ignore outcome.policy then [] else emits (network_error c.component_id error) ∷ [])
      ++ emits (
          reconnect_attempt_failed c.component_id c.attempt_counter error
            outcome.plan.delay_seconds)
        ∷ stops_heartbeat_sender
        ∷ closes_connection
        ∷ []

  -- After the report: nothing, or the announcement of the next attempt with the planned delay.
  abbrev pub Announces : TcpClient F → FailureOutcome F → List (Action F) → List (Action F) → Type 0
  Announces c outcome before after =
      (after ≡ before)
      ⊎ ((delay : F) × (outcome.plan.delay_seconds ≡ some delay)
          × (after
              ≡ before
                ++ emits (reconnect_scheduled c.component_id (c.attempt_counter + 1) delay) ∷ []))

  bind-trace :
      {A B : Type 0} (r : Supervised F × Outcome A)
      (f : Supervised F × A → Supervised F × Outcome B)
      → ((x : Supervised F × A) → (f x).0.trace ≡ x.0.trace)
      → (r >>= f).0.trace ≡ r.0.trace
  bind-trace (s, done a) f h = h (s, a)
  bind-trace (s, raised e) f h = refl
  bind-trace (s, cancelled) f h = refl
  bind-trace (s, waiting) f h = refl

  trace-after_scheduled : (w : Cycle F) (s : Supervised F) → (after_scheduled w s).0.trace ≡ s.trace
  unfolding after_scheduled wait_for_reconnect_delay_or_stop
  trace-after_scheduled w s = ground arith

  pub sleep-Announces :
      (w : Cycle F) (outcome : FailureOutcome F) (s : Supervised F)
      → Announces s.client outcome s.trace (after_teardown w outcome s).0.trace
  unfolding after_teardown sleep_until_next_reconnect emit_reconnect_scheduled
  sleep-Announces w outcome s = elim (Option-cases outcome.plan.delay_seconds) [
    | inl n ↦ inl (ground (arith, n))
    | inr (delay, n) ↦
        let announced =
          bind-trace (emit_reconnect_scheduled w delay s) (λ x. after_scheduled w x.0)
            (λ x. trace-after_scheduled w x.0) in
        ground (arith, n, announced)
  ]

  -- A state with the trace that is given, for the same attempt.
  abbrev pub Reported : TcpClient F → List (Action F) → Supervised F × Outcome Unit → Type 0
  Reported c trace (s, o) =
      (o ≡ done tt)
      × (s.trace ≡ trace)
      × (s.client.attempt_counter ≡ c.attempt_counter)
      × (s.client.component_id ≡ c.component_id)

  -- One more call that returns.
  bind-Reported :
      (c : TcpClient F) (trace : List (Action F)) (r : Supervised F × Outcome Unit)
      (a : TcpClient F → Action F) (await : Await F)
      → Returns await
      → Reported c trace r
      → ((c' : TcpClient F)
          → c'.attempt_counter ≡ c.attempt_counter
          → c'.component_id ≡ c.component_id
          → a c' ≡ a c)
      → Reported c (trace ++ a c ∷ []) (r >>= λ x. perform (a x.0.client) await x.0)
  bind-Reported c trace (s, done u) a await returns h same = (
    returns.returns s.client,
    ground (arith, h.1, same s.client h.2 h.3),
    returns.same_attempt s.client ∙ h.2,
    returns.same_id s.client ∙ h.3,
  )
  bind-Reported c trace (s, raised e) a await returns h same = cc
  bind-Reported c trace (s, cancelled) a await returns h same = cc
  bind-Reported c trace (s, waiting) a await returns h same = cc

  emit_network_error-Reported :
      (w : Cycle F) (e : Exception) (p : ErrorPolicy) (s : Supervised F)
      → Returns w.on_network_error
      → Reported s.client
          (extend s.trace
            (if is_ignore p then [] else emits (network_error s.client.component_id e) ∷ []))
          (emit_network_error w e p s)
  unfolding emit_network_error
  emit_network_error-Reported w e p s r =
      ground (arith, r.returns s.client, r.same_attempt s.client, r.same_id s.client)

  extend_report :
      (ignored : Bool) (t : List (Action F)) (a b c d : Action F)
      → ((extend t (if ignored then [] else a ∷ []) ++ b ∷ []) ++ c ∷ []) ++ d ∷ []
        ≡ extend t ((if ignored then [] else a ∷ []) ++ b ∷ c ∷ d ∷ [])
  extend_report true t a b c d = refl
  extend_report false t a b c d = refl

  pub bind_after :
      {B : Type 0} (r : Supervised F × Outcome Unit)
      (f : Supervised F × Unit → Supervised F × Outcome B) (P : Supervised F × Outcome B → Type 0)
      → r.1 ≡ done tt
      → P (f (r.0, tt))
      → P (r >>= f)
  bind_after (s, done a) f P h p = p
  bind_after (s, raised e) f P h p = cc
  bind_after (s, cancelled) f P h p = cc
  bind_after (s, waiting) f P h p = cc

  pub Announces-subst :
      (c c' : TcpClient F) (outcome : FailureOutcome F) (before before' after : List (Action F))
      → before ≡ before'
      → c.attempt_counter ≡ c'.attempt_counter
      → c.component_id ≡ c'.component_id
      → Announces c outcome before after
      → Announces c' outcome before' after
  Announces-subst c c' outcome before before' after b a i (inl e) = inl (e ∙ b)
  Announces-subst c c' outcome before before' after b a i (inr (delay, d, e)) =
      inr (delay, d, ground (arith, e, a, i, b))

  pub publish-Reported :
      (w : Cycle F) (e : Exception) (outcome : FailureOutcome F) (s : Supervised F)
      → Returns w.on_network_error
      → Returns w.on_attempt_failed
      → Reported s.client
          (extend s.trace (
              if is_ignore outcome.policy
              then []
              else emits (network_error s.client.component_id e) ∷ [])
            ++ emits (
                reconnect_attempt_failed s.client.component_id s.client.attempt_counter e
                  outcome.plan.delay_seconds)
              ∷ [])
          (publish_connect_failure w e outcome s)
  unfolding publish_connect_failure
  publish-Reported w e outcome s r1 r2 =
      bind-Reported s.client _ (emit_network_error w e outcome.policy s)
        (λ c.
          emits (
            reconnect_attempt_failed c.component_id c.attempt_counter e outcome.plan.delay_seconds))
        w.on_attempt_failed r2 (emit_network_error-Reported w e outcome.policy s r1)
        (λ c' n i. ground (arith, n, i))

  pub teardown-Reported :
      (c : TcpClient F) (trace : List (Action F)) (w : Cycle F) (r : Supervised F × Outcome Unit)
      → Returns w.on_stop_heartbeat_sender
      → Returns w.on_close_connection
      → Reported c trace r
      → Reported c
          ((trace ++ stops_heartbeat_sender ∷ []) ++ closes_connection ∷ [])
          (r >>= λ x. teardown w.on_stop_heartbeat_sender w.on_close_connection x.0)
  unfolding teardown
  teardown-Reported c trace w r r3 r4 h =
      bind_after r (λ x. teardown w.on_stop_heartbeat_sender w.on_close_connection x.0)
        (Reported c ((trace ++ stops_heartbeat_sender ∷ []) ++ closes_connection ∷ [])) h.0
        (bind-Reported c (trace ++ stops_heartbeat_sender ∷ [])
          (perform stops_heartbeat_sender w.on_stop_heartbeat_sender r.0) (λ _. closes_connection)
          w.on_close_connection r4
          (bind-Reported c trace (r.0, done tt) (λ _. stops_heartbeat_sender)
            w.on_stop_heartbeat_sender r3 (refl, h.1, h.2, h.3) (λ c' n i. refl))
          (λ c' n i. refl))

  pub report_lem :
      (c c' : TcpClient F) (e : Exception) (outcome : FailureOutcome F) (t t' : List (Action F))
      → c.attempt_counter ≡ c'.attempt_counter
      → c.component_id ≡ c'.component_id
      → t ≡ t'
      → ((extend t (
                if is_ignore outcome.policy
                then []
                else emits (network_error c.component_id e) ∷ [])
              ++ emits (
                  reconnect_attempt_failed c.component_id c.attempt_counter e
                    outcome.plan.delay_seconds)
                ∷ [])
            ++ stops_heartbeat_sender ∷ [])
          ++ closes_connection ∷ []
        ≡ extend t' (report c' e outcome)
  report_lem c c' e outcome t t' a i h =
      rw (a, i, h)
        (extend_report (is_ignore outcome.policy) t' (emits (network_error c'.component_id e))
          (emits (
            reconnect_attempt_failed c'.component_id c'.attempt_counter e
              outcome.plan.delay_seconds))
          stops_heartbeat_sender closes_connection)
