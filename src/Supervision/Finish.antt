-- ===== src/Supervision/Finish.antt =====
-- The wait for the connection's end, and the end of supervision, of tcp_client_supervision.py.
use aionetx.Base.{◌≡◌, refl, ◌∙◌, String, true, false, none, List, [], ◌∷◌, ◌++◌, arith, All}
use aionetx.Lifecycle.{ComponentLifecycleState, stopped, ComponentLifecycleChangedEvent}
use aionetx.Events.{component_lifecycle_changed}
use aionetx.Lifecycle.Apply.{IsLens, collect_terminal_lifecycle_events-stopped}
use aionetx.Supervision.{
  TcpClient, emits, stops_heartbeat_sender, closes_connection, Supervised, Outcome, done, raised,
  cancelled, waiting, Await, Final,
}
use aionetx.Supervision.Steps.{await_connection_termination, teardown}
use aionetx.Supervision.Run.{
  publisher, and_finally, emit_lifecycle_events, after_collect, after_shutdown, stop_dispatcher,
  publish_terminal_lifecycle_transitions, shut_down, finalize_supervision,
}
use aionetx.Supervision.Order.{not_waiting}

module _ {F : Type 0} where
  termination_of_stopped :
      (waits : List (Await F)) (s : Supervised F)
      → s.client.is_running ≡ false
      → (await_connection_termination waits s).1 ≡ done tt
  unfolding await_connection_termination
  termination_of_stopped [] s h = ground (arith, h)
  termination_of_stopped (w ∷ waits) s h = ground (arith, h)

  abbrev EndsAwait : Await F → Type 0
  EndsAwait await = (c : TcpClient F) → not_waiting (await c).1 ≡ true

  -- The wait for the end of a connection ends when one of its wakes finds the client stopped,
  -- after any number of wakes before, if no wake itself waits for ever.
  pub await_connection_termination_released :
      (before after : List (Await F)) (wake : Await F) (s : Supervised F)
      → All EndsAwait before
      → EndsAwait wake
      → ((c : TcpClient F) → (wake c).0.is_running ≡ false)
      → not_waiting (await_connection_termination (before ++ wake ∷ after) s).1 ≡ true
  unfolding await_connection_termination
  await_connection_termination_released [] after wake s b e h =
      let (c, o) = wake s.client in
      let s' = record s { client = record c { connection_closed_event = false } } in
      ground (arith, e s.client, termination_of_stopped after s' (h s.client))
  await_connection_termination_released (w ∷ before) after wake s b e h =
      let (c, o) = w s.client in
      let s' = record s { client = record c { connection_closed_event = false } } in
      ground
        (arith, b.0 s.client, await_connection_termination_released before after wake s' b.1 e h)

  publisher-IsLens : (id : String) → IsLens (publisher {F = F} id)
  publisher-IsLens id = record { reads_back = λ s c. refl; bookkeeping = λ s c. refl }

  -- A call that returns, and leaves the lifecycle's state and a stop of the client as they are.
  pub record Leaves (await : Await F) : Type 0 where
    pub returns : (c : TcpClient F) → (await c).1 ≡ done tt
    pub same_state : (c : TcpClient F) → (await c).0.lifecycle_state ≡ c.lifecycle_state
    pub same_waiter : (c : TcpClient F) → (await c).0.stop_waiter ≡ c.stop_waiter

  -- Done, in the lifecycle's state `t`.
  abbrev EndsIn : ComponentLifecycleState → Supervised F × Outcome Unit → Type 0
  EndsIn t r = (r.1 ≡ done tt) × (r.0.client.lifecycle_state ≡ t)

  emit_lifecycle_events-EndsIn :
      (await : Await F) (es : List ComponentLifecycleChangedEvent) (s : Supervised F)
      → Leaves await
      → EndsIn s.client.lifecycle_state (emit_lifecycle_events await es s)
  unfolding emit_lifecycle_events
  emit_lifecycle_events-EndsIn await [] s l = (refl, refl)
  emit_lifecycle_events-EndsIn await (e ∷ es) s l =
      let c = (await s.client).0 in
      ground (
        arith,
        l.returns s.client,
        l.same_state s.client,
        emit_lifecycle_events-EndsIn await es
            (record { client = c; trace = s.trace ++ emits (component_lifecycle_changed e) ∷ [] })
            l,
      )

  publish-EndsIn :
      (end : Final F) (s : Supervised F)
      → Leaves end.on_lifecycle_event
      → EndsIn stopped (publish_terminal_lifecycle_transitions end s)
  unfolding publish_terminal_lifecycle_transitions after_collect
  publish-EndsIn end s l =
      let id = s.client.component_id in
      let (es, c, collected, is_stopped, chain, all) =
        collect_terminal_lifecycle_events-stopped (publisher id) (publisher-IsLens id) s.client in
      let sent =
        emit_lifecycle_events-EndsIn end.on_lifecycle_event es (record s { client = c }) l in
      rw (collected, publish_terminal_lifecycle_transitions) (sent.0, sent.1 ∙ is_stopped)

  stop_dispatcher-EndsIn :
      (end : Final F) (s : Supervised F)
      → Leaves end.on_stop_dispatcher
      → EndsIn s.client.lifecycle_state (stop_dispatcher end s)
  unfolding stop_dispatcher
  stop_dispatcher-EndsIn end s l = ground (arith, l.returns s.client, l.same_state s.client)

  shut_down-EndsIn :
      (end : Final F) (s : Supervised F)
      → Leaves end.on_stop_heartbeat_sender
      → Leaves end.on_close_connection
      → Leaves end.on_lifecycle_event
      → s.client.stop_waiter ≡ none
      → EndsIn stopped (shut_down end s)
  unfolding shut_down teardown after_shutdown
  shut_down-EndsIn end s l1 l2 l3 h =
      let c1 = (end.on_stop_heartbeat_sender s.client).0 in
      let c2 = (end.on_close_connection c1).0 in
      ground (
        arith,
        h,
        l1.returns s.client,
        l1.same_waiter s.client,
        l2.returns c1,
        l2.same_waiter c1,
        publish-EndsIn end
            (record {
              client = c2;
              trace = (s.trace ++ stops_heartbeat_sender ∷ []) ++ closes_connection ∷ [];
            })
            l3,
      )

  and_finally-EndsIn :
      (r : Supervised F × Outcome Unit) (k : Supervised F → Supervised F × Outcome Unit)
      → EndsIn stopped r
      → ((s : Supervised F) → EndsIn s.client.lifecycle_state (k s))
      → EndsIn stopped (and_finally r k)
  and_finally-EndsIn (s, done u) k h g = ground (arith, g s)
  and_finally-EndsIn (s, raised e) k h g = cc
  and_finally-EndsIn (s, cancelled) k h g = cc
  and_finally-EndsIn (s, waiting) k h g = cc

  -- Whichever state the client is in, if no stop of it is in progress and the calls of others
  -- return and leave its lifecycle's state and the stop alone, the end of supervision returns and
  -- leaves the client STOPPED.
  pub finalize_supervision-EndsIn :
      (end : Final F) (s : Supervised F)
      → Leaves end.on_stop_heartbeat_sender
      → Leaves end.on_close_connection
      → Leaves end.on_lifecycle_event
      → Leaves end.on_stop_dispatcher
      → s.client.stop_waiter ≡ none
      → ((finalize_supervision end s).1 ≡ done tt)
        × ((finalize_supervision end s).0.client.lifecycle_state ≡ stopped)
  unfolding finalize_supervision
  finalize_supervision-EndsIn end s l1 l2 l3 l4 h =
      and_finally-EndsIn (shut_down end s) (stop_dispatcher end) (shut_down-EndsIn end s l1 l2 l3 h)
        (λ s'. stop_dispatcher-EndsIn end s' l4)
