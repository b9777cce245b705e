-- ===== src/Server/Guarantees.antt =====
-- What holds in every state that the TCP server (asyncio_tcp_server.py) comes to.
use aionetx.Base.{
  ℕ, String, ◌≤◌, ◌≡◌, refl, Bool, true, false, Option, none, some, List, [], ◌∷◌, arith, length,
  is_some, Result, ok, err,
}
use aionetx.Lifecycle.{
  running, assert_legal_lifecycle_transition, apply, apply_stopping_transition_if_active,
}
use aionetx.Dispatcher.State.{Dispatcher}
use aionetx.Server.{TcpServer, StopPlan, new_server, publisher, notify_status_changed}
use aionetx.Server.Sections.{plan_stop}
use aionetx.Server.Steps.{
  World, Step, starts, is_bound, fails_to_bind, rolls_back, accepts, starts_heartbeat,
  fails_heartbeat, connection_closes, plans_stop, has_stopped, releases, others, Reaches, here,
  later, new_world,
}
use aionetx.Server.Invariant.{
  IsSound, Covers, starts-IsSound, bound-IsSound, bind_failed-IsSound, rollback-IsSound,
  accept-IsSound, heartbeat-IsSound, no_heartbeat-IsSound, closed-IsSound, plan_stop-IsSound,
  stopped-IsSound, release-IsSound, owners,
}

-- Whether a plan owns its stop, and its waiter.
abbrev pub owner_and_waiter : Result StopPlan → Option (Bool × ℕ)
owner_and_waiter (err e) = none
owner_and_waiter (ok plan) = some (plan.owns_stop, plan.stop_waiter)

-- The same, from the stops that are under way.
abbrev pub expected : ℕ → List ℕ → Bool × ℕ
expected waiter [] = (true, waiter)
expected waiter (other ∷ stops) = (false, other)

module _ {F : Type 0} where
  Step-IsSound : (m : ℕ) (w v : World F) → Step w v → IsSound m w → IsSound m v
  Step-IsSound m w _ (starts worker) i = starts-IsSound worker m w i
  Step-IsSound m w _ (is_bound server) i = bound-IsSound server m w i
  Step-IsSound m w _ fails_to_bind i = bind_failed-IsSound m w i
  Step-IsSound m w _ rolls_back i = rollback-IsSound m w i
  Step-IsSound m w _ (accepts build_id peer connection) i =
      accept-IsSound build_id peer connection m w i
  Step-IsSound m w _ (starts_heartbeat id sender) i = heartbeat-IsSound id sender m w i
  Step-IsSound m w _ (fails_heartbeat id) i = no_heartbeat-IsSound id m w i
  Step-IsSound m w _ (connection_closes id) i = closed-IsSound id m w i
  Step-IsSound m w _ (plans_stop waiter) i = plan_stop-IsSound waiter m w i
  Step-IsSound m w _ has_stopped i = stopped-IsSound m w i
  Step-IsSound m w _ (releases waiter h) i = release-IsSound waiter m w h i
  Step-IsSound m w _ (others d) i = ground (arith, i)

  new-IsSound : (id : String) (m : ℕ) (d : Dispatcher F) → IsSound m (new_world id m d)
  unfolding new_world new_server
  new-IsSound id m d = record {
    limit = refl;
    within = ground arith;
    covered = λ a h. h;
    listening = λ h. cc;
    one_stop = refl;
  }

  Reaches-IsSound : (m : ℕ) (w v : World F) → Reaches w v → IsSound m w → IsSound m v
  Reaches-IsSound m w _ here i = i
  Reaches-IsSound m w v (later {v = u} r s) i = Step-IsSound m u v s (Reaches-IsSound m w u r i)

  -- However clients arrive, connections close, and starts and stops overlap, a server that was
  -- made for `m` connections never has more than `m` registered ones, every heartbeat sender that
  -- it keeps belongs to a registered connection, and it holds a listening server only while it is
  -- RUNNING.
  pub keeps_its_registry :
      (id : String) (m : ℕ) (d : Dispatcher F) (w : World F)
      → Reaches (new_world id m d) w
      → (length w.server.connections ≤ m)
        × Covers w.server.connections w.server.heartbeat_senders
        × (is_some w.server.server ≡ true → w.server.lifecycle_state ≡ running)
  keeps_its_registry id m d w r =
      let i = Reaches-IsSound m (new_world id m d) w r (new-IsSound id m d) in
      (i.within, i.covered, i.listening)

  planned :
      (waiter : ℕ) (s : TcpServer F)
      → (length (owners s.stop_waiter) ≤ 1)
        × (owner_and_waiter (plan_stop waiter s).1 ≡ some (expected waiter (owners s.stop_waiter)))
  unfolding plan_stop apply_stopping_transition_if_active publisher apply
      assert_legal_lifecycle_transition notify_status_changed
  planned waiter s = ground arith

  -- Concurrent calls of `stop` share one stop: at most one is under way, and a call that comes
  -- then never raises while it plans; it owns a stop of its own exactly if none is under way, and
  -- else it is given the waiter of the one that is.
  pub shares_one_stop :
      (id : String) (m : ℕ) (d : Dispatcher F) (w : World F) (waiter : ℕ)
      → Reaches (new_world id m d) w
      → (length w.stops ≤ 1)
        × (owner_and_waiter (plan_stop waiter w.server).1 ≡ some (expected waiter w.stops))
  shares_one_stop id m d w waiter r =
      let i = Reaches-IsSound m (new_world id m d) w r (new-IsSound id m d) in
      rw i.one_stop (planned waiter w.server)
