-- ===== src/Server/Steps.antt =====
-- The holds of the state lock of asyncio_tcp_server.py, by any number of tasks in any order.
use aionetx.Base.{ℕ, String, ◌≡◌, true, List, [], ◌∷◌, if◌then◌else◌, is_none, elem, discard}
use aionetx.Dispatcher.State.{Dispatcher}
use aionetx.Connection.Create.{AddressInfo}
use aionetx.Server.{TcpServer, new_server}
use aionetx.Server.Registry.{
  accept_section, register_heartbeat_section, unregister_heartbeat_section,
  connection_closed_section,
}
use aionetx.Server.Sections.{
  start_section, bound_section, bind_failed_section, rollback_section, plan_stop, stopped_section,
  release_section,
}

pub record World (F : Type 0) : Type 0 where
  pub server : TcpServer F
  -- The stops that own their plan and are under way, by their waiters.
  pub stops : List ℕ

module _ {F : Type 0} where
  abbrev pub holds : TcpServer F → World F → World F
  holds s w = record w { server = s }

  -- `_plan_stop`: the caller owns the stop if there was none.
  unfoldable pub begins_stop : ℕ → World F → World F
  unfolding plan_stop
  begins_stop waiter w = record {
    server = (plan_stop waiter w.server).0;
    stops = if is_none w.server.stop_waiter then waiter ∷ w.stops else w.stops;
  }

  -- The stop ends, or what completes it later.
  unfoldable pub ends_stop : ℕ → World F → World F
  unfolding release_section
  ends_stop waiter w = record {
    server = release_section waiter w.server;
    stops = discard waiter w.stops;
  }

  pub data Step (w : World F) : World F → Type 0 where
    starts : (worker : ℕ) → Step w (holds (start_section worker w.server).0 w)
    is_bound : (server : ℕ) → Step w (holds (bound_section server w.server).0 w)
    fails_to_bind : Step w (holds (bind_failed_section w.server).0 w)
    rolls_back : Step w (holds (rollback_section w.server).0 w)
    accepts :
        (build_id : AddressInfo → ℕ → String) (peer : AddressInfo) (connection : ℕ)
        → Step w (holds (accept_section build_id peer connection w.server).0 w)
    starts_heartbeat :
        (id : String) (sender : ℕ)
        → Step w (holds (register_heartbeat_section id sender w.server).0 w)
    fails_heartbeat : (id : String) → Step w (holds (unregister_heartbeat_section id w.server) w)
    connection_closes : (id : String) → Step w (holds (connection_closed_section id w.server).0 w)
    plans_stop : (waiter : ℕ) → Step w (begins_stop waiter w)
    has_stopped : Step w (holds (stopped_section w.server).0 w)
    releases : (waiter : ℕ) → elem waiter w.stops ≡ true → Step w (ends_stop waiter w)
    others : (d : Dispatcher F) → Step w (holds (record (w.server) { dispatcher = d }) w)

  pub data Reaches (w : World F) : World F → Type 0 where
    here : Reaches w w
    later : {v u : World F} → Reaches w v → Step v u → Reaches w u

  unfoldable pub new_world : String → ℕ → Dispatcher F → World F
  unfolding new_server
  new_world component_id max_connections d = record {
    server = new_server component_id max_connections d;
    stops = [];
  }
