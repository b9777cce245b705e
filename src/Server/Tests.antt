-- ===== src/Server/Tests.antt =====
-- A server for two connections that is started, accepts a client and is stopped, and the theorems
-- at it.
use aionetx.Base.{
  ℕ, String, ◌≡◌, ◌≤◌, refl, true, false, some, none, [], ◌∷◌, ◌++◌, List, length, is_some,
  os_error, runtime_error, cancelled_error, ok, All, arith,
}
use aionetx.Lifecycle.{assert_legal_lifecycle_transition, running, stopping}
use aionetx.Connection.Create.{AddressInfo, no_address}
use aionetx.Events.{background, block, log_only}
use aionetx.Dispatcher.State.{Dispatcher, no_stats, no_origins, no_bypass, pending}
use aionetx.Server.{StopPlan, StopProvenance}
use aionetx.Server.Steps.{
  World, starts, is_bound, accepts, starts_heartbeat, plans_stop, Reaches, here, later, new_world,
  holds, begins_stop,
}
use aionetx.Server.Registry.{accept_section, register_heartbeat_section}
use aionetx.Server.Sections.{start_section, bound_section, plan_stop}
use aionetx.Server.Invariant.{Covers}
use aionetx.Server.Guarantees.{keeps_its_registry, shares_one_stop, owner_and_waiter, expected}
use aionetx.Server.Stop.{StopCalls}
use aionetx.Server.Listen.{
  Candidate, create_listening_socket, create_listening_socket-closes, kept, RaisesOsErrors,
}

abbrev dispatcher : Dispatcher ℕ
dispatcher = record {
  self_id = 0;
  delivery = record {
    dispatch_mode = background;
    backpressure_policy = block;
    max_pending_events = 16;
    handler_failure_policy = log_only;
  };
  error_source = none;
  stop_policy_enabled = false;
  stop_component_callback = none;
  worker_task = some 1;
  queue = [];
  stopping = false;
  stats = no_stats;
  origins = no_origins;
  bypass = no_bypass;
  futures = λ k. pending;
}

abbrev id_of : AddressInfo → ℕ → String
id_of peer n = "tcp/server/unknown/unknown/connection"

unfoldable at_rest : World ℕ
unfolding new_world
at_rest = new_world "tcp/server" 2 dispatcher

unfoldable serving : World ℕ
unfolding at_rest start_section bound_section accept_section register_heartbeat_section
serving =
    let w1 = holds (start_section 5 at_rest.server).0 at_rest in
    let w2 = holds (bound_section 6 w1.server).0 w1 in
    let w3 = holds (accept_section id_of no_address 7 w2.server).0 w2 in
    holds (register_heartbeat_section "tcp/server/unknown/unknown/connection" 8 w3.server).0 w3

unfoldable stopping_down : World ℕ
unfolding serving begins_stop
stopping_down = begins_stop 9 serving

Reaches-serving : Reaches at_rest serving
unfolding serving
Reaches-serving =
    later (later (later (later here (starts 5)) (is_bound 6)) (accepts id_of no_address 7))
      (starts_heartbeat "tcp/server/unknown/unknown/connection" 8)

serving_one : serving.server.connections ≡ ("tcp/server/unknown/unknown/connection", 7) ∷ []
unfolding serving assert_legal_lifecycle_transition
serving_one = refl

keeps_its_registry_example :
    (length serving.server.connections ≤ 2)
    × Covers serving.server.connections serving.server.heartbeat_senders
    × (is_some serving.server.server ≡ true → serving.server.lifecycle_state ≡ running)
unfolding at_rest
keeps_its_registry_example = keeps_its_registry "tcp/server" 2 dispatcher serving Reaches-serving

Reaches-stopping : Reaches at_rest stopping_down
unfolding stopping_down
Reaches-stopping = later Reaches-serving (plans_stop 9)

shares_one_stop_example :
    (length stopping_down.stops ≤ 1)
    × (owner_and_waiter (plan_stop 10 stopping_down.server).1
        ≡ some (expected 10 stopping_down.stops))
unfolding at_rest
shares_one_stop_example =
    shares_one_stop "tcp/server" 2 dispatcher stopping_down 10 Reaches-stopping

abbrev calls : StopCalls
calls = record {
  on_handler_origin_stop = none;
  on_stopping_event = some runtime_error;
  on_server_close = none;
  on_heartbeat_senders = some cancelled_error;
  on_connections = none;
  on_stopped_transition = none;
  on_wait_closed = none;
  on_stopped_event = none;
  on_dispatcher_stop = none;
}

abbrev plan : StopPlan
plan = record {
  stop_waiter = 9;
  owns_stop = true;
  server = some 6;
  stopping_event = some (record {
    resource_id = "tcp/server";
    previous = running;
    current = stopping;
    reason = none;
  });
  should_transition_to_stopped = true;
  heartbeat_senders = 8 ∷ [];
  connections = 7 ∷ [];
}

abbrev from_outside : StopProvenance
from_outside = record { handler_originated = false; active_inline_handler = false }

abbrev candidates : List Candidate
candidates =
    record { created = ok 1; set_up = some os_error }
    ∷ record { created = ok 2; set_up = none }
    ∷ []

raises_os_errors : All RaisesOsErrors candidates
raises_os_errors = ((λ e h. ground (arith, h)), ((λ e h. cc), tt))

create_listening_socket-closes_example :
    (create_listening_socket none candidates).opened
    ≡ (create_listening_socket none candidates).closed
      ++ kept (create_listening_socket none candidates).result
create_listening_socket-closes_example =
    create_listening_socket-closes none candidates raises_os_errors

listening : (create_listening_socket none candidates).result ≡ ok 2
unfolding create_listening_socket
listening = refl
