-- ===== src/Connection/Tests.antt =====
-- A connection that is started and closed, with natural numbers for floats, and the theorems at it.
use aionetx.Base.{
  ℕ, ◌≡◌, ◌≢◌, ◌≤◌, refl, true, false, some, none, [], ◌∷◌, ok, ltb, leb, ◌+◌, ◌-◌, ◌*◌, str_eq,
  length, All,
}
use aionetx.Events.{server, ConnectionState, connected, closed, background, block, log_only}
use aionetx.Dispatcher.State.{Dispatcher, no_stats, no_origins, no_bypass, pending}
use aionetx.Dispatcher.Context.{TaskContext}
use aionetx.Settings.Values.{Builtins, none_value}
use aionetx.Connection.{
  TcpConnection, World, CloseArgs, publishes, awaits, of_close_lifecycle, is_closed_state,
}
use aionetx.Connection.Create.{ConnectionArgs, address, no_address, init, new_world}
use aionetx.Connection.Open.{start_section, opening_section, opened_section, reading_section}
use aionetx.Connection.Close.{close_section}
use aionetx.Connection.Steps.{
  starts, opens, is_opened, starts_to_read, closes, asks_to_defer, tests_after_opened,
  finalizes_close, returns, is_published, Reaches, here, later, lifecycle_goes_on, deferred_goes_on,
  finalize_goes_on, caller_ends, publication_ends,
}
use aionetx.Connection.Refinement.{phase}
use aionetx.Connection.Guarantees.{one_of_each, closes_once, Reaches-phase, Course}

abbrev builtins : Builtins ℕ
builtins = record {
  floats = record {
    zero = 0;
    one = 1;
    add = λ x y. x + y;
    sub = λ x y. x - y;
    mul = λ x y. x * y;
    half = λ x. x;
    less = ltb;
    at_most = leb;
  };
  float_of_int = λ n. some n;
  float_of_negative = λ n. none;
  is_finite = λ x. true;
  is_blank = λ s. str_eq s "";
}

abbrev args : ConnectionArgs ℕ
args = record {
  connection_id = "tcp/server/connection/1";
  role = server;
  sockname = address "127.0.0.1" (some 5000);
  peername = no_address;
  receive_buffer_size = 4096;
  idle_timeout_seconds = none;
  send_timeout_seconds = none_value;
  on_closed_callback = none;
  on_ready_callback = none;
}

abbrev pub made : TcpConnection ℕ
made = record {
  connection_id = "tcp/server/connection/1";
  role = server;
  receive_buffer_size = 4096;
  idle_timeout_seconds = none;
  send_timeout_seconds = none;
  on_closed_callback = none;
  on_ready_callback = none;
  state = ConnectionState.created;
  metadata = record {
    connection_id = "tcp/server/connection/1";
    role = server;
    local_host = some "127.0.0.1";
    local_port = some 5000;
    remote_host = none;
    remote_port = none;
  };
  read_task = none;
  closed_event_published = false;
  close_event_previous_state = none;
  close_task = none;
  close_event_task = none;
  opening_event_task = none;
  close_event_deferred = false;
  deferred_close_event_waiter = none;
  deferred_close_publish_task = none;
}

init-made : init builtins args ≡ ok made
unfolding init
init-made = refl

abbrev pub dispatcher : Dispatcher ℕ
dispatcher = record {
  self_id = 0;
  delivery = record {
    dispatch_mode = background;
    backpressure_policy = block;
    max_pending_events = 8;
    handler_failure_policy = log_only;
  };
  error_source = none;
  stop_policy_enabled = false;
  stop_component_callback = none;
  worker_task = some 1;
  queue = [];
  stopping = false;
  stats = no_stats;
  origins = no_origins;
  bypass = no_bypass;
  futures = λ k. pending;
}

abbrev pub as_task : ℕ → TaskContext
as_task t = record {
  current_task = some t;
  inline_dispatchers = [];
  stop_await_bypass = [];
  handler_dispatch = [];
  handler_origin = [];
}

-- Task 2 starts the connection, and the opened event is published; task 3 closes it.
unfoldable at_start : World ℕ
unfolding new_world
at_start = new_world made dispatcher 10 0

unfoldable started : World ℕ
unfolding at_start start_section opening_section opened_section
started = opened_section (as_task 2) (opening_section (as_task 2) (start_section at_start).0).0

unfoldable reading : World ℕ
unfolding started deferred_goes_on reading_section
reading = reading_section (deferred_goes_on 10 false started)

unfoldable closing_down : World ℕ
unfolding reading close_section
closing_down = (close_section (as_task 3) reading).0

abbrev pub arguments : CloseArgs
arguments = record {
  needs_teardown = true;
  read_task = some 11;
  close_caller_task = some 3;
  close_caller_uses_inline_delivery = false;
  context = as_task 3;
}

unfoldable publishing : World ℕ
unfolding closing_down lifecycle_goes_on finalize_goes_on
publishing = finalize_goes_on 12 of_close_lifecycle (lifecycle_goes_on 12 arguments closing_down)

unfoldable over : World ℕ
unfolding publishing publication_ends caller_ends
over = caller_ends 12 of_close_lifecycle none (publication_ends 13 connected true publishing)

Reaches-reading : Reaches at_start reading
unfolding started reading
Reaches-reading =
    later
      (later (later (later (later here starts) (opens (as_task 2))) (is_opened (as_task 2)))
        (tests_after_opened 10 refl))
      starts_to_read

Reaches-publishing : Reaches reading publishing
unfolding publishing closing_down reading
Reaches-publishing =
    later (later (later here (closes (as_task 3))) (asks_to_defer 12 arguments refl))
      (finalizes_close 12 of_close_lifecycle refl)

Reaches-over : Reaches publishing over
unfolding over publishing
Reaches-over =
    later (later here (is_published 13 connected true refl))
      (returns 12 of_close_lifecycle none refl)

Reaches-trans : (u v w : World ℕ) → Reaches u v → Reaches v w → Reaches u w
Reaches-trans u v _ r here = r
Reaches-trans u v w r (later {v = x} q s) = later (Reaches-trans u v x r q) s

over_published : over.published ≡ connected ∷ []
unfolding over
over_published = refl

abbrev lifecycle_task : ℕ
lifecycle_task = 12

one_of_each_example : lifecycle_task ≡ lifecycle_task
unfolding at_start publishing
one_of_each_example =
    one_of_each builtins args made init-made dispatcher 10 0 publishing lifecycle_task
      lifecycle_task (awaits of_close_lifecycle) (awaits of_close_lifecycle)
      (Reaches-trans at_start reading publishing Reaches-reading Reaches-publishing) refl refl refl
      (λ e. cc)

closes_once_example :
    (length over.published ≤ 1)
    × All (λ previous. is_closed_state previous ≡ false) over.published
    × (over.published ≢ []
        → (over.connection.state ≡ closed)
          × (over.connection.closed_event_published ≡ true)
          × ((t : ℕ) (previous : ConnectionState) → over.tasks t ≢ some (publishes previous)))
    × (over.teardowns ≤ 1)
unfolding at_start
closes_once_example = closes_once builtins args made init-made dispatcher 10 0 over (
    Reaches-trans at_start publishing over
      (Reaches-trans at_start reading publishing Reaches-reading Reaches-publishing) Reaches-over)

Reaches-phase_example : Course (phase publishing) (phase over)
unfolding at_start
Reaches-phase_example =
    Reaches-phase builtins args made init-made dispatcher 10 0 publishing over
      (Reaches-trans at_start reading publishing Reaches-reading Reaches-publishing) Reaches-over
