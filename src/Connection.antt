-- ===== src/Connection.antt =====
-- One TCP connection: the state of `AsyncioTcpConnection` (asyncio_tcp_connection.py), the tasks
-- that it creates and how far each of them has come, and the event loop around it.
pub mod Close
pub mod Open
pub mod Steps
pub mod Invariant
pub mod Refinement
pub mod Create
pub mod Stream
pub mod Teardown
pub mod Guarantees
mod Tests
use aionetx.Base.{
  ℕ, suc, String, Bool, true, false, ◌&&◌, ◌||◌, not, Option, none, some, List, [], ◌∷◌, ◌==◌,
  if◌then◌else◌, is_none, Exception,
}
use aionetx.Events.{
  ConnectionState, created, connecting, connected, closing, closed, ConnectionRole,
  ConnectionMetadata,
}
use aionetx.Dispatcher.State.{Dispatcher, Futures, FutureState, pending, done, settle}
use aionetx.Dispatcher.Context.{TaskContext}

-- Callbacks, tasks and futures are numbers.
pub record TcpConnection (F : Type 0) : Type 0 where
  pub connection_id : String
  pub role : ConnectionRole
  pub receive_buffer_size : ℕ
  pub idle_timeout_seconds : Option F
  pub send_timeout_seconds : Option F
  pub on_closed_callback : Option ℕ
  pub on_ready_callback : Option ℕ
  pub state : ConnectionState
  pub metadata : ConnectionMetadata
  pub read_task : Option ℕ
  pub closed_event_published : Bool
  pub close_event_previous_state : Option ConnectionState
  pub close_task : Option ℕ
  pub close_event_task : Option ℕ
  pub opening_event_task : Option ℕ
  pub close_event_deferred : Bool
  pub deferred_close_event_waiter : Option ℕ
  pub deferred_close_publish_task : Option ℕ

-- The arguments that `close` gives to `_run_close_lifecycle`, with the context that the new task
-- inherits.
pub record CloseArgs : Type 0 where
  pub needs_teardown : Bool
  pub read_task : Option ℕ
  pub close_caller_task : Option ℕ
  pub close_caller_uses_inline_delivery : Bool
  pub context : TaskContext

-- What follows when `_finalize_close` returns or raises.
pub data Caller : Type 0 where
  -- `_run_close_lifecycle`.
  of_close_lifecycle : Caller
  -- `_publish_deferred_close_after_opened_event`, which holds this waiter, in the publisher's task
  -- or in one of its own.
  of_deferred_close : (waiter : Option ℕ) → (in_publisher : Bool) → Caller

-- How far a task of the connection has come. A section under the close lock is not interrupted.
pub data Coroutine : Type 0 where
  -- `_run_close_lifecycle`, up to its question whether to defer.
  close_lifecycle : CloseArgs → Coroutine
  -- `_publish_deferred_close_after_handler_context_expires`, up to its test of the flag.
  publisher : Coroutine
  -- `_publish_deferred_close_after_opened_event` in a task of its own, up to the same test.
  opened_barrier : Coroutine
  -- `_finalize_close`, up to its section under the lock, and its await.
  finalizes awaits : Caller → Coroutine
  -- `_run_close_event_publication`.
  publishes : (previous_state : ConnectionState) → Coroutine
  -- `_read_loop`.
  reads : Coroutine

pub record World (F : Type 0) : Type 0 where
  pub connection : TcpConnection F
  pub dispatcher : Dispatcher F
  -- The connection's tasks that are not done.
  pub tasks : ℕ → Option Coroutine
  -- No task and no future has this number yet.
  pub next_task : ℕ
  pub next_future : ℕ
  -- The previous states in the close events whose emission succeeded, the last one first.
  pub published : List ConnectionState
  -- The lifecycles that were created to tear down.
  pub teardowns : ℕ

-- `a is b`.
abbrev pub is_same : Option ℕ → Option ℕ → Bool
is_same none none = true
is_same (some a) (some b) = a == b
is_same _ _ = false

abbrev pub is_connected_state : ConnectionState → Bool
is_connected_state connected = true
is_connected_state _ = false

abbrev pub is_closed_state : ConnectionState → Bool
is_closed_state closed = true
is_closed_state _ = false

-- `state in (ConnectionState.CLOSING, ConnectionState.CLOSED)`.
abbrev pub is_down : ConnectionState → Bool
is_down closing = true
is_down closed = true
is_down _ = false

abbrev pub set_task : ℕ → Option Coroutine → (ℕ → Option Coroutine) → ℕ → Option Coroutine
set_task t co tasks j = if j == t then co else tasks j

module _ {F : Type 0} where
  -- `task is None or task.done()`, of a task that the connection created.
  abbrev pub none_or_done : Option ℕ → World F → Bool
  none_or_done none w = true
  none_or_done (some t) w = is_none (w.tasks t)

  -- `future is None or future.done()`.
  abbrev pub no_pending_future : Option ℕ → World F → Bool
  no_pending_future none w = true
  no_pending_future (some k) w = done (w.dispatcher.futures k)

  -- `asyncio.create_task`: the new task is `w.next_task`.
  abbrev pub create_task : Coroutine → World F → World F
  create_task co w = record w {
    tasks = set_task w.next_task (some co) w.tasks;
    next_task = suc w.next_task;
  }

  -- The task goes on with another part of its coroutine, or is done.
  abbrev pub goes_on : ℕ → Option Coroutine → World F → World F
  goes_on t co w = record w { tasks = set_task t co w.tasks }

  -- `loop.create_future()`: the new future is `w.next_future`.
  abbrev pub create_future : World F → World F
  create_future w = record w {
    dispatcher = record (w.dispatcher) {
      futures = settle w.next_future pending w.dispatcher.futures;
    };
    next_future = suc w.next_future;
  }

  abbrev pub update : (TcpConnection F → TcpConnection F) → World F → World F
  update f w = record w { connection = f w.connection }

  abbrev pub is_connected : TcpConnection F → Bool
  is_connected c = is_connected_state c.state
