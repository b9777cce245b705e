-- ===== src/Lib.antt =====
-- aionetx, an asyncio library for TCP and UDP: a model of its event dispatcher, of its TCP connection,
-- of the TCP server, of the supervision of the TCP client, of the UDP sender, and of the parts that
-- these stand on.
--
-- The program. A component (TCP client or server, UDP or multicast receiver) owns an event dispatcher,
-- to which it emits what happens on the network, and publishes the transitions of its lifecycle as
-- events, too. In background mode the dispatcher queues the events for a worker task, with a limit and
-- a policy for a full queue; else, and for events from within handlers, it delivers them in the task
-- that emits. A handler that fails is handled by a policy, which may emit control events or stop the
-- component. A TCP client is supervised by a task of its own, which connects, waits for the end of the
-- connection, plans the next attempt, and cleans up at the end. A TCP server registers the connections
-- that it accepts, up to a limit, and its stop is shared by all who call it. A TCP connection reads in a
-- task of its own; it is closed by one lifecycle, which all callers of close await, and which tears it
-- down and publishes its closed event, at once or when the handlers that run have returned. Settings are
-- validated when they are built.
--
-- The files, and the code (under src/aionetx) that they are about:
--   Base           shared names, Boolean tests, lists, exceptions and results
--   Lifecycle      api/component_lifecycle_state.py, api/component_lifecycle_changed_event.py,
--                  implementations/asyncio_impl/lifecycle_internal.py;
--                  Lifecycle.Graph is the diagram of the legal transitions, Lifecycle.Apply the
--                  publication of sequences of them
--   Events         the event classes and the delivery settings of api
--   Dispatcher     implementations/asyncio_impl/event_dispatcher.py with its queue and policy modules:
--                  State (__init__, queue items, stop policy), Context (context variables and context
--                  managers), Queue (_enqueue, drops, start, stop), Emit (emit, _emit_now and
--                  handler failures), Barrier (emit_and_wait), Worker (_run)
--   Runtime        implementations/asyncio_impl/runtime_utils.py: RateLimiter, Backoff, Guards
--   Supervision    implementations/asyncio_impl/tcp_client_supervision.py: Steps (the phases), Run
--                  (the loop and the end), Order, Report, Failures and Finish (what holds of them)
--   Connection     implementations/asyncio_impl/asyncio_tcp_connection.py, _tcp_connection_helpers.py:
--                  Create (__init__, metadata), Open (start), Close (the sections under the close
--                  lock), Steps (their interleavings), Teardown, Stream (send, _read_loop); Invariant,
--                  Refinement and Guarantees are about what the steps keep
--   Server         implementations/asyncio_impl/asyncio_tcp_server.py, _tcp_server_helpers.py,
--                  _tcp_server_stop_state.py: Registry (accepting, heartbeat senders), Sections (start,
--                  stop, rollback), Steps (their interleavings), Stop (the owned stop), Listen (the
--                  listening socket), Broadcast; Dictionary, Invariant and Guarantees are about what they keep
--   UdpSender      implementations/asyncio_impl/asyncio_udp_sender.py, with Polling (the fallback)
--   Heartbeat      implementations/asyncio_impl/asyncio_heartbeat_sender.py
--   Router         api/typed_event_router.py
--   Settings       api/_validation.py and the `validate` methods of the settings: Values (the tests),
--                  Delivery and Transports (the dataclasses), Rejection, Acceptance and
--                  Clients (which settings are accepted)
-- The modules named Tests hold concrete states, and the theorems at them.
--
-- How the code is modelled. A method that changes its object is a function from the state to the state;
-- an exception is a value, and so is the end of an awaited call: it returns, raises, is cancelled, or
-- waits for ever. Tasks, futures, callbacks and event loops are numbers that stand for identities.
-- What other tasks do while a call waits is an argument: `wakes` of `enqueue` and of the emissions is
-- what happens at each wait for room, `steps` of `emit_and_wait` what happens until the event is
-- handled, and a `Cycle` of the supervision has one function for each of its awaits. The connection and
-- the server are cut at their awaits: what runs between two of them, most of it under a lock, is one
-- function, and an inductive step relation takes any of them that the tasks have come to, in any order,
-- with changes by other code between; a step behind an await may be taken at any time, so that every
-- interleaving of the code is one of the relation. The application's
-- handler and the component's stop callback are the fields of `Application`, arbitrary functions on the
-- dispatcher; theorems that need more of them say so by `KeepsSettings`, `IsQuiet` and the like.
-- Floats are a type parameter with the operations that the code calls; `IsOrdered` names what is
-- relied on of them. The parsing of IPv4 addresses, the conversion of integers to floats and the
-- white space of texts are arguments.
--
-- Bounds. `_emit_now` calls itself for control events only, whose own failures cause no further control
-- event: `emit_now` is given two levels. `run` of the worker is given a number of rounds; a worker that
-- stops needs one for each event in the queue and one to end. The loops over waits go on for as many
-- waits as are given, and tell when that was not the end.
--
-- Not modelled: the datagram receivers, the client outside of its supervision,
-- the base class of handlers, the identifiers and the factories; of the connection, how a cancelled caller of
-- close waits; of the server, the tasks that complete a deferred stop and the
-- waits for a state; log records
-- and the limiters that thin them out; the texts of messages; locks and conditions, as what the code
-- does while it holds one, without awaiting, is one step; the reference cycles and the memory of tasks.
-- Rational numbers that are neither integers nor floats are left out of the values of settings.
-- An object that stands where nested settings are expected has none of their attributes.
pub mod Base
pub mod Lifecycle
pub mod Events
pub mod Dispatcher
pub mod Runtime
pub mod Supervision
pub mod Settings
pub mod Connection
pub mod Server
pub mod UdpSender
pub mod Router
pub mod Heartbeat
