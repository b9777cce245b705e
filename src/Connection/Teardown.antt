-- ===== src/Connection/Teardown.antt =====
-- The teardown in `_run_close_lifecycle` of asyncio_tcp_connection.py, with the two awaits of
-- _tcp_connection_helpers.py. Messages of the log are left out.
mod Tests
use aionetx.Base.{
  ℕ, ◌≡◌, ◌≢◌, ◌⊎◌, inl, inr, refl, String, Bool, true, false, not, ◌&&◌, ◌||◌, Option, none, some,
  List, [], ◌∷◌, ◌++◌, Exception, if◌then◌else◌, is_none, arith, ◌==◌, All, ap, ◌∙◌, sym,
}
use mathlib.Core.List.{append_assoc}
use aionetx.Dispatcher.State.{Dispatcher}
use aionetx.Dispatcher.Context.{
  TaskContext, has_active_handler_context, current_task_would_deliver_inline,
}
use aionetx.Connection.{TcpConnection, CloseArgs, is_same}
use aionetx.Connection.Stream.{Awaited, gave, raised, was_cancelled}

-- What the teardown does, in the order in which it does it.
pub data Action : Type 0 where
  drops_queued_events closes_writer awaits_writer : Action
  cancels_read_task : ℕ → Action
  calls_back : ℕ → Action
  emits_error : Exception → Action

-- How `asyncio.wait_for` ends; a cancellation may have come from outside, by `cancelling()`.
pub data Shutdown : Type 0 where
  finished timed_out : Shutdown
  failed : Exception → Shutdown
  got_cancelled : (from_outside : Bool) → Shutdown

-- How the calls of others end.
pub record Calls : Type 0 where
  pub on_drop : Awaited (Unit {0})
  pub on_read_task : Shutdown
  -- `writer.close()`, which is not awaited.
  pub on_close : Option Exception
  pub on_writer : Shutdown
  pub on_callback : Awaited (Unit {0})
  pub on_error_event : Awaited (Unit {0})

-- `_tcp_connection_helpers.await_read_task_shutdown`.
unfoldable pub await_read_task_shutdown : Shutdown → Awaited (Unit {0})
await_read_task_shutdown (got_cancelled true) = was_cancelled
await_read_task_shutdown _ = gave tt

-- `_tcp_connection_helpers.await_writer_shutdown`.
unfoldable pub await_writer_shutdown : Shutdown → Awaited (Unit {0})
await_writer_shutdown (got_cancelled from_outside) = was_cancelled
await_writer_shutdown _ = gave tt

-- The actions, and how they end: what follows an await is not done where that does not return.
abbrev Trace : Type 0
Trace = List Action × Awaited (Unit {0})

infixr 5 ◌>>◌
abbrev ◌>>◌ : Trace → Trace → Trace
(actions, gave _) >> (more, end) = (actions ++ more, end)
(actions, raised e) >> rest = (actions, raised e)
(actions, was_cancelled) >> rest = (actions, was_cancelled)

abbrev nothing : Trace
nothing = ([], gave tt)

abbrev does : Action → Awaited (Unit {0}) → Trace
does action end = (action ∷ [], end)

abbrev when : Bool → Trace → Trace
when true t = t
when false t = nothing

abbrev to_awaited : Option Exception → Awaited (Unit {0})
to_awaited none = gave tt
to_awaited (some e) = raised e

abbrev with_callback : Calls → ℕ → Awaited (Unit {0}) → Trace
with_callback calls k (gave _) = does (calls_back k) (gave tt)
with_callback calls k (raised e) = (calls_back k ∷ emits_error e ∷ [], calls.on_error_event)
with_callback calls k was_cancelled = does (calls_back k) was_cancelled

unfoldable pub run_callback : Calls → Option ℕ → Trace
run_callback calls none = nothing
run_callback calls (some k) = with_callback calls k calls.on_callback

-- `read_task is not None and read_task is not current_task and read_task is not close_caller_task
-- and not preserve_active_inline_read_task`.
abbrev cancels : Option ℕ → Option ℕ → Bool → Option ℕ → Bool
cancels current caller preserve none = false
cancels current caller preserve (some t) =
    not (is_same (some t) current) && (not (is_same (some t) caller) && not preserve)

abbrev read_task_shutdown : Calls → Bool → Option ℕ → Trace
unfolding await_read_task_shutdown
read_task_shutdown calls go none = nothing
read_task_shutdown calls go (some t) =
    when go (does (cancels_read_task t) (await_read_task_shutdown calls.on_read_task))

abbrev pub is_cancelled_shutdown : Shutdown → Bool
is_cancelled_shutdown (got_cancelled from_outside) = true
is_cancelled_shutdown _ = false

module _ {F : Type 0} where
  unfoldable pub preserve_active_inline_read_task :
      TaskContext → TcpConnection F → Dispatcher F → Bool
  unfolding has_active_handler_context current_task_would_deliver_inline
  preserve_active_inline_read_task ctx c d =
      has_active_handler_context (some c.connection_id) d && current_task_would_deliver_inline ctx d

  -- `ctx` is the lifecycle's own context.
  unfoldable pub tear_down :
      Calls → TaskContext → CloseArgs → TcpConnection F → Dispatcher F → Trace
  unfolding preserve_active_inline_read_task run_callback await_writer_shutdown
      await_read_task_shutdown has_active_handler_context
  tear_down calls ctx args c d =
      let preserve = preserve_active_inline_read_task ctx c d in
      let active = has_active_handler_context (some c.connection_id) d in
      let go = cancels ctx.current_task args.close_caller_task preserve args.read_task in
      when args.needs_teardown (
        when active (does drops_queued_events calls.on_drop)
        >> read_task_shutdown calls go args.read_task
        >> does closes_writer (to_awaited calls.on_close)
        >> does awaits_writer (await_writer_shutdown calls.on_writer)
        >> run_callback calls c.on_closed_callback)

-- The places between the actions, in the order that the teardown must keep.
pub data Place : Type 0 where
  at_start drained unread shut awaited called : Place

abbrev pub next : Place → Action → Option Place
next at_start drops_queued_events = some drained
next at_start (cancels_read_task t) = some unread
next at_start closes_writer = some shut
next drained (cancels_read_task t) = some unread
next drained closes_writer = some shut
next unread closes_writer = some shut
next shut awaits_writer = some awaited
next awaited (calls_back k) = some called
next called (emits_error e) = some called
next _ _ = none

abbrev pub keeps_order_from : Option Place → List Action → Bool
keeps_order_from none actions = false
keeps_order_from (some p) [] = true
keeps_order_from (some p) (a ∷ actions) = keeps_order_from (next p a) actions

-- Events are dropped before the read task is cancelled, that before the writer is closed, that
-- before its shutdown is awaited, and only behind that comes the callback, once, and its error.
unfoldable pub keeps_order : List Action → Bool
keeps_order = keeps_order_from (some at_start)

abbrev pub spares : Option ℕ → Option ℕ → Action → Bool
spares current caller (cancels_read_task t) =
    not (is_same (some t) current) && not (is_same (some t) caller)
spares current caller _ = true

-- No task among them cancels itself or the caller of `close`.
unfoldable pub spare : Option ℕ → Option ℕ → List Action → Bool
spare current caller [] = true
spare current caller (a ∷ actions) = spares current caller a && spare current caller actions

after_return : (t rest : Trace) → t.1 ≡ gave tt → (t >> rest).0 ≡ t.0 ++ rest.0
after_return (actions, gave _) rest e = refl
after_return (actions, raised x) rest e = cc
after_return (actions, was_cancelled) rest e = cc

both_behind :
    (t u rest : Trace) → t.1 ≡ gave tt → u.1 ≡ gave tt → (t >> u >> rest).0 ≡ (t.0 ++ u.0) ++ rest.0
both_behind t u rest e f =
    after_return t (u >> rest) e
    ∙ ap (λ r. t.0 ++ r) (after_return u rest f)
    ∙ sym (append_assoc t.0 u.0 rest.0)

writer_returns :
    (s : Shutdown) → is_cancelled_shutdown s ≡ false → await_writer_shutdown s ≡ gave tt
unfolding await_writer_shutdown
writer_returns s h = ground arith

drop_returns :
    (calls : Calls) (active : Bool)
    → calls.on_drop ≡ gave tt
    → (when active (does drops_queued_events calls.on_drop)).1 ≡ gave tt
drop_returns calls active h = ground (arith, h)

read_task_returns :
    (calls : Calls) (go : Bool) (read_task : Option ℕ)
    → calls.on_read_task ≢ got_cancelled true
    → (read_task_shutdown calls go read_task).1 ≡ gave tt
unfolding await_read_task_shutdown
read_task_returns calls go read_task r = ground (arith, r)

-- The two properties of a list of actions from a place on.
abbrev Good : Place → Option ℕ → Option ℕ → List Action → Type 0
Good p current caller actions =
    (keeps_order_from (some p) actions ≡ true) × (spare current caller actions ≡ true)

callback-Good :
    (calls : Calls) (current caller callback : Option ℕ)
    → Good awaited current caller (run_callback calls callback).0
unfolding run_callback spare
callback-Good calls current caller callback = ground arith

writer-Good :
    (p : Place) (current caller : Option ℕ) (a u : Awaited (Unit {0})) (rest : Trace)
    → next p closes_writer ≡ some shut
    → Good awaited current caller rest.0
    → Good p current caller (does closes_writer a >> does awaits_writer u >> rest).0
unfolding spare
writer-Good p current caller a u rest e g = ground (arith, e, g)

read_task-Good :
    (p : Place) (calls : Calls) (current caller task : Option ℕ) (preserve : Bool) (rest : Trace)
    → ((t : ℕ) → next p (cancels_read_task t) ≡ some unread)
    → Good p current caller rest.0
    → Good unread current caller rest.0
    → Good p current caller
        (read_task_shutdown calls (cancels current caller preserve task) task >> rest).0
unfolding spare await_read_task_shutdown
read_task-Good p calls current caller none preserve rest e g h = g
read_task-Good p calls current caller (some t) preserve rest e g h = ground (arith, e t, g, h)

when-Good :
    (b : Bool) (current caller : Option ℕ) (t : Trace)
    → Good at_start current caller t.0
    → Good at_start current caller (when b t).0
unfolding spare
when-Good true current caller t g = g
when-Good false current caller t g = (refl, refl)

drop-Good :
    (active : Bool) (a : Awaited (Unit {0})) (current caller : Option ℕ) (rest : Trace)
    → Good at_start current caller rest.0
    → Good drained current caller rest.0
    → Good at_start current caller (when active (does drops_queued_events a) >> rest).0
unfolding spare
drop-Good active a current caller rest g h = ground (arith, g, h)

module _ {F : Type 0} where
  -- Whatever the calls of others do, the teardown keeps its order: it drops queued events, cancels
  -- the read task, closes the writer, awaits the writer's shutdown and calls back at most once
  -- each, none of them behind a later one, and the callback not unless the writer's shutdown was
  -- awaited; and the task that it cancels is neither its own nor the one that called `close`.
  pub tear_down-keeps_order :
      (calls : Calls) (ctx : TaskContext) (args : CloseArgs) (c : TcpConnection F)
      (d : Dispatcher F)
      → let actions = (tear_down calls ctx args c d).0 in
        (keeps_order actions ≡ true)
        × (spare ctx.current_task args.close_caller_task actions ≡ true)
  unfolding keeps_order spare tear_down run_callback await_writer_shutdown await_read_task_shutdown
  tear_down-keeps_order calls ctx args c d =
      let current = ctx.current_task in
      let caller = args.close_caller_task in
      let preserve = preserve_active_inline_read_task ctx c d in
      let a = to_awaited calls.on_close in
      let u = await_writer_shutdown calls.on_writer in
      let callback = run_callback calls c.on_closed_callback in
      let writer = does closes_writer a >> does awaits_writer u >> callback in
      let g = callback-Good calls current caller c.on_closed_callback in
      let good = λ (p : Place) (e : next p closes_writer ≡ some shut).
        writer-Good p current caller a u callback e g in
      let read =
        read_task_shutdown calls (cancels current caller preserve args.read_task) args.read_task in
      let good' =
        λ (p : Place) (e : next p closes_writer ≡ some shut)
            (f : (t : ℕ) → next p (cancels_read_task t) ≡ some unread).
          read_task-Good p calls current caller args.read_task preserve writer f (good p e)
            (good unread refl) in
      when-Good args.needs_teardown current caller _ (
        drop-Good (has_active_handler_context (some c.connection_id) d) calls.on_drop current caller
          (read >> writer) (good' at_start refl (λ t. refl)) (good' drained refl (λ t. refl)))

  -- A teardown is not given up for a read task that times out or fails, nor for a writer whose
  -- shutdown does: if the connection was not down before, dropping the events returns, the wait
  -- for the read task is not cancelled from outside, `writer.close()` does not raise, and the wait
  -- for the writer's shutdown is not cancelled at all, then the writer is closed, its shutdown is
  -- awaited, and the callback, if there is one, is called.
  pub tear_down_completes :
      (calls : Calls) (ctx : TaskContext) (args : CloseArgs) (c : TcpConnection F)
      (d : Dispatcher F)
      → args.needs_teardown ≡ true
      → calls.on_drop ≡ gave tt
      → calls.on_read_task ≢ got_cancelled true
      → calls.on_close ≡ none
      → is_cancelled_shutdown calls.on_writer ≡ false
      → (before : List Action) × ((tear_down calls ctx args c d).0
          ≡ before ++ closes_writer ∷ awaits_writer ∷ (run_callback calls c.on_closed_callback).0)
  unfolding tear_down await_writer_shutdown await_read_task_shutdown
  tear_down_completes calls ctx args c d n h r k w =
      let active = has_active_handler_context (some c.connection_id) d in
      let preserve = preserve_active_inline_read_task ctx c d in
      let go = cancels ctx.current_task args.close_caller_task preserve args.read_task in
      let drop = when active (does drops_queued_events calls.on_drop) in
      let read = read_task_shutdown calls go args.read_task in
      let rest = run_callback calls c.on_closed_callback in
      (
        drop.0 ++ read.0,
        rw (n, k, writer_returns calls.on_writer w)
            (both_behind drop read
              (does closes_writer (gave tt) >> does awaits_writer (gave tt) >> rest)
              (drop_returns calls active h) (read_task_returns calls go args.read_task r)),
      )
