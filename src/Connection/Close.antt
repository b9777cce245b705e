-- ===== src/Connection/Close.antt =====
-- The sections under the close lock of asyncio_tcp_connection.py. None of them awaits, so that
-- each is one function on the world.
use aionetx.Base.{
  ℕ, Bool, true, false, ◌&&◌, ◌||◌, not, Option, none, some, if◌then◌else◌, is_none, Exception,
}
use aionetx.Events.{ConnectionState, closing, closed}
use aionetx.Dispatcher.State.{Dispatcher, finished, failed, settle_once}
use aionetx.Dispatcher.Context.{
  TaskContext, current_task_is_worker, is_in_inline_dispatch_context,
  current_task_has_handler_origin_context, current_task_inherits_handler_origin_context,
  current_task_is_dispatching_handler, has_active_handler_context,
  current_task_would_deliver_inline, inline_delivery_context,
}
use aionetx.Connection.{
  TcpConnection, CloseArgs, close_lifecycle, publisher, publishes, World, is_same, is_closed_state,
  is_down, none_or_done, no_pending_future, create_task, create_future, update,
}

abbrev pub or_state : Option ConnectionState → ConnectionState → ConnectionState
or_state (some s) t = s
or_state none t = t

-- `field = None` if the field holds the current task.
abbrev pub clear : ℕ → Option ℕ → Option ℕ
clear t held = if is_same held (some t) then none else held

module _ {F : Type 0} where
  -- `close`: whether its caller runs in or for a handler.
  unfoldable pub close_caller_uses_inline_delivery : TaskContext → Dispatcher F → Bool
  unfolding current_task_is_worker current_task_is_dispatching_handler
      current_task_has_handler_origin_context is_in_inline_dispatch_context
  close_caller_uses_inline_delivery ctx d =
      current_task_is_worker ctx d
      || (current_task_is_dispatching_handler none ctx d
          || (current_task_has_handler_origin_context none ctx d
              || is_in_inline_dispatch_context ctx d))

  unfoldable pub close_args : TaskContext → World F → CloseArgs
  unfolding close_caller_uses_inline_delivery inline_delivery_context
  close_args ctx w =
      let needs_teardown = not (is_down w.connection.state) in
      let inline = close_caller_uses_inline_delivery ctx w.dispatcher in
      record {
        needs_teardown = needs_teardown;
        read_task = if needs_teardown then w.connection.read_task else none;
        close_caller_task = ctx.current_task;
        close_caller_uses_inline_delivery = inline;
        context = if inline then inline_delivery_context ctx w.dispatcher else ctx;
      }

  abbrev pub begin_closing : TcpConnection F → TcpConnection F
  begin_closing c = record c {
    read_task = if is_down c.state then c.read_task else none;
    close_event_previous_state =
        if is_closed_state c.state
        then c.close_event_previous_state
        else some (or_state c.close_event_previous_state c.state);
    state = if is_closed_state c.state then c.state else closing;
  }

  unfoldable pub start_lifecycle : TaskContext → World F → World F
  unfolding close_args
  start_lifecycle ctx w =
      let args = close_args ctx w in
      create_task (close_lifecycle args) (record w {
        connection = record (begin_closing w.connection) { close_task = some w.next_task };
        teardowns = if args.needs_teardown then ℕ.suc w.teardowns else w.teardowns;
      })

  -- `close`, its section under the lock: the task to await, or none where it returns.
  unfoldable pub close_section : TaskContext → World F → World F × Option ℕ
  unfolding start_lifecycle
  close_section ctx w =
      let c = w.connection in
      if is_closed_state c.state
        && (c.close_event_deferred && is_same c.opening_event_task ctx.current_task)
      then (w, none)
      else (if is_closed_state c.state && c.closed_event_published
          then (w, none)
          else (if none_or_done c.close_task w
              then (start_lifecycle ctx w, some w.next_task)
              else (w, c.close_task)))

  -- The calls of `close` that follow from a handler of this connection.
  unfoldable pub handler_origin_caller : TaskContext → World F → Bool
  unfolding current_task_is_dispatching_handler current_task_inherits_handler_origin_context
  handler_origin_caller ctx w =
      current_task_is_dispatching_handler (some w.connection.connection_id) ctx w.dispatcher
      || current_task_inherits_handler_origin_context (some w.connection.connection_id) ctx
          w.dispatcher

  -- `close` behind the section: whether it awaits the close task.
  unfoldable pub awaits_close_task : TaskContext → ℕ → World F → Bool
  unfolding handler_origin_caller
  awaits_close_task ctx close_task w =
      not (is_same (some close_task) ctx.current_task)
      && (not (is_same w.connection.close_event_task ctx.current_task)
          && not (w.connection.close_event_deferred && handler_origin_caller ctx w))

  -- `_pending_deferred_close_waiter`.
  unfoldable pub pending_deferred_close_waiter : World F → Option ℕ
  pending_deferred_close_waiter w =
      if no_pending_future w.connection.deferred_close_event_waiter w
      then none
      else w.connection.deferred_close_event_waiter

  -- The waiter that `close` awaits behind the close task, if it was not cancelled.
  unfoldable pub awaited_deferred_close_waiter : (handler_origin : Bool) → World F → Option ℕ
  unfolding pending_deferred_close_waiter has_active_handler_context
  awaited_deferred_close_waiter handler_origin w =
      if not handler_origin
        && has_active_handler_context (some w.connection.connection_id) w.dispatcher
      then pending_deferred_close_waiter w
      else none

  -- A pending waiter is there afterwards.
  abbrev pub ensure_waiter : World F → World F
  ensure_waiter w =
      if no_pending_future w.connection.deferred_close_event_waiter w
      then update (λ c. record c { deferred_close_event_waiter = some w.next_future })
          (create_future w)
      else w

  abbrev pub ensure_publisher : World F → World F
  ensure_publisher w =
      if none_or_done w.connection.deferred_close_publish_task w
      then create_task publisher
          (update (λ c. record c { deferred_close_publish_task = some w.next_task }) w)
      else w

  -- The four questions of `_defer_close_event_until_opened_event_completes`.
  unfoldable pub handler_origin_in_flight : TaskContext → CloseArgs → World F → Bool
  unfolding current_task_is_dispatching_handler current_task_has_handler_origin_context
  handler_origin_in_flight ctx args w =
      is_same args.close_caller_task w.connection.opening_event_task
      || (current_task_is_dispatching_handler (some w.connection.connection_id) ctx w.dispatcher
          || current_task_has_handler_origin_context (some w.connection.connection_id) ctx
              w.dispatcher)

  unfoldable pub inherited_handler_origin : TaskContext → World F → Bool
  unfolding current_task_inherits_handler_origin_context
  inherited_handler_origin ctx w =
      current_task_inherits_handler_origin_context (some w.connection.connection_id) ctx
        w.dispatcher

  unfoldable pub active_inline_handler_in_flight : TaskContext → World F → Bool
  unfolding has_active_handler_context current_task_would_deliver_inline
  active_inline_handler_in_flight ctx w =
      has_active_handler_context (some w.connection.connection_id) w.dispatcher
      && current_task_would_deliver_inline ctx w.dispatcher

  unfoldable pub handler_in_flight : TaskContext → CloseArgs → World F → Bool
  unfolding handler_origin_in_flight inherited_handler_origin active_inline_handler_in_flight
  handler_in_flight ctx args w =
      handler_origin_in_flight ctx args w
      || (args.close_caller_uses_inline_delivery
          || (inherited_handler_origin ctx w || active_inline_handler_in_flight ctx w))

  -- Where the waiter is not handed out, as its future depends on the caller.
  unfoldable pub must_not_wait : TaskContext → CloseArgs → World F → Bool
  unfolding handler_origin_in_flight inherited_handler_origin
      current_task_has_handler_origin_context
  must_not_wait ctx args w =
      handler_origin_in_flight ctx args w
      || (args.close_caller_uses_inline_delivery
          || (inherited_handler_origin ctx w
              || current_task_has_handler_origin_context (some w.connection.connection_id) ctx
                  w.dispatcher))

  unfoldable pub defers : TaskContext → CloseArgs → World F → Bool
  unfolding handler_in_flight
  defers ctx args w =
      not (is_none w.connection.opening_event_task)
      || (handler_in_flight ctx args w || w.connection.close_event_deferred)

  abbrev pub mark_deferred : TcpConnection F → TcpConnection F
  mark_deferred c = record c { state = closed; close_event_deferred = true }

  abbrev pub publisher_if : Bool → World F → World F
  publisher_if true w = ensure_publisher w
  publisher_if false w = w

  abbrev pub deferral : Bool → World F → World F → Option ℕ → World F × Bool × Option ℕ
  deferral true w deferred waiter = (deferred, true, waiter)
  deferral false w deferred waiter = (w, false, none)

  -- `_defer_close_event_until_opened_event_completes`, in the task of the close lifecycle.
  unfoldable pub defer_close_event : TaskContext → CloseArgs → World F → World F × Bool × Option ℕ
  unfolding handler_in_flight must_not_wait defers
  defer_close_event ctx args w =
      let w' =
        publisher_if (is_none w.connection.opening_event_task && handler_in_flight ctx args w)
          (ensure_waiter (update mark_deferred w)) in
      deferral (defers ctx args w) w w'
        (if must_not_wait ctx args w then none else w'.connection.deferred_close_event_waiter)

  -- `_ensure_deferred_close_publication_waiter`, which the server and the client call.
  unfoldable pub ensure_deferred_close_publication_waiter : World F → World F × Option ℕ
  ensure_deferred_close_publication_waiter w =
      let w' =
        ensure_publisher
          (ensure_waiter (update (λ c. record c { close_event_deferred = true }) w)) in
      if w.connection.closed_event_published
      then (w, none)
      else (w', w'.connection.deferred_close_event_waiter)

  abbrev pub begin_publication : World F → World F
  begin_publication w =
      let previous = or_state w.connection.close_event_previous_state closing in
      create_task (publishes previous)
        (update (λ c. record c { state = closed; close_event_task = some w.next_task }) w)

  -- `_finalize_close`, its section under the lock: the publication to await, or none where it returns.
  unfoldable pub finalize_section : World F → World F × Option ℕ
  finalize_section w =
      if w.connection.closed_event_published
      then (w, none)
      else (if none_or_done w.connection.close_event_task w
          then (begin_publication w, some w.next_task)
          else (w, w.connection.close_event_task))

  -- `_run_close_event_publication` in task `t`, behind the emission: its section under the lock.
  unfoldable pub publication_section :
      ℕ → (published_successfully : Bool) → TcpConnection F → TcpConnection F
  publication_section t true c = record c {
    closed_event_published = true;
    close_event_previous_state = none;
    close_event_task = clear t c.close_event_task;
  }
  publication_section t false c = record c { close_event_task = clear t c.close_event_task }

  -- `_run_close_lifecycle`, its `finally` section.
  unfoldable pub lifecycle_section : ℕ → TcpConnection F → TcpConnection F
  lifecycle_section t c = record c { close_task = clear t c.close_task }

  -- `_publish_deferred_close_after_opened_event`, its first section: the waiter, or none where it
  -- returns False.
  unfoldable pub deferred_section : World F → World F × Option (Option ℕ)
  deferred_section w =
      if w.connection.close_event_deferred
      then (
        update (λ c. record c { close_event_deferred = false }) w,
        some w.connection.deferred_close_event_waiter,
      )
      else (w, none)

  -- The same, behind `_finalize_close`: the waiter is settled by what became of it.
  unfoldable pub settle_deferred : Option ℕ → Option Exception → World F → World F
  settle_deferred waiter error w = record w {
    connection = record (w.connection) {
      deferred_close_event_waiter =
          if is_same w.connection.deferred_close_event_waiter waiter
          then none
          else w.connection.deferred_close_event_waiter;
    };
    dispatcher = record (w.dispatcher) {
      futures =
          settle_once waiter (elim error [ none ↦ finished | some e ↦ failed e ])
            w.dispatcher.futures;
    };
  }

  -- `_publish_deferred_close_after_handler_context_expires`: its handler for errors, which settles
  -- the waiter that the connection has by then, and its last section.
  unfoldable pub publisher_failed : Exception → World F → World F
  publisher_failed e w = record w {
    dispatcher = record (w.dispatcher) {
      futures =
          settle_once w.connection.deferred_close_event_waiter (failed e) w.dispatcher.futures;
    };
  }

  unfoldable pub publisher_section : ℕ → TcpConnection F → TcpConnection F
  publisher_section t c = record c {
    deferred_close_publish_task = clear t c.deferred_close_publish_task;
  }
