-- ===== src/Connection/Open.antt =====
-- `start` of asyncio_tcp_connection.py, cut at its awaits.
use aionetx.Base.{Bool, true, false, none, some, Result, ok, err, runtime_error, if◌then◌else◌}
use aionetx.Events.{ConnectionState, created, connecting, connected}
use aionetx.Dispatcher.Context.{TaskContext}
use aionetx.Connection.{
  World, TcpConnection, opened_barrier, reads, is_same, is_connected, create_task, update,
}

-- `state in (ConnectionState.CREATED, ConnectionState.CONNECTING)`.
abbrev pub is_startable : ConnectionState → Bool
is_startable created = true
is_startable connecting = true
is_startable _ = false

module _ {F : Type 0} where
  -- Up to the call of the ready callback: whether `start` goes on.
  unfoldable pub start_section : World F → World F × Result Bool
  start_section w =
      if is_connected w.connection
      then (w, ok false)
      else (if is_startable w.connection.state
          then (update (λ c. record c { state = connected }) w, ok true)
          else (w, err runtime_error))

  -- Up to the publication of the opened event, behind the ready callback.
  unfoldable pub opening_section : TaskContext → World F → World F × Bool
  opening_section ctx w =
      if is_connected w.connection
      then (update (λ c. record c { opening_event_task = ctx.current_task }) w, true)
      else (w, false)

  unfoldable pub forget_opening : TaskContext → TcpConnection F → TcpConnection F
  forget_opening ctx c = record c {
    opening_event_task =
        if is_same c.opening_event_task ctx.current_task then none else c.opening_event_task;
  }

  -- Behind the opened event: `_publish_deferred_close_after_opened_event_preserving_cancellation`
  -- starts its task.
  unfoldable pub opened_section : TaskContext → World F → World F
  unfolding forget_opening
  opened_section ctx w = create_task opened_barrier (update (forget_opening ctx) w)

  -- The same where the event could not be published: the task is forgotten later.
  unfoldable pub open_failed_section : World F → World F
  open_failed_section w = create_task opened_barrier w

  unfoldable pub reading_section : World F → World F
  reading_section w =
      if is_connected w.connection
      then create_task reads (update (λ c. record c { read_task = some w.next_task }) w)
      else w
