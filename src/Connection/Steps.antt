-- ===== src/Connection/Steps.antt =====
-- The connection, its tasks and its callers, interleaved in any order: asyncio_tcp_connection.py
-- runs on one event loop, on which only an await gives way to other tasks.
use aionetx.Base.{ℕ, ◌≤◌, ◌≡◌, Bool, true, false, Option, none, some, ◌∷◌, Exception, if◌then◌else◌}
use aionetx.Events.{ConnectionState}
use aionetx.Dispatcher.State.{Dispatcher}
use aionetx.Dispatcher.Context.{TaskContext}
use aionetx.Connection.{
  World, CloseArgs, Caller, of_close_lifecycle, of_deferred_close, close_lifecycle, publisher,
  opened_barrier, finalizes, awaits, publishes, goes_on, update,
}
use aionetx.Connection.Open.{
  start_section, opening_section, forget_opening, opened_section, open_failed_section,
  reading_section,
}
use aionetx.Connection.Close.{
  close_section, defer_close_event, ensure_deferred_close_publication_waiter, finalize_section,
  publication_section, lifecycle_section, deferred_section, settle_deferred, publisher_failed,
  publisher_section,
}

-- The context of a task that inherits another's.
abbrev pub in_task : ℕ → TaskContext → TaskContext
in_task t ctx = record ctx { current_task = some t }

module _ {F : Type 0} where
  -- `_run_close_lifecycle` behind the teardown.
  unfoldable pub lifecycle_goes_on : ℕ → CloseArgs → World F → World F
  unfolding defer_close_event
  lifecycle_goes_on t args w =
      let (w', deferred, waiter) = defer_close_event (in_task t args.context) args w in
      goes_on t
        (some (if deferred then awaits of_close_lifecycle else finalizes of_close_lifecycle)) w'

  -- `_run_close_lifecycle` at its end.
  unfoldable pub lifecycle_ends : ℕ → World F → World F
  unfolding lifecycle_section
  lifecycle_ends t w = goes_on t none (update (lifecycle_section t) w)

  -- `_publish_deferred_close_after_handler_context_expires` at its end.
  unfoldable pub publisher_ends : ℕ → Option Exception → World F → World F
  unfolding publisher_failed publisher_section
  publisher_ends t error w =
      goes_on t none
        (update (publisher_section t) (elim error [ none ↦ w | some e ↦ publisher_failed e w ]))

  -- `_publish_deferred_close_after_opened_event` returns to its task or to the publisher.
  unfoldable pub deferred_ends : ℕ → (in_publisher : Bool) → Option Exception → World F → World F
  unfolding publisher_ends
  deferred_ends t true error w = publisher_ends t error w
  deferred_ends t false error w = goes_on t none w

  -- Its test of the flag.
  unfoldable pub deferred_goes_on : ℕ → (in_publisher : Bool) → World F → World F
  unfolding deferred_section deferred_ends
  deferred_goes_on t in_publisher w =
      let (w', r) = deferred_section w in
      elim r [
        | none ↦ deferred_ends t in_publisher none w'
        | some waiter ↦ goes_on t (some (finalizes (of_deferred_close waiter in_publisher))) w'
      ]

  -- `_finalize_close`.
  unfoldable pub finalize_goes_on : ℕ → Caller → World F → World F
  unfolding finalize_section
  finalize_goes_on t caller w = goes_on t (some (awaits caller)) (finalize_section w).0

  -- What its caller does when it returns or raises.
  unfoldable pub caller_ends : ℕ → Caller → Option Exception → World F → World F
  unfolding lifecycle_ends settle_deferred deferred_ends
  caller_ends t of_close_lifecycle error w = lifecycle_ends t w
  caller_ends t (of_deferred_close waiter in_publisher) error w =
      deferred_ends t in_publisher error (settle_deferred waiter error w)

  -- `_run_close_event_publication` behind the emission.
  unfoldable pub publication_ends : ℕ → ConnectionState → Bool → World F → World F
  unfolding publication_section
  publication_ends t previous success w = goes_on t none (record w {
    connection = publication_section t success w.connection;
    published = if success then previous ∷ w.published else w.published;
  })

  -- Other code changes the dispatcher and creates tasks and futures of its own.
  abbrev pub others_act : Dispatcher F → ℕ → ℕ → World F → World F
  others_act d next_task next_future w = record w {
    dispatcher = d;
    next_task = next_task;
    next_future = next_future;
  }

  pub data Step (w : World F) : World F → Type 0 where
    starts : Step w (start_section w).0
    opens : (ctx : TaskContext) → Step w (opening_section ctx w).0
    is_opened : (ctx : TaskContext) → Step w (opened_section ctx w)
    fails_to_open : Step w (open_failed_section w)
    forgets_opening : (ctx : TaskContext) → Step w (update (forget_opening ctx) w)
    starts_to_read : Step w (reading_section w)
    closes : (ctx : TaskContext) → Step w (close_section ctx w).0
    asks_to_defer :
        (t : ℕ) (args : CloseArgs)
        → w.tasks t ≡ some (close_lifecycle args)
        → Step w (lifecycle_goes_on t args w)
    -- The teardown raises what it does not handle.
    fails_to_tear_down :
        (t : ℕ) (args : CloseArgs)
        → w.tasks t ≡ some (close_lifecycle args)
        → Step w (lifecycle_ends t w)
    ensures_waiter : Step w (ensure_deferred_close_publication_waiter w).0
    tests_after_opened :
        (t : ℕ) → w.tasks t ≡ some opened_barrier → Step w (deferred_goes_on t false w)
    tests_after_handlers : (t : ℕ) → w.tasks t ≡ some publisher → Step w (deferred_goes_on t true w)
    -- The wait for the handlers raises.
    fails_to_wait :
        (t : ℕ) (e : Exception) → w.tasks t ≡ some publisher → Step w (publisher_ends t (some e) w)
    finalizes_close :
        (t : ℕ) (caller : Caller)
        → w.tasks t ≡ some (finalizes caller)
        → Step w (finalize_goes_on t caller w)
    returns :
        (t : ℕ) (caller : Caller) (error : Option Exception)
        → w.tasks t ≡ some (awaits caller)
        → Step w (caller_ends t caller error w)
    is_published :
        (t : ℕ) (previous : ConnectionState) (success : Bool)
        → w.tasks t ≡ some (publishes previous)
        → Step w (publication_ends t previous success w)
    -- A task is cancelled before it starts, or the read loop ends.
    is_over : (t : ℕ) → Step w (goes_on t none w)
    others :
        (d : Dispatcher F) (next_task next_future : ℕ)
        → w.next_task ≤ next_task
        → Step w (others_act d next_task next_future w)

  -- Every state that the connection comes to from a given one.
  pub data Reaches (w : World F) : World F → Type 0 where
    here : Reaches w w
    later : {v u : World F} → Reaches w v → Step v u → Reaches w u
