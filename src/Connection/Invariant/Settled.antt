-- ===== src/Connection/Invariant/Settled.antt =====
-- The flags of `AsyncioTcpConnection` and the close events that were published, through the
-- sections of asyncio_tcp_connection.py.
pub mod Steps
use aionetx.Base.{
  ℕ, suc, ◌≤◌, ◌≡◌, ◌≢◌, inl, inr, refl, Bool, true, false, Option, none, some, List, [], ◌∷◌,
  arith, ◌==◌, Bool-cases, Exception, is_none, ◌∙◌, sym, ◌&&◌, if◌then◌else◌, length, All, elem,
}
use aionetx.Events.{ConnectionState, created, connecting, connected, closing, closed}
use aionetx.Dispatcher.Context.{TaskContext}
use aionetx.Connection.{
  World, TcpConnection, CloseArgs, Caller, of_close_lifecycle, of_deferred_close, Coroutine,
  close_lifecycle, publisher, opened_barrier, finalizes, awaits, publishes, reads, none_or_done,
  is_same, set_task, update, is_closed_state, is_down, is_connected_state,
}
use aionetx.Connection.Open.{
  start_section, opening_section, forget_opening, opened_section, open_failed_section,
  reading_section, is_startable,
}
use aionetx.Connection.Close.{
  close_section, defer_close_event, ensure_deferred_close_publication_waiter, finalize_section,
  publication_section, lifecycle_section, deferred_section, settle_deferred, publisher_failed,
  publisher_section, clear, ensure_waiter, ensure_publisher, publisher_if, defers, deferral,
  handler_in_flight, mark_deferred, or_state, begin_publication, begin_closing, start_lifecycle,
  close_args,
}
use aionetx.Connection.Steps.{
  Step, starts, opens, is_opened, fails_to_open, forgets_opening, starts_to_read, closes,
  asks_to_defer, fails_to_tear_down, ensures_waiter, tests_after_opened, tests_after_handlers,
  fails_to_wait, finalizes_close, returns, is_published, is_over, others, lifecycle_goes_on,
  lifecycle_ends, publisher_ends, deferred_ends, deferred_goes_on, finalize_goes_on, caller_ends,
  publication_ends, in_task,
}
use aionetx.Connection.Invariant.{Tasks, IsOwned, set_task-Updated}
use aionetx.Connection.Invariant.Owned.{Owned}

abbrev pub count_if : Bool → ℕ
count_if true = 1
count_if false = 0

abbrev is_closed_before : Option ConnectionState → Bool
is_closed_before none = false
is_closed_before (some s) = is_closed_state s

abbrev pub is_publication : Coroutine → Bool
is_publication (publishes previous) = true
is_publication _ = false

torn_still :
    (n : ℕ) (before after : Bool)
    → (before ≡ true → after ≡ true)
    → n ≤ count_if before
    → n ≤ count_if after
torn_still n before after k h = ground arith

pub not_published :
    (deferred : Bool)
    → is_publication (if deferred then awaits of_close_lifecycle else finalizes of_close_lifecycle)
      ≡ false
not_published true = refl
not_published false = refl

module _ {F : Type 0} where
  -- What holds while an event with this previous state is being published.
  abbrev Ready : TcpConnection F → ConnectionState → Type 0
  Ready c previous =
      (c.closed_event_published ≡ false) × (c.state ≡ closed) × (is_closed_state previous ≡ false)

  abbrev AreReady : TcpConnection F → Tasks → Type 0
  AreReady c tasks =
      (t : ℕ) (previous : ConnectionState) → tasks t ≡ some (publishes previous) → Ready c previous

  pub record IsSettled (w : World F) : Type 0 where
    pub ready : AreReady w.connection w.tasks
    pub final : w.connection.closed_event_published ≡ true → w.connection.state ≡ closed
    pub counted : length w.published ≡ count_if w.connection.closed_event_published
    pub torn : w.teardowns ≤ count_if (is_down w.connection.state)
    pub open_before : is_closed_before w.connection.close_event_previous_state ≡ false
    pub were_open : All (λ previous. is_closed_state previous ≡ false) w.published

  -- A task takes another place, behind a change that keeps the running publications ready.
  pub AreReady-set :
      (c c' : TcpConnection F) (tasks : Tasks) (t : ℕ) (new : Option Coroutine)
      → ((previous : ConnectionState) → new ≡ some (publishes previous) → Ready c' previous)
      → ((j : ℕ)
          → j ≢ t
          → (previous : ConnectionState) → tasks j ≡ some (publishes previous)
          → Ready c previous
          → Ready c' previous)
      → AreReady c tasks
      → AreReady c' (set_task t new tasks)
  AreReady-set c c' tasks t new h k r j previous e =
      elim (set_task-Updated t new tasks j (publishes previous) e) [
        | inl (q, e') ↦ h previous e'
        | inr (q, e') ↦ k j q previous e' (r j previous e')
      ]

  -- The same, where nothing changes that a publication relies on, and the task does not publish.
  AreReady-kept :
      (c c' : TcpConnection F) (tasks : Tasks) (t : ℕ) (co : Coroutine)
      → is_publication co ≡ false
      → (c'.closed_event_published ≡ c.closed_event_published)
      → (c.state ≡ closed → c'.state ≡ closed)
      → AreReady c tasks
      → AreReady c' (set_task t (some co) tasks)
  AreReady-kept c c' tasks t co e f s =
      AreReady-set c c' tasks t (some co) (λ previous q. cc)
        (λ j ne previous q r. (f ∙ r.0, s r.1, r.2))

  AreReady-ends :
      (c c' : TcpConnection F) (tasks : Tasks) (t : ℕ)
      → (c'.closed_event_published ≡ c.closed_event_published)
      → (c.state ≡ closed → c'.state ≡ closed)
      → AreReady c tasks
      → AreReady c' (set_task t none tasks)
  AreReady-ends c c' tasks t f s =
      AreReady-set c c' tasks t none (λ previous q. cc) (λ j ne previous q r. (f ∙ r.0, s r.1, r.2))

  publication-Settled :
      (w : World F)
      → w.connection.closed_event_published ≡ false
      → IsSettled w
      → IsSettled (begin_publication w)
  publication-Settled w e i =
      let previous = or_state w.connection.close_event_previous_state closing in
      record {
        ready =
            AreReady-set w.connection (begin_publication w).connection w.tasks w.next_task
              (some (publishes previous)) (λ p q. (e, refl, ground (arith, i.open_before, q)))
              (λ j ne p q r. (r.0, refl, r.2)) i.ready;
        final = λ h. refl;
        counted = i.counted;
        torn = ground (arith, i.torn);
        open_before = i.open_before;
        were_open = i.were_open;
      }

  pub starts-Settled : (w : World F) → IsSettled w → IsSettled (start_section w).0
  unfolding start_section
  starts-Settled w i = ground (arith, i)

  pub opens-Settled :
      (ctx : TaskContext) (w : World F) → IsSettled w → IsSettled (opening_section ctx w).0
  unfolding opening_section
  opens-Settled ctx w i = ground (arith, i)

  -- A change of the connection alone.
  pub updates-Settled :
      (w : World F) (c : TcpConnection F)
      → (c.closed_event_published ≡ w.connection.closed_event_published)
      → (w.connection.state ≡ closed → c.state ≡ closed)
      → (is_down w.connection.state ≡ true → is_down c.state ≡ true)
      → (c.close_event_previous_state ≡ w.connection.close_event_previous_state)
      → IsSettled w
      → IsSettled (record w { connection = c })
  updates-Settled w c f s d p i = record {
    ready = λ t previous h. let r = i.ready t previous h in (f ∙ r.0, s r.1, r.2);
    final = λ h. s (i.final (sym f ∙ h));
    counted = rw f i.counted;
    torn = torn_still w.teardowns (is_down w.connection.state) (is_down c.state) d i.torn;
    open_before = rw p i.open_before;
    were_open = i.were_open;
  }

  -- A task that publishes nothing takes a place, or a task ends.
  pub places-Settled :
      (w : World F) (t : ℕ) (co : Coroutine) (n : ℕ)
      → is_publication co ≡ false
      → IsSettled w
      → IsSettled (record w { tasks = set_task t (some co) w.tasks; next_task = n })
  places-Settled w t co n e i = record {
    ready = AreReady-kept w.connection w.connection w.tasks t co e refl (λ h. h) i.ready;
    final = i.final;
    counted = i.counted;
    torn = i.torn;
    open_before = i.open_before;
    were_open = i.were_open;
  }

  pub ends-Settled :
      (w : World F) (t : ℕ) → IsSettled w → IsSettled (record w { tasks = set_task t none w.tasks })
  ends-Settled w t i = record {
    ready = AreReady-ends w.connection w.connection w.tasks t refl (λ h. h) i.ready;
    final = i.final;
    counted = i.counted;
    torn = i.torn;
    open_before = i.open_before;
    were_open = i.were_open;
  }

  lifecycle-Settled :
      (ctx : TaskContext) (w : World F) → IsSettled w → IsSettled (start_lifecycle ctx w)
  unfolding start_lifecycle
  lifecycle-Settled ctx w i = record {
    ready =
        AreReady-kept w.connection (begin_closing w.connection) w.tasks w.next_task
          (close_lifecycle (close_args ctx w)) refl refl (λ h. ground (arith, h)) i.ready;
    final = λ h. ground (arith, h, i.final);
    counted = i.counted;
    torn = ground (arith, i.torn);
    open_before = ground (arith, i.open_before);
    were_open = i.were_open;
  }

  pub closes-Settled :
      (ctx : TaskContext) (w : World F) → IsSettled w → IsSettled (close_section ctx w).0
  unfolding close_section
  closes-Settled ctx w i = ground (arith, i, lifecycle-Settled ctx w i)

  -- Where the publisher is created, and where it is there.
  publisher_if-Settled : (b : Bool) (w : World F) → IsSettled w → IsSettled (publisher_if b w)
  publisher_if-Settled false w i = i
  publisher_if-Settled true w i =
      let c = record (w.connection) { deferred_close_publish_task = some w.next_task } in
      ground (
        arith,
        i,
        places-Settled (record w { connection = c }) w.next_task publisher (suc w.next_task) refl
            (updates-Settled w c refl (λ h. h) (λ h. h) refl i),
      )

  waiter-Settled : (w : World F) → IsSettled w → IsSettled (ensure_waiter w)
  waiter-Settled w i = ground (arith, i)

  deferral-Settled :
      (b : Bool) (w w' : World F) (waiter : Option ℕ)
      → IsSettled w
      → IsSettled w'
      → IsSettled (deferral b w w' waiter).0
  deferral-Settled true w w' waiter i i' = i'
  deferral-Settled false w w' waiter i i' = i

  pub defers-Settled :
      (ctx : TaskContext) (args : CloseArgs) (w : World F)
      → IsSettled w
      → IsSettled (defer_close_event ctx args w).0
  unfolding defer_close_event
  defers-Settled ctx args w i =
      let b = is_none w.connection.opening_event_task && handler_in_flight ctx args w in
      deferral-Settled (defers ctx args w) w _ _ i (
        publisher_if-Settled b _ (
          waiter-Settled (update mark_deferred w)
            (updates-Settled w (mark_deferred w.connection) refl (λ h. refl) (λ h. refl) refl i)))

  pub ensures-Settled :
      (w : World F) → IsSettled w → IsSettled (ensure_deferred_close_publication_waiter w).0
  unfolding ensure_deferred_close_publication_waiter
  ensures-Settled w i =
      let c = record (w.connection) { close_event_deferred = true } in
      let w' = record w { connection = c } in
      ground (
        arith,
        i,
        publisher_if-Settled true (ensure_waiter w')
            (waiter-Settled w' (updates-Settled w c refl (λ h. h) (λ h. h) refl i)),
      )

  pub finalizes-Settled : (w : World F) → IsSettled w → IsSettled (finalize_section w).0
  unfolding finalize_section
  finalizes-Settled w i = elim (Bool-cases w.connection.closed_event_published) [
    | inl e ↦ ground (arith, i, e)
    | inr e ↦ ground (arith, i, e, publication-Settled w e i)
  ]
