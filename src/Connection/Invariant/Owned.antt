-- ===== src/Connection/Invariant/Owned.antt =====
-- The references of `AsyncioTcpConnection` to its tasks, through the sections of
-- asyncio_tcp_connection.py.
pub mod Steps
use aionetx.Base.{
  ℕ, suc, ◌≤◌, ◌≡◌, ◌≢◌, inl, inr, refl, Bool, true, false, Option, none, some, arith, ◌==◌,
  Bool-cases, if-cases, Option-cases, ◌⊎◌, if◌then◌else◌, Exception, is_none, ◌∙◌, sym, ◌&&◌,
}
use aionetx.Events.{ConnectionState, closed, closing}
use aionetx.Dispatcher.Context.{TaskContext}
use aionetx.Connection.{
  World, TcpConnection, CloseArgs, Caller, of_close_lifecycle, of_deferred_close, Coroutine,
  close_lifecycle, publisher, opened_barrier, finalizes, awaits, publishes, reads, none_or_done,
  is_same, set_task, update,
}
use aionetx.Connection.Open.{
  start_section, opening_section, forget_opening, opened_section, open_failed_section,
  reading_section,
}
use aionetx.Connection.Close.{
  close_section, defer_close_event, ensure_deferred_close_publication_waiter, finalize_section,
  publication_section, lifecycle_section, deferred_section, settle_deferred, publisher_failed,
  publisher_section, clear, ensure_waiter, ensure_publisher, publisher_if, deferral, defers,
  handler_in_flight, begin_closing, close_args, mark_deferred, begin_publication, or_state,
}
use aionetx.Connection.Steps.{
  Step, starts, opens, is_opened, fails_to_open, forgets_opening, starts_to_read, closes,
  asks_to_defer, fails_to_tear_down, ensures_waiter, tests_after_opened, tests_after_handlers,
  fails_to_wait, finalizes_close, returns, is_published, is_over, others, in_task,
  lifecycle_goes_on, lifecycle_ends, publisher_ends, deferred_ends, deferred_goes_on,
  finalize_goes_on, caller_ends, publication_ends,
}
use aionetx.Connection.Invariant.{
  Holds-Keeps, Duty, to_close, to_publish, to_defer, no_duty, duty, Tasks, Holds, IsOwned, Keeps,
  IsOwned-Keeps, IsOwned-goes_on, IsOwned-create, IsOwned-ends,
}

pub clear_other : (t j : ℕ) (held : Option ℕ) → j ≢ t → held ≡ some j → clear t held ≡ some j
clear_other t j held ne h = ground arith

pub duty_to_deferred :
    (waiter : Option ℕ) (in_publisher : Bool)
    → duty (finalizes (of_deferred_close waiter in_publisher))
      ≡ (if in_publisher then to_defer else no_duty)
duty_to_deferred waiter true = refl
duty_to_deferred waiter false = refl

pub duty_to_close :
    (deferred : Bool)
    → duty (if deferred then awaits of_close_lifecycle else finalizes of_close_lifecycle) ≡ to_close
duty_to_close true = refl
duty_to_close false = refl

module _ {F : Type 0} where
  abbrev pub Owned : World F → Type 0
  Owned w = IsOwned w.connection w.tasks w.next_task

  not_free :
      (w : World F) (held : Option ℕ) (t : ℕ) (co : Coroutine)
      → none_or_done held w ≡ true
      → w.tasks t ≡ some co
      → held ≡ some t
      → ⊥
  not_free w held t co h k e = ground arith

  -- The world of a result.
  abbrev Leaves : {A : Type 0} → World F × A → Type 0
  Leaves r = Owned r.0

  pub starts-Owned : (w : World F) → Owned w → Owned (start_section w).0
  unfolding start_section
  starts-Owned w o = ground (arith, o)

  pub opens-Owned : (ctx : TaskContext) (w : World F) → Owned w → Owned (opening_section ctx w).0
  unfolding opening_section
  opens-Owned ctx w o = ground (arith, o)

  pub forgets-Owned :
      (ctx : TaskContext) (w : World F)
      → Owned w
      → IsOwned (forget_opening ctx w.connection) w.tasks w.next_task
  unfolding forget_opening
  forgets-Owned ctx w o = IsOwned-Keeps _ _ _ _ (refl, refl, refl) o

  -- A new task without a duty, behind a change that keeps the references.
  pub creates-Owned :
      (w : World F) (c : TcpConnection F) (co : Coroutine)
      → Keeps w.connection c
      → duty co ≡ no_duty
      → Owned w
      → IsOwned c (set_task w.next_task (some co) w.tasks) (suc w.next_task)
  creates-Owned w c co k e o =
      IsOwned-create w.connection c w.tasks w.next_task co (rw e tt)
        (λ t old h. Holds-Keeps w.connection c t (duty old) k) o

  pub reads-Owned : (w : World F) → Owned w → Owned (reading_section w)
  unfolding reading_section
  reads-Owned w o = ground (
    arith,
    o,
    creates-Owned w (record (w.connection) { read_task = some w.next_task }) reads
        (refl, refl, refl) refl o,
  )

  free_close_task :
      (w : World F) (c : TcpConnection F)
      → none_or_done w.connection.close_task w ≡ true
      → (c.close_event_task ≡ w.connection.close_event_task)
      → (c.deferred_close_publish_task ≡ w.connection.deferred_close_publish_task)
      → (t : ℕ) (old : Coroutine) → w.tasks t ≡ some old
      → (d : Duty) → Holds w.connection t d
      → Holds c t d
  free_close_task w c f e e' t old h to_close k = absurd (not_free w _ t old f h k)
  free_close_task w c f e e' t old h to_publish k = e ∙ k
  free_close_task w c f e e' t old h to_defer k = e' ∙ k
  free_close_task w c f e e' t old h no_duty k = tt

  free_close_event_task :
      (w : World F) (c : TcpConnection F)
      → none_or_done w.connection.close_event_task w ≡ true
      → (c.close_task ≡ w.connection.close_task)
      → (c.deferred_close_publish_task ≡ w.connection.deferred_close_publish_task)
      → (t : ℕ) (old : Coroutine) → w.tasks t ≡ some old
      → (d : Duty) → Holds w.connection t d
      → Holds c t d
  free_close_event_task w c f e e' t old h to_close k = e ∙ k
  free_close_event_task w c f e e' t old h to_publish k = absurd (not_free w _ t old f h k)
  free_close_event_task w c f e e' t old h to_defer k = e' ∙ k
  free_close_event_task w c f e e' t old h no_duty k = tt

  free_publish_task :
      (w : World F) (c : TcpConnection F)
      → none_or_done w.connection.deferred_close_publish_task w ≡ true
      → (c.close_task ≡ w.connection.close_task)
      → (c.close_event_task ≡ w.connection.close_event_task)
      → (t : ℕ) (old : Coroutine) → w.tasks t ≡ some old
      → (d : Duty) → Holds w.connection t d
      → Holds c t d
  free_publish_task w c f e e' t old h to_close k = e ∙ k
  free_publish_task w c f e e' t old h to_publish k = e' ∙ k
  free_publish_task w c f e e' t old h to_defer k = absurd (not_free w _ t old f h k)
  free_publish_task w c f e e' t old h no_duty k = tt

  pub closes-Owned : (ctx : TaskContext) (w : World F) → Owned w → Owned (close_section ctx w).0
  unfolding close_section
  closes-Owned ctx w o = elim (Bool-cases (none_or_done w.connection.close_task w)) [
    | inl e ↦
        let c = record (begin_closing w.connection) { close_task = some w.next_task } in
        ground (
          arith,
          e,
          o,
          IsOwned-create w.connection c w.tasks w.next_task (close_lifecycle (close_args ctx w))
              refl (λ t old h. free_close_task w c e refl refl t old h (duty old)) o,
        )
    | inr e ↦ ground (arith, e, o)
  ]

  pub waiter-Owned : (w : World F) → Owned w → Owned (ensure_waiter w)
  waiter-Owned w o = ground (arith, o)

  publisher-Owned : (w : World F) → Owned w → Owned (ensure_publisher w)
  publisher-Owned w o =
      elim (Bool-cases (none_or_done w.connection.deferred_close_publish_task w)) [
        | inl e ↦
            let c = record (w.connection) { deferred_close_publish_task = some w.next_task } in
            ground (
              arith,
              e,
              o,
              IsOwned-create w.connection c w.tasks w.next_task publisher refl
                  (λ t old h. free_publish_task w c e refl refl t old h (duty old)) o,
            )
        | inr e ↦ ground (arith, e, o)
      ]

  publisher_if-Owned : (b : Bool) (w : World F) → Owned w → Owned (publisher_if b w)
  publisher_if-Owned true w o = publisher-Owned w o
  publisher_if-Owned false w o = o

  deferral-Owned :
      (b : Bool) (w w' : World F) (waiter : Option ℕ)
      → Owned w
      → Owned w'
      → Owned (deferral b w w' waiter).0
  deferral-Owned true w w' waiter o o' = o'
  deferral-Owned false w w' waiter o o' = o

  pub defers-Owned :
      (ctx : TaskContext) (args : CloseArgs) (w : World F)
      → Owned w
      → Owned (defer_close_event ctx args w).0
  unfolding defer_close_event
  defers-Owned ctx args w o =
      let w' = update mark_deferred w in
      let o' =
        waiter-Owned w'
          (IsOwned-Keeps w.connection w'.connection w.tasks w.next_task (refl, refl, refl) o) in
      let publishes_now = is_none w.connection.opening_event_task && handler_in_flight ctx args w in
      deferral-Owned (defers ctx args w) w (publisher_if publishes_now (ensure_waiter w')) _ o
        (publisher_if-Owned publishes_now (ensure_waiter w') o')

  pub ensures-Owned : (w : World F) → Owned w → Owned (ensure_deferred_close_publication_waiter w).0
  unfolding ensure_deferred_close_publication_waiter
  ensures-Owned w o =
      let w' = update (λ c. record c { close_event_deferred = true }) w in
      let o' =
        waiter-Owned w'
          (IsOwned-Keeps w.connection w'.connection w.tasks w.next_task (refl, refl, refl) o) in
      ground (arith, o, publisher-Owned (ensure_waiter w') o')

  pub finalizes-Owned : (w : World F) → Owned w → Owned (finalize_section w).0
  unfolding finalize_section
  finalizes-Owned w o = elim (Bool-cases (none_or_done w.connection.close_event_task w)) [
    | inl e ↦
        let c = record (w.connection) { state = closed; close_event_task = some w.next_task } in
        ground (
          arith,
          e,
          o,
          IsOwned-create w.connection c w.tasks w.next_task
              (publishes (or_state w.connection.close_event_previous_state closing)) refl
              (λ t old h. free_close_event_task w c e refl refl t old h (duty old)) o,
        )
    | inr e ↦ ground (arith, e, o)
  ]
