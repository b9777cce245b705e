-- ===== src/Connection/Invariant/Owned/Steps.antt =====
-- The references of `AsyncioTcpConnection` to its tasks, through the steps of
-- asyncio_tcp_connection.py.
use aionetx.Base.{
  ℕ, ◌≡◌, ◌≢◌, inl, inr, refl, Bool, true, false, Option, none, some, arith, ◌==◌, Bool-cases, ◌⊎◌,
  if◌then◌else◌, Exception, is_none, ◌∙◌, sym, ◌&&◌,
}
use aionetx.Events.{ConnectionState, closing}
use aionetx.Connection.{
  World, TcpConnection, CloseArgs, Caller, of_close_lifecycle, of_deferred_close, Coroutine,
  close_lifecycle, publisher, opened_barrier, finalizes, awaits, publishes, set_task, update,
}
use aionetx.Connection.Open.{forget_opening, opened_section, open_failed_section}
use aionetx.Connection.Close.{
  defer_close_event, finalize_section, publication_section, lifecycle_section, deferred_section,
  settle_deferred, publisher_failed, publisher_section, clear, ensure_waiter, publisher_if,
  deferral, defers, handler_in_flight, mark_deferred, or_state,
}
use aionetx.Connection.Steps.{
  Step, starts, opens, is_opened, fails_to_open, forgets_opening, starts_to_read, closes,
  asks_to_defer, fails_to_tear_down, ensures_waiter, tests_after_opened, tests_after_handlers,
  fails_to_wait, finalizes_close, returns, is_published, is_over, others, in_task,
  lifecycle_goes_on, lifecycle_ends, publisher_ends, deferred_ends, deferred_goes_on,
  finalize_goes_on, caller_ends, publication_ends,
}
use aionetx.Connection.Invariant.{
  Duty, to_close, to_publish, to_defer, no_duty, duty, Holds, IsOwned, IsOwned-Keeps,
  IsOwned-goes_on, IsOwned-ends,
}
use aionetx.Connection.Invariant.Owned.{
  clear_other, duty_to_deferred, duty_to_close, Owned, starts-Owned, opens-Owned, forgets-Owned,
  creates-Owned, reads-Owned, closes-Owned, waiter-Owned, defers-Owned, ensures-Owned,
  finalizes-Owned,
}

module _ {F : Type 0} where
  -- A task ends, and the reference to it is taken back.
  ends-Owned :
      (w : World F) (t : ℕ) (c : TcpConnection F)
      → ((c.close_task ≡ w.connection.close_task)
          ⊎ (c.close_task ≡ clear t w.connection.close_task))
      → ((c.close_event_task ≡ w.connection.close_event_task)
          ⊎ (c.close_event_task ≡ clear t w.connection.close_event_task))
      → ((c.deferred_close_publish_task ≡ w.connection.deferred_close_publish_task)
          ⊎ (c.deferred_close_publish_task ≡ clear t w.connection.deferred_close_publish_task))
      → Owned w
      → IsOwned c (set_task t none w.tasks) w.next_task
  ends-Owned w t c h k l o = IsOwned-ends w.connection c w.tasks w.next_task t keeps o
    where
      kept : (j : ℕ) (x y : Option ℕ) → j ≢ t → (y ≡ x) ⊎ (y ≡ clear t x) → x ≡ some j → y ≡ some j
      kept j x y ne (inl e) q = e ∙ q
      kept j x y ne (inr e) q = e ∙ clear_other t j x ne q

      keeps : (j : ℕ) (d : Duty) → j ≢ t → Holds w.connection j d → Holds c j d
      keeps j to_close ne = kept j _ _ ne h
      keeps j to_publish ne = kept j _ _ ne k
      keeps j to_defer ne = kept j _ _ ne l
      keeps j no_duty ne = λ q. tt

  over-Owned :
      (w : World F) (t : ℕ) → Owned w → IsOwned w.connection (set_task t none w.tasks) w.next_task
  over-Owned w t = ends-Owned w t w.connection (inl refl) (inl refl) (inl refl)

  deferred_ends-Owned :
      (t : ℕ) (in_publisher : Bool) (error : Option Exception) (w : World F)
      → Owned w
      → Owned (deferred_ends t in_publisher error w)
  unfolding deferred_ends publisher_ends publisher_section publisher_failed
  deferred_ends-Owned t false error w o = over-Owned w t o
  deferred_ends-Owned t true none w o = ends-Owned w t _ (inl refl) (inl refl) (inr refl) o
  deferred_ends-Owned t true (some e) w o = ends-Owned w t _ (inl refl) (inl refl) (inr refl) o

  deferred_goes_on-Owned :
      (t : ℕ) (in_publisher : Bool) (w : World F) (co : Coroutine)
      → w.tasks t ≡ some co
      → duty co ≡ (if in_publisher then to_defer else no_duty)
      → Owned w
      → Owned (deferred_goes_on t in_publisher w)
  unfolding deferred_goes_on deferred_section
  deferred_goes_on-Owned t in_publisher w co h e o =
      let w' = update (λ c. record c { close_event_deferred = false }) w in
      let o' = IsOwned-Keeps w.connection w'.connection w.tasks w.next_task (refl, refl, refl) o in
      let waiter = w.connection.deferred_close_event_waiter in
      let next = finalizes (of_deferred_close waiter in_publisher) in
      let q = duty_to_deferred waiter in_publisher ∙ sym e in
      ground (
        arith,
        deferred_ends-Owned t in_publisher none w o,
        IsOwned-goes_on w'.connection w.tasks w.next_task t co next h q o',
      )

  caller_ends-Owned :
      (t : ℕ) (caller : Caller) (error : Option Exception) (w : World F)
      → Owned w
      → Owned (caller_ends t caller error w)
  unfolding caller_ends lifecycle_ends lifecycle_section settle_deferred
  caller_ends-Owned t of_close_lifecycle error w o =
      ends-Owned w t _ (inr refl) (inl refl) (inl refl) o
  caller_ends-Owned t (of_deferred_close waiter in_publisher) error w o =
      let w' = settle_deferred waiter error w in
      deferred_ends-Owned t in_publisher error w'
        (IsOwned-Keeps w.connection w'.connection w.tasks w.next_task (refl, refl, refl) o)

  publication_ends-Owned :
      (t : ℕ) (previous : ConnectionState) (success : Bool) (w : World F)
      → Owned w
      → Owned (publication_ends t previous success w)
  unfolding publication_ends publication_section
  publication_ends-Owned t previous true w o = ends-Owned w t _ (inl refl) (inr refl) (inl refl) o
  publication_ends-Owned t previous false w o = ends-Owned w t _ (inl refl) (inr refl) (inl refl) o

  -- A section creates no task in the place of one that is there.
  created_beside :
      (w : World F) (t : ℕ) (co new : Coroutine)
      → Owned w
      → w.tasks t ≡ some co
      → set_task w.next_task (some new) w.tasks t ≡ some co
  created_beside w t co new o h = elim (Bool-cases (t == w.next_task)) [
    | inl e ↦ ground (arith, e, h, o.fresh t)
    | inr e ↦ ground (arith, e, h)
  ]

  publisher_beside :
      (b : Bool) (w : World F) (t : ℕ) (co : Coroutine)
      → Owned w
      → w.tasks t ≡ some co
      → (publisher_if b w).tasks t ≡ some co
  publisher_beside false w t co o h = h
  publisher_beside true w t co o h = ground (arith, h, created_beside w t co publisher o h)

  waiter_beside :
      (w : World F) (t : ℕ) (co : Coroutine)
      → w.tasks t ≡ some co
      → (ensure_waiter w).tasks t ≡ some co
  waiter_beside w t co h = ground (arith, h)

  deferral_beside :
      (b : Bool) (w w' : World F) (waiter : Option ℕ) (t : ℕ) (co : Coroutine)
      → w.tasks t ≡ some co
      → w'.tasks t ≡ some co
      → (deferral b w w' waiter).0.tasks t ≡ some co
  deferral_beside true w w' waiter t co h h' = h'
  deferral_beside false w w' waiter t co h h' = h

  pub lifecycle_goes_on-Owned :
      (t : ℕ) (args : CloseArgs) (w : World F)
      → w.tasks t ≡ some (close_lifecycle args)
      → Owned w
      → Owned (lifecycle_goes_on t args w)
  unfolding lifecycle_goes_on defer_close_event
  lifecycle_goes_on-Owned t args w h o =
      let ctx = in_task t args.context in
      let w' = update mark_deferred w in
      let o' = IsOwned-Keeps w.connection w'.connection w.tasks w.next_task (refl, refl, refl) o in
      let b = is_none w.connection.opening_event_task && handler_in_flight ctx args w in
      let (v, deferred, waiter) = defer_close_event ctx args w in
      let beside =
        publisher_beside b (ensure_waiter w') t (close_lifecycle args) (waiter-Owned w' o')
          (waiter_beside w' t (close_lifecycle args) h) in
      IsOwned-goes_on v.connection v.tasks v.next_task t (close_lifecycle args)
        (if deferred then awaits of_close_lifecycle else finalizes of_close_lifecycle)
        (deferral_beside (defers ctx args w) w (publisher_if b (ensure_waiter w')) _ t
          (close_lifecycle args) h beside)
        (duty_to_close deferred) (defers-Owned ctx args w o)

  finalize_beside :
      (w : World F) (t : ℕ) (co : Coroutine)
      → Owned w
      → w.tasks t ≡ some co
      → (finalize_section w).0.tasks t ≡ some co
  unfolding finalize_section
  finalize_beside w t co o h =
      let previous = or_state w.connection.close_event_previous_state closing in
      ground (arith, h, created_beside w t co (publishes previous) o h)

  finalize_goes_on-Owned :
      (t : ℕ) (caller : Caller) (w : World F)
      → w.tasks t ≡ some (finalizes caller)
      → Owned w
      → Owned (finalize_goes_on t caller w)
  unfolding finalize_goes_on
  finalize_goes_on-Owned t caller w h o =
      let v = (finalize_section w).0 in
      IsOwned-goes_on v.connection v.tasks v.next_task t (finalizes caller) (awaits caller)
        (finalize_beside w t (finalizes caller) o h) refl (finalizes-Owned w o)

  -- Every step keeps each task with a duty the one that the connection refers to.
  pub Step-Owned : (w v : World F) → Step w v → Owned w → Owned v
  unfolding opened_section open_failed_section lifecycle_ends caller_ends
  Step-Owned w _ starts o = starts-Owned w o
  Step-Owned w _ (opens ctx) o = opens-Owned ctx w o
  Step-Owned w _ (is_opened ctx) o =
      creates-Owned (update (forget_opening ctx) w) _ opened_barrier (refl, refl, refl) refl
        (forgets-Owned ctx w o)
  Step-Owned w _ fails_to_open o = creates-Owned w _ opened_barrier (refl, refl, refl) refl o
  Step-Owned w _ (forgets_opening ctx) o = forgets-Owned ctx w o
  Step-Owned w _ starts_to_read o = reads-Owned w o
  Step-Owned w _ (closes ctx) o = closes-Owned ctx w o
  Step-Owned w _ (asks_to_defer t args h) o = lifecycle_goes_on-Owned t args w h o
  Step-Owned w _ (fails_to_tear_down t args h) o = caller_ends-Owned t of_close_lifecycle none w o
  Step-Owned w _ ensures_waiter o = ensures-Owned w o
  Step-Owned w _ (tests_after_opened t h) o = deferred_goes_on-Owned t false w _ h refl o
  Step-Owned w _ (tests_after_handlers t h) o = deferred_goes_on-Owned t true w _ h refl o
  Step-Owned w _ (fails_to_wait t e h) o = deferred_ends-Owned t true (some e) w o
  Step-Owned w _ (finalizes_close t caller h) o = finalize_goes_on-Owned t caller w h o
  Step-Owned w _ (returns t caller error h) o = caller_ends-Owned t caller error w o
  Step-Owned w _ (is_published t previous success h) o =
      publication_ends-Owned t previous success w o
  Step-Owned w _ (is_over t) o = over-Owned w t o
  Step-Owned w _ (others d n m l) o = record {
    fresh = λ j k. o.fresh j (omega arith);
    holds = o.holds;
  }
