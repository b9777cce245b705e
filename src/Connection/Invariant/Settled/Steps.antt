-- ===== src/Connection/Invariant/Settled/Steps.antt =====
-- The flags of `AsyncioTcpConnection` and its published events, through the steps of
-- asyncio_tcp_connection.py.
use aionetx.Base.{
  ℕ, suc, ◌≡◌, refl, Bool, true, false, Option, none, some, arith, Exception, if◌then◌else◌,
}
use aionetx.Events.{ConnectionState}
use aionetx.Connection.{
  World, Caller, of_close_lifecycle, of_deferred_close, opened_barrier, finalizes, awaits,
  publishes, reads, update,
}
use aionetx.Connection.Open.{forget_opening, opened_section, open_failed_section, reading_section}
use aionetx.Connection.Close.{
  defer_close_event, finalize_section, publication_section, lifecycle_section, deferred_section,
  settle_deferred, publisher_failed, publisher_section,
}
use aionetx.Connection.Steps.{
  Step, starts, opens, is_opened, fails_to_open, forgets_opening, starts_to_read, closes,
  asks_to_defer, fails_to_tear_down, ensures_waiter, tests_after_opened, tests_after_handlers,
  fails_to_wait, finalizes_close, returns, is_published, is_over, others, lifecycle_goes_on,
  lifecycle_ends, publisher_ends, deferred_ends, deferred_goes_on, finalize_goes_on, caller_ends,
  publication_ends, in_task,
}
use aionetx.Connection.Invariant.Owned.{Owned}
use aionetx.Connection.Invariant.Settled.{
  not_published, IsSettled, AreReady-set, starts-Settled, opens-Settled, updates-Settled,
  places-Settled, ends-Settled, closes-Settled, defers-Settled, ensures-Settled, finalizes-Settled,
}

module _ {F : Type 0} where
  deferred_ends-Settled :
      (t : ℕ) (in_publisher : Bool) (error : Option Exception) (w : World F)
      → IsSettled w
      → IsSettled (deferred_ends t in_publisher error w)
  unfolding deferred_ends publisher_ends publisher_section publisher_failed
  deferred_ends-Settled t false error w i = ends-Settled w t i
  deferred_ends-Settled t true none w i = ground (arith, i, ends-Settled w t i)
  deferred_ends-Settled t true (some e) w i = ground (arith, i, ends-Settled w t i)

  deferred_goes_on-Settled :
      (t : ℕ) (in_publisher : Bool) (w : World F)
      → IsSettled w
      → IsSettled (deferred_goes_on t in_publisher w)
  unfolding deferred_goes_on deferred_section
  deferred_goes_on-Settled t in_publisher w i =
      let next = of_deferred_close w.connection.deferred_close_event_waiter in_publisher in
      ground (
        arith,
        i,
        deferred_ends-Settled t in_publisher none w i,
        places-Settled w t (finalizes next) w.next_task refl i,
      )

  caller_ends-Settled :
      (t : ℕ) (caller : Caller) (error : Option Exception) (w : World F)
      → IsSettled w
      → IsSettled (caller_ends t caller error w)
  unfolding caller_ends lifecycle_ends lifecycle_section settle_deferred
  caller_ends-Settled t of_close_lifecycle error w i = ground (arith, i, ends-Settled w t i)
  caller_ends-Settled t (of_deferred_close waiter in_publisher) error w i =
      deferred_ends-Settled t in_publisher error (settle_deferred waiter error w)
        (ground (arith, i))

  -- The task that publishes is the only one.
  one_publication :
      (w : World F) (t j : ℕ) (p q : ConnectionState)
      → Owned w
      → w.tasks t ≡ some (publishes p)
      → w.tasks j ≡ some (publishes q)
      → j ≡ t
  one_publication w t j p q o h k =
      ground (arith, o.holds t (publishes p) h, o.holds j (publishes q) k)

  publication_ends-Settled :
      (t : ℕ) (previous : ConnectionState) (success : Bool) (w : World F)
      → w.tasks t ≡ some (publishes previous)
      → Owned w
      → IsSettled w
      → IsSettled (publication_ends t previous success w)
  unfolding publication_ends publication_section
  publication_ends-Settled t previous false w h o i = ground (arith, i, ends-Settled w t i)
  publication_ends-Settled t previous true w h o i =
      let c = publication_section t true w.connection in
      let (silent, is_closed, is_open) = i.ready t previous h in
      record {
        ready =
            AreReady-set w.connection c w.tasks t none (λ p q. cc)
              (λ j ne p q r. absurd (ne (one_publication w t j previous p o h q))) i.ready;
        final = λ q. is_closed;
        counted = ground (arith, i.counted, silent);
        torn = i.torn;
        open_before = refl;
        were_open = (is_open, i.were_open);
      }

  pub Step-Settled : (w v : World F) → Step w v → Owned w → IsSettled w → IsSettled v
  unfolding opened_section open_failed_section forget_opening reading_section lifecycle_goes_on
      finalize_goes_on lifecycle_ends caller_ends deferred_ends
  Step-Settled w _ starts o i = starts-Settled w i
  Step-Settled w _ (opens ctx) o i = opens-Settled ctx w i
  Step-Settled w _ (is_opened ctx) o i =
      places-Settled (update (forget_opening ctx) w) w.next_task opened_barrier (suc w.next_task)
        refl (updates-Settled w (forget_opening ctx w.connection) refl (λ h. h) (λ h. h) refl i)
  Step-Settled w _ fails_to_open o i =
      places-Settled w w.next_task opened_barrier (suc w.next_task) refl i
  Step-Settled w _ (forgets_opening ctx) o i =
      updates-Settled w (forget_opening ctx w.connection) refl (λ h. h) (λ h. h) refl i
  Step-Settled w _ starts_to_read o i =
      let c = record (w.connection) { read_task = some w.next_task } in
      ground (
        arith,
        i,
        places-Settled (record w { connection = c }) w.next_task reads (suc w.next_task) refl
            (updates-Settled w c refl (λ h. h) (λ h. h) refl i),
      )
  Step-Settled w _ (closes ctx) o i = closes-Settled ctx w i
  Step-Settled w _ (asks_to_defer t args h) o i =
      let (v, deferred, waiter) = defer_close_event (in_task t args.context) args w in
      places-Settled v t
        (if deferred then awaits of_close_lifecycle else finalizes of_close_lifecycle) v.next_task
        (not_published deferred) (defers-Settled (in_task t args.context) args w i)
  Step-Settled w _ (fails_to_tear_down t args h) o i =
      caller_ends-Settled t of_close_lifecycle none w i
  Step-Settled w _ ensures_waiter o i = ensures-Settled w i
  Step-Settled w _ (tests_after_opened t h) o i = deferred_goes_on-Settled t false w i
  Step-Settled w _ (tests_after_handlers t h) o i = deferred_goes_on-Settled t true w i
  Step-Settled w _ (fails_to_wait t e h) o i = deferred_ends-Settled t true (some e) w i
  Step-Settled w _ (finalizes_close t caller h) o i =
      let v = (finalize_section w).0 in
      places-Settled v t (awaits caller) v.next_task refl (finalizes-Settled w i)
  Step-Settled w _ (returns t caller error h) o i = caller_ends-Settled t caller error w i
  Step-Settled w _ (is_published t previous success h) o i =
      publication_ends-Settled t previous success w h o i
  Step-Settled w _ (is_over t) o i = ends-Settled w t i
  Step-Settled w _ (others d n m l) o i = ground (arith, i)
