-- ===== src/Dispatcher/Worker/Drain.antt =====
-- How the worker of event_dispatcher.py ends, and what its end leaves of the queue and its waiters.
use aionetx.Base.{
  ℕ, suc, zero, ◌≤◌, ◌<◌, ◌≡◌, ◌⊎◌, inl, inr, refl, sym, ap, subst, ◌∙◌, Bool, true, false, List,
  [], ◌∷◌, Exception, cancelled_error, arith, All, length,
}
use aionetx.Dispatcher.State.{
  Dispatcher, QueuedEvent, fail_queued_event, fail_queued_events, done, Futures, failed, finished,
}
use aionetx.Dispatcher.Context.{TaskContext, current_task_is_worker}
use aionetx.Dispatcher.Emit.{
  Exit, returned, raised, cancelled, waits_forever, out_of_fuel, Application, emit_now,
}
use aionetx.Dispatcher.Emit.Failures.{KeepsSettings}
use aionetx.Dispatcher.Emit.Exits.{lets_out, allowed, emit_now-allowed}
use aionetx.Dispatcher.Emit.Settle.{IsQuiet, emit_now-Settles, not_waiting}
use aionetx.Dispatcher.Queue.Resources.{IsWoken, done-settle_once, settle_once-keeps}
use aionetx.Dispatcher.Worker.{
  Round, next_round, ended, finish, after_delivery, round_on, worker_round, run,
}

module _ {F : Type 0} where
  fail_queued_events-keeps :
      (qs : List (QueuedEvent F)) (e : Exception) (m : Futures) (k : ℕ)
      → done (m k) ≡ true
      → fail_queued_events qs e m k ≡ m k
  unfolding fail_queued_events
  fail_queued_events-keeps [] e m k h = refl
  fail_queued_events-keeps (q ∷ qs) e m k h =
      let same = settle_once-keeps q.handled (failed e) m k h in
      fail_queued_events-keeps qs e (fail_queued_event q e m) k (ap done same ∙ h) ∙ same

  fail_queued_events-IsWoken :
      (qs : List (QueuedEvent F)) (e : Exception) (m : Futures)
      → All (IsWoken (fail_queued_events qs e m)) qs
  unfolding fail_queued_events
  fail_queued_events-IsWoken [] e m = tt
  fail_queued_events-IsWoken (q ∷ qs) e m = (
    λ k h.
        let woken = done-settle_once q.handled (failed e) m k refl h in
        ap done (fail_queued_events-keeps qs e (fail_queued_event q e m) k woken) ∙ woken,
    fail_queued_events-IsWoken qs e (fail_queued_event q e m),
  )

  -- What a round leaves behind when the worker ends in it: an empty queue, no worker, and every
  -- waiter woken of the event that it took and of those that were queued when the delivery ended.
  abbrev pub Left : TaskContext → QueuedEvent F → Dispatcher F × Exit → Dispatcher F → Type 0
  Left ctx q r d =
      (d.queue ≡ [])
      × (current_task_is_worker ctx d ≡ false)
      × IsWoken d.futures q
      × All (IsWoken d.futures) r.0.queue

  fail_IsWoken :
      (q : QueuedEvent F) (qs : List (QueuedEvent F)) (e : Exception) (m : Futures)
      → IsWoken (fail_queued_events qs e (fail_queued_event q e m)) q
  unfolding fail_queued_event
  fail_IsWoken q qs e m k h =
      let woken = done-settle_once q.handled (failed e) m k refl h in
      ap done (fail_queued_events-keeps qs e (fail_queued_event q e m) k woken) ∙ woken

  no_worker :
      (ctx : TaskContext) (e : Exception) (d : Dispatcher F)
      → current_task_is_worker ctx (finish ctx e d) ≡ false
  unfolding finish current_task_is_worker
  no_worker ctx e d = ground arith

  after_delivery-Left :
      (ctx : TaskContext) (q : QueuedEvent F) (r : Dispatcher F × Exit) (x : Exit)
      → (after_delivery ctx q r).1 ≡ ended x
      → Left ctx q r (after_delivery ctx q r).0
  unfolding after_delivery
  after_delivery-Left ctx q (d, returned) x h = cc
  after_delivery-Left ctx q (d, raised e) x h = (
    refl,
    no_worker ctx e (record d { futures = fail_queued_event q e d.futures }),
    fail_IsWoken q d.queue e d.futures,
    fail_queued_events-IsWoken d.queue e (fail_queued_event q e d.futures),
  )
  after_delivery-Left ctx q (d, cancelled) x h = (
    refl,
    no_worker ctx cancelled_error
        (record d { futures = fail_queued_event q cancelled_error d.futures }),
    fail_IsWoken q d.queue cancelled_error d.futures,
    fail_queued_events-IsWoken d.queue cancelled_error
        (fail_queued_event q cancelled_error d.futures),
  )
  after_delivery-Left ctx q (d, waits_forever) x h = cc
  after_delivery-Left ctx q (d, out_of_fuel) x h = cc

  after_delivery-IsWoken :
      (ctx : TaskContext) (q : QueuedEvent F) (r : Dispatcher F × Exit)
      → (after_delivery ctx q r).1 ≡ next_round
      → IsWoken (after_delivery ctx q r).0.futures q
  unfolding after_delivery
  after_delivery-IsWoken ctx q (d, returned) h k e =
      done-settle_once q.handled finished d.futures k refl e
  after_delivery-IsWoken ctx q (d, raised x) h k e = cc
  after_delivery-IsWoken ctx q (d, cancelled) h k e = cc
  after_delivery-IsWoken ctx q (d, waits_forever) h k e = cc
  after_delivery-IsWoken ctx q (d, out_of_fuel) h k e = cc

  -- A round that ends the worker of a stopping dispatcher, or that leaves fewer than `n` events.
  abbrev EndsOrShrinks : TaskContext → ℕ → Dispatcher F × Round → Type 0
  EndsOrShrinks ctx n (d, round) =
      ((x : Exit) × (round ≡ ended x) × (d.queue ≡ []) × (current_task_is_worker ctx d ≡ false))
      ⊎ ((round ≡ next_round) × (d.stopping ≡ true) × (length d.queue < n))

  after_delivery-EndsOrShrinks :
      (ctx : TaskContext) (q : QueuedEvent F) (n : ℕ) (r : Dispatcher F × Exit) (may : Bool)
      → not_waiting r.1 ≡ true
      → allowed may r.1 ≡ true
      → r.0.stopping ≡ true
      → length r.0.queue < n
      → EndsOrShrinks ctx n (after_delivery ctx q r)
  unfolding after_delivery
  after_delivery-EndsOrShrinks ctx q n (d, returned) may w a s l = inr (refl, s, l)
  after_delivery-EndsOrShrinks ctx q n (d, raised e) may w a s l = inl (
    raised e,
    refl,
    refl,
    no_worker ctx e (record d { futures = fail_queued_event q e d.futures }),
  )
  after_delivery-EndsOrShrinks ctx q n (d, cancelled) may w a s l = inl (
    cancelled,
    refl,
    refl,
    no_worker ctx cancelled_error
        (record d { futures = fail_queued_event q cancelled_error d.futures }),
  )
  after_delivery-EndsOrShrinks ctx q n (d, waits_forever) may w a s l = cc
  after_delivery-EndsOrShrinks ctx q n (d, out_of_fuel) may w a s l = cc

  module _ (app : Application F) (ctx : TaskContext)
      (wakes : List (Dispatcher F → Dispatcher F)) where
    -- The worker takes the oldest event. A round after which it goes on has woken the waiter of
    -- that event. A round in which the delivery ends the worker leaves no worker and an empty
    -- queue, and has woken the waiters of the event and of all that were queued when the delivery
    -- ended.
    pub worker_round_wakes :
        (q : QueuedEvent F) (qs : List (QueuedEvent F)) (d : Dispatcher F)
        → d.queue ≡ q ∷ qs
        → let r = emit_now app ctx wakes q.event (record d { queue = qs }) in
          let (d', round) = worker_round app ctx wakes d in
          (round ≡ next_round → IsWoken d'.futures q)
          × ((x : Exit) → round ≡ ended x → Left ctx q r d')
    unfolding worker_round round_on
    worker_round_wakes q qs d h =
        let r = emit_now app ctx wakes q.event (record d { queue = qs }) in
        let same : worker_round app ctx wakes d ≡ after_delivery ctx q r =
          ap (λ l. round_on app ctx wakes l d) h in
        rw same (after_delivery-IsWoken ctx q r, after_delivery-Left ctx q r)

    run-ended :
        (n : ℕ) (d : Dispatcher F) (x : Exit)
        → (worker_round app ctx wakes d).1 ≡ ended x
        → run app ctx wakes (suc n) d ≡ ((worker_round app ctx wakes d).0, ended x)
    unfolding run
    run-ended n d x h = rw (h, run) refl

    run_next :
        (n : ℕ) (d : Dispatcher F)
        → (worker_round app ctx wakes d).1 ≡ next_round
        → run app ctx wakes (suc n) d ≡ run app ctx wakes n (worker_round app ctx wakes d).0
    unfolding run
    run_next n d h = rw (h, run) refl

    abbrev Drained : Exit → Dispatcher F × Round → Type 0
    Drained x (d, round) =
        (round ≡ ended x) × (d.queue ≡ []) × (current_task_is_worker ctx d ≡ false)

    module _ (keeps : KeepsSettings app) (quiet : IsQuiet app) where
      round_on-EndsOrShrinks :
          (n : ℕ) (l : List (QueuedEvent F)) (d : Dispatcher F)
          → length l ≤ n
          → d.stopping ≡ true
          → EndsOrShrinks ctx n (round_on app ctx wakes l d)
      unfolding round_on
      round_on-EndsOrShrinks n [] d l s =
          rw s (inl (returned, refl, refl, no_worker ctx cancelled_error d))
      round_on-EndsOrShrinks n (q ∷ qs) d l s =
          let before = record d { queue = qs } in
          let settled = emit_now-Settles app quiet ctx wakes q.event before s in
          after_delivery-EndsOrShrinks ctx q n (emit_now app ctx wakes q.event before)
            (lets_out before) settled.1 (emit_now-allowed app keeps ctx wakes q.event before)
            settled.0.still (omega (arith, settled.0.shorter, l))

      -- A worker that stops drains the queue: if the dispatcher stops and no more than `n` events
      -- are queued, and the application's code keeps the settings and lets a dispatcher that stops
      -- neither grow, start nor change its worker, the worker ends within `n + 1` rounds, and
      -- leaves an empty queue and no worker.
      pub run_drains :
          (n : ℕ) (d : Dispatcher F)
          → length d.queue ≤ n
          → d.stopping ≡ true
          → (x : Exit) × ((run app ctx wakes (suc n) d).1 ≡ ended x)
            × ((run app ctx wakes (suc n) d).0.queue ≡ [])
            × (current_task_is_worker ctx (run app ctx wakes (suc n) d).0 ≡ false)
      unfolding worker_round
      run_drains zero d l s = elim (round_on-EndsOrShrinks zero d.queue d l s) [
        | inl (x, ends, empty, gone) ↦
            let (e, q, w) = subst (Drained x) (sym (run-ended zero d x ends)) (refl, empty, gone) in
            (x, e, q, w)
        | inr (next, still, less) ↦ ground (arith, less)
      ]
      run_drains (suc n) d l s = elim (round_on-EndsOrShrinks (suc n) d.queue d l s) [
        | inl (x, ends, empty, gone) ↦
            let (e, q, w) =
              subst (Drained x) (sym (run-ended (suc n) d x ends)) (refl, empty, gone) in
            (x, e, q, w)
        | inr (next, still, less) ↦
            let (x, e, q, w) =
              run_drains n (worker_round app ctx wakes d).0 (omega (arith, less)) still in
            let (e', q', w') = subst (Drained x) (sym (run_next (suc n) d next)) (e, q, w) in
            (x, e', q', w')
      ]
