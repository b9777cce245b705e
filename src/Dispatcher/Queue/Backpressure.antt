-- ===== src/Dispatcher/Queue/Backpressure.antt =====
-- What `_enqueue` of event_dispatcher.py does to the queue, its counters and the waiters of its events.
use aionetx.Base.{
  ℕ, suc, ◌+◌, ◌≤◌, ◌≡◌, ◌≢◌, inl, inr, refl, Bool, true, false, some, List, [], ◌∷◌, ◌++◌, arith,
  length, length-append, Option-cases, if◌then◌else◌,
}
use aionetx.Dispatcher.State.{Dispatcher, QueuedEvent}
use aionetx.Dispatcher.Queue.{
  Attempt, accepted, rejected, waits, dropped, blocked, evict, enqueue_attempt, enqueue,
}

abbrev pub count_if : Bool → ℕ
count_if true = 1
count_if false = 0

abbrev pub is_accepted : Attempt → Bool
is_accepted accepted = true
is_accepted _ = false

abbrev pub is_rejected : Attempt → Bool
is_rejected rejected = true
is_rejected _ = false

module _ {F : Type 0} where
  -- The events that backpressure must not drop, in order.
  abbrev pub barriers : List (QueuedEvent F) → List (QueuedEvent F)
  barriers [] = []
  barriers (q ∷ qs) = if q.drop_on_backpressure then barriers qs else q ∷ barriers qs

  -- The queue holds no more than its limit, and no more than its recorded peak.
  pub record IsBounded (d : Dispatcher F) : Type 0 where
    pub within : length d.queue ≤ d.delivery.max_pending_events
    pub peak : length d.queue ≤ d.stats.queue_peak
    pub peak_within : d.stats.queue_peak ≤ d.delivery.max_pending_events

  length-evict :
      (qs : List (QueuedEvent F)) (x : QueuedEvent F) (kept : List (QueuedEvent F))
      → evict qs ≡ some (x, kept)
      → length qs ≡ suc (length kept)
  unfolding evict
  length-evict [] x kept h = cc
  length-evict (q ∷ qs) x kept h = elim (Option-cases (evict qs)) [
    | inl e ↦ ground (arith, e)
    | inr ((y, rest), e) ↦ ground (arith, e, length-evict qs y rest e)
  ]

  barriers-append :
      (xs ys : List (QueuedEvent F)) → barriers (xs ++ ys) ≡ barriers xs ++ barriers ys
  barriers-append [] ys = refl
  barriers-append (x ∷ xs) ys = ground (arith, barriers-append xs ys)

  barriers-evict :
      (qs : List (QueuedEvent F)) (x : QueuedEvent F) (kept : List (QueuedEvent F))
      → evict qs ≡ some (x, kept)
      → barriers kept ≡ barriers qs
  unfolding evict
  barriers-evict [] x kept h = cc
  barriers-evict (q ∷ qs) x kept h = elim (Option-cases (evict qs)) [
    | inl e ↦ ground (arith, e)
    | inr ((y, rest), e) ↦ ground (arith, e, barriers-evict qs y rest e)
  ]

  -- Any round of the loop that takes an event into the queue keeps a queue that is within its
  -- limit, and its recorded peak between its length and its limit, that way.
  pub enqueue_attempt-IsBounded :
      (q : QueuedEvent F) (d : Dispatcher F) → IsBounded d → IsBounded (enqueue_attempt q d).0
  unfolding enqueue_attempt
  enqueue_attempt-IsBounded q d b = elim (Option-cases (evict d.queue)) [
    | inl e ↦ ground (arith, e, length-append d.queue (q ∷ []))
    | inr ((x, kept), e) ↦ ground (
      arith,
      e,
      length-append d.queue (q ∷ []),
      length-append kept (q ∷ []),
      length-evict d.queue x kept e,
    )
  ]

  -- The events in the queue that backpressure must not drop are, after a round of the loop, the
  -- same ones in the same order, with the new event behind them if it is one of them and was taken
  -- in.
  pub barriers-enqueue_attempt :
      (q : QueuedEvent F) (d : Dispatcher F)
      → barriers (enqueue_attempt q d).0.queue ≡ elim (enqueue_attempt q d).1 [
        | accepted ↦ barriers (d.queue ++ q ∷ [])
        | _ ↦ barriers d.queue
      ]
  unfolding enqueue_attempt
  barriers-enqueue_attempt q d = elim (Option-cases (evict d.queue)) [
    | inl e ↦ ground (arith, e)
    | inr ((x, kept), e) ↦ ground (
      arith,
      e,
      barriers-evict d.queue x kept e,
      barriers-append d.queue (q ∷ []),
      barriers-append kept (q ∷ []),
    )
  ]

  -- Every round is accounted for: a wait changes nothing; an event that is taken in is counted
  -- once and lengthens the queue by one, less one for an event that it pushes out, which is
  -- counted as dropped; an event that is refused is counted once among the dropped ones.
  pub enqueue_attempt_accounts :
      (q : QueuedEvent F) (d : Dispatcher F)
      → let (d', a) = enqueue_attempt q d in
        (d'.stats.enqueued_total ≡ d.stats.enqueued_total + count_if (is_accepted a))
        × (length d'.queue + d'.stats.dropped_backpressure_oldest_total
            ≡ length d.queue + d.stats.dropped_backpressure_oldest_total + count_if (is_accepted a))
        × (d'.stats.dropped_backpressure_newest_total + d'.stats.dropped_stop_phase_total
            ≡ d.stats.dropped_backpressure_newest_total
              + d.stats.dropped_stop_phase_total
              + count_if (is_rejected a))
        × (a ≡ waits → d' ≡ d)
  unfolding enqueue_attempt
  enqueue_attempt_accounts q d = elim (Option-cases (evict d.queue)) [
    | inl e ↦ ground (arith, e, length-append d.queue (q ∷ []))
    | inr ((x, kept), e) ↦ ground (
      arith,
      e,
      length-append d.queue (q ∷ []),
      length-append kept (q ∷ []),
      length-evict d.queue x kept e,
    )
  ]

  attempt_of_stopped :
      (q : QueuedEvent F) (d : Dispatcher F)
      → d.stopping ≡ true
      → (enqueue_attempt q d).1 ≡ rejected
  unfolding enqueue_attempt
  attempt_of_stopped q d h = ground arith

  enqueue_of_stopped :
      (wakes : List (Dispatcher F → Dispatcher F)) (q : QueuedEvent F) (d : Dispatcher F)
      → d.stopping ≡ true
      → (enqueue wakes q d).1 ≡ dropped
  unfolding enqueue
  enqueue_of_stopped [] q d h = ground (arith, attempt_of_stopped q d h)
  enqueue_of_stopped (w ∷ wakes) q d h = ground (arith, attempt_of_stopped q d h)

  -- A producer that waits for room does not wait for ever if the dispatcher is found stopping
  -- after one of its wakes, whatever happens at the wakes before.
  pub enqueue_released :
      (before after : List (Dispatcher F → Dispatcher F)) (wake : Dispatcher F → Dispatcher F)
      (q : QueuedEvent F) (d : Dispatcher F)
      → ((e : Dispatcher F) → (wake e).stopping ≡ true)
      → (enqueue (before ++ wake ∷ after) q d).1 ≢ blocked
  unfolding enqueue
  enqueue_released [] after wake q d h =
      let d' = (enqueue_attempt q d).0 in
      ground (arith, enqueue_of_stopped after q (wake d') (h d'))
  enqueue_released (w ∷ before) after wake q d h =
      ground (arith, enqueue_released before after wake q (w (enqueue_attempt q d).0) h)
