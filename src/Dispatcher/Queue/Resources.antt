-- ===== src/Dispatcher/Queue/Resources.antt =====
-- What `drop_queued_events_for_resource` of event_dispatcher.py does to the queue, and to the waiters
-- of the events that leave it.
use aionetx.Base.{
  ℕ, sym, ◌+◌, ◌≡◌, refl, true, Option, some, List, [], ◌∷◌, arith, length, if◌then◌else◌, ap, All,
  String, runtime_error, ◌∙◌,
}
use aionetx.Dispatcher.State.{
  Dispatcher, QueuedEvent, Futures, FutureState, failed, done, settle_once, drop_queued_events,
  drop_queued_event,
}
use aionetx.Dispatcher.Queue.{
  is_payload_of, split_payloads, drop_queued_events_for_resource, discard_payloads,
}

pub done-settle_once :
    (w : Option ℕ) (s : FutureState) (m : Futures) (k : ℕ)
    → done s ≡ true
    → w ≡ some k
    → done (settle_once w s m k) ≡ true
done-settle_once w s m k h e = ground arith

-- A future that is done keeps its outcome.
pub settle_once-keeps :
    (w : Option ℕ) (s : FutureState) (m : Futures) (k : ℕ)
    → done (m k) ≡ true
    → settle_once w s m k ≡ m k
settle_once-keeps w s m k h = ground arith

module _ {F : Type 0} where
  -- The waiter of the event, if it has one, has been woken.
  abbrev pub IsWoken : Futures → QueuedEvent F → Type 0
  IsWoken m q = (k : ℕ) → q.handled ≡ some k → done (m k) ≡ true

  pub drop_queued_events-keeps :
      (qs : List (QueuedEvent F)) (m : Futures) (k : ℕ)
      → done (m k) ≡ true
      → drop_queued_events qs m k ≡ m k
  unfolding drop_queued_events
  drop_queued_events-keeps [] m k h = refl
  drop_queued_events-keeps (q ∷ qs) m k h =
      let same = settle_once-keeps q.handled (failed runtime_error) m k h in
      drop_queued_events-keeps qs (drop_queued_event q m) k (ap done same ∙ h) ∙ same

  pub drop_queued_events-IsWoken :
      (qs : List (QueuedEvent F)) (m : Futures) → All (IsWoken (drop_queued_events qs m)) qs
  unfolding drop_queued_events
  drop_queued_events-IsWoken [] m = tt
  drop_queued_events-IsWoken (q ∷ qs) m = (
    λ k e.
        let woken = done-settle_once q.handled (failed runtime_error) m k refl e in
        ap done (drop_queued_events-keeps qs (drop_queued_event q m) k woken) ∙ woken,
    drop_queued_events-IsWoken qs (drop_queued_event q m),
  )

  -- The events that are no payload of the resource, in order.
  abbrev pub others : String → List (QueuedEvent F) → List (QueuedEvent F)
  others r [] = []
  others r (q ∷ qs) = if is_payload_of r q then others r qs else q ∷ others r qs

  abbrev pub payloads : String → List (QueuedEvent F) → List (QueuedEvent F)
  payloads r [] = []
  payloads r (q ∷ qs) = if is_payload_of r q then q ∷ payloads r qs else payloads r qs

  split_payloads_lem :
      (r : String) (qs : List (QueuedEvent F)) → split_payloads r qs ≡ (payloads r qs, others r qs)
  unfolding split_payloads
  split_payloads_lem r [] = refl
  split_payloads_lem r (q ∷ qs) = ground (arith, split_payloads_lem r qs)

  length-parts :
      (r : String) (qs : List (QueuedEvent F))
      → length (payloads r qs) + length (others r qs) ≡ length qs
  length-parts r [] = refl
  length-parts r (q ∷ qs) = ground (arith, length-parts r qs)

  payloads-others : (r : String) (qs : List (QueuedEvent F)) → payloads r (others r qs) ≡ []
  payloads-others r [] = refl
  payloads-others r (q ∷ qs) = ground (arith, payloads-others r qs)

  others_of_no_payloads :
      (r : String) (qs : List (QueuedEvent F)) → payloads r qs ≡ [] → others r qs ≡ qs
  others_of_no_payloads r [] h = refl
  others_of_no_payloads r (q ∷ qs) h = ground (arith, others_of_no_payloads r qs)

  abbrev Discarded : String → Dispatcher F → Dispatcher F × ℕ → Type 0
  Discarded r d (d', n) =
      (d'.queue ≡ others r d.queue)
      × (n ≡ length (payloads r d.queue))
      × (d'.stats.dropped_stop_phase_total ≡ d.stats.dropped_stop_phase_total + n)
      × All (IsWoken d'.futures) (payloads r d.queue)
      × (drop_queued_events_for_resource r d' ≡ (d', 0))

  drop_of_no_payloads :
      (r : String) (d : Dispatcher F)
      → payloads r d.queue ≡ []
      → drop_queued_events_for_resource r d ≡ (d, 0)
  unfolding drop_queued_events_for_resource
  drop_of_no_payloads r d h = ground (arith, split_payloads_lem r d.queue)

  discard_payloads-Discarded :
      (r : String) (d : Dispatcher F) (xs ys : List (QueuedEvent F))
      → payloads r d.queue ≡ xs
      → others r d.queue ≡ ys
      → Discarded r d (discard_payloads (xs, ys) d)
  unfolding discard_payloads
  discard_payloads-Discarded r d [] ys e f = (
    sym (others_of_no_payloads r d.queue e),
    rw e,
    omega arith,
    rw e tt,
    drop_of_no_payloads r d e,
  )
  discard_payloads-Discarded r d (x ∷ xs) ys e f = (
    sym f,
    rw e,
    omega arith,
    rw e (drop_queued_events-IsWoken (x ∷ xs) d.futures),
    drop_of_no_payloads r _ (ap (payloads r) (sym f) ∙ payloads-others r d.queue),
  )

  -- Dropping for a resource takes out exactly the payload events of that resource and keeps all
  -- others in their order; it returns, and counts as dropped, how many there were, and wakes their
  -- waiters; a second call finds nothing to drop and changes nothing.
  pub drop_queued_events_for_resource_lem :
      (r : String) (d : Dispatcher F)
      → let (d', n) = drop_queued_events_for_resource r d in
        (d'.queue ≡ others r d.queue)
        × (n ≡ length (payloads r d.queue))
        × (d'.stats.dropped_stop_phase_total ≡ d.stats.dropped_stop_phase_total + n)
        × All (IsWoken d'.futures) (payloads r d.queue)
        × (drop_queued_events_for_resource r d' ≡ (d', 0))
  unfolding drop_queued_events_for_resource
  drop_queued_events_for_resource_lem r d =
      rw (split_payloads_lem r d.queue, drop_queued_events_for_resource)
        (discard_payloads-Discarded r d _ _ refl refl)
