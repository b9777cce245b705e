-- ===== src/Connection/Guarantees.antt =====
-- What holds in every world that `AsyncioTcpConnection` (asyncio_tcp_connection.py) comes to.
use aionetx.Base.{
  ℕ, ◌≤◌, ◌≡◌, ◌≢◌, inl, inr, refl, Bool, true, false, none, some, List, [], ◌∷◌, arith, length, ok,
  Result-cases, value_error, All,
}
use aionetx.Events.{ConnectionState, created, closed}
use aionetx.Dispatcher.State.{Dispatcher}
use aionetx.Settings.Values.{Builtins, require_optional_positive_finite_number}
use aionetx.Connection.{TcpConnection, World, Coroutine, publishes, is_closed_state, is_down}
use aionetx.Connection.Create.{ConnectionArgs, init, new_world}
use aionetx.Connection.Steps.{Reaches, here, later}
use aionetx.Connection.Invariant.{Duty, to_close, to_publish, to_defer, no_duty, duty, Holds}
use aionetx.Connection.Invariant.Owned.{Owned}
use aionetx.Connection.Invariant.Owned.Steps.{Step-Owned}
use aionetx.Connection.Invariant.Settled.{IsSettled, count_if}
use aionetx.Connection.Invariant.Settled.Steps.{Step-Settled}
use aionetx.Connection.Refinement.{Phase, Advance, Advances, phase, Step-Advances}

abbrev has_duty : Duty → Bool
has_duty no_duty = false
has_duty _ = true

-- The phases in a row, each the next one's predecessor.
pub data Course (p : Phase) : Phase → Type 0 where
  still : Course p p
  onward : {q r : Phase} → Course p q → Advance q r → Course p r

Course-on : (p q r : Phase) → Course p q → Advances q r → Course p r
Course-on p q r c (inl e) = rw e c
Course-on p q r c (inr a) = onward c a

at_most_one :
    (published : List ConnectionState) (b : Bool)
    → length published ≡ count_if b
    → length published ≤ 1
at_most_one published b h = ground arith

is_announced :
    (published : List ConnectionState) (b : Bool)
    → length published ≡ count_if b
    → published ≢ []
    → b ≡ true
is_announced [] b h ne = absurd (ne refl)
is_announced (p ∷ published) b h ne = ground (arith, h)

true-false : {b : Bool} → b ≡ true → b ≡ false → ⊥
true-false h k = cc

torn_once : (n : ℕ) (b : Bool) → n ≤ count_if b → n ≤ 1
torn_once n b h = ground arith

module _ {F : Type 0} where
  same_holder :
      (c : TcpConnection F) (t j : ℕ) (d e : Duty)
      → d ≡ e
      → d ≢ no_duty
      → Holds c t d
      → Holds c j e
      → t ≡ j
  same_holder c t j d e q ne h k = at_one d ne h (rw q k)
    where
      at_one : (d : Duty) → d ≢ no_duty → Holds c t d → Holds c j d → t ≡ j
      at_one to_close ne h k = ground (arith, h, k)
      at_one to_publish ne h k = ground (arith, h, k)
      at_one to_defer ne h k = ground (arith, h, k)
      at_one no_duty ne h k = absurd (ne refl)

  -- A connection that `__init__` made.
  init-is_new :
      (builtins : Builtins F) (args : ConnectionArgs F) (c : TcpConnection F)
      → init builtins args ≡ ok c
      → (c.state ≡ created)
        × (c.closed_event_published ≡ false)
        × (c.close_event_previous_state ≡ none)
  unfolding init
  init-is_new builtins args c h =
      elim (Result-cases
        (require_optional_positive_finite_number builtins value_error args.send_timeout_seconds)) [
          | inl (e, q) ↦ ground (arith, h, q)
          | inr (v, q) ↦ ground (arith, h, q)
        ]

  Owned-new : (c : TcpConnection F) (d : Dispatcher F) (n m : ℕ) → Owned (new_world c d n m)
  unfolding new_world
  Owned-new c d n m = record { fresh = λ t h. refl; holds = λ t co h. cc }

  Settled-new :
      (c : TcpConnection F) (d : Dispatcher F) (n m : ℕ)
      → (c.closed_event_published ≡ false)
      → (c.close_event_previous_state ≡ none)
      → IsSettled (new_world c d n m)
  unfolding new_world
  Settled-new c d n m f e = record {
    ready = λ t previous h. cc;
    final = λ h. cc;
    counted = rw f refl;
    torn = ground arith;
    open_before = rw e refl;
    were_open = tt;
  }

  Reaches-Kept : (w v : World F) → Reaches w v → Owned w → IsSettled w → Owned v × IsSettled v
  Reaches-Kept w _ here o i = (o, i)
  Reaches-Kept w v (later {v = u} r s) o i =
      let (o', i') = Reaches-Kept w u r o i in (Step-Owned u v s o', Step-Settled u v s o' i')

  Reaches-Course :
      (w v : World F) → Reaches w v → Owned w → IsSettled w → Course (phase w) (phase v)
  Reaches-Course w _ here o i = still
  Reaches-Course w v (later {v = u} r s) o i =
      let (o', i') = Reaches-Kept w u r o i in
      Course-on (phase w) (phase u) (phase v) (Reaches-Course w u r o i) (Step-Advances u v s i')

  module _ (builtins : Builtins F) (args : ConnectionArgs F) (c : TcpConnection F)
      (is_made : init builtins args ≡ ok c) (d : Dispatcher F) (n m : ℕ) where
    Reaches-Invariant : (w : World F) → Reaches (new_world c d n m) w → Owned w × IsSettled w
    Reaches-Invariant w r =
        let (s, f, e) = init-is_new builtins args c is_made in
        Reaches-Kept (new_world c d n m) w r (Owned-new c d n m) (Settled-new c d n m f e)

    -- However its callers and tasks are interleaved, a connection has at most one task that runs
    -- the close lifecycle, at most one that publishes the closed event, and at most one that waits
    -- for handlers in order to publish it later: two tasks with the same one of these duties are
    -- the same task.
    pub one_of_each :
        (w : World F) (t j : ℕ) (co co' : Coroutine)
        → Reaches (new_world c d n m) w
        → w.tasks t ≡ some co
        → w.tasks j ≡ some co'
        → duty co ≡ duty co'
        → duty co ≢ no_duty
        → t ≡ j
    one_of_each w t j co co' r h k e ne =
        let (o, i) = Reaches-Invariant w r in
        same_holder w.connection t j (duty co) (duty co') e ne (o.holds t co h) (o.holds j co' k)

    -- In every world that a new connection comes to, its closed event was published at most once,
    -- its previous state was not CLOSED, and once it was published the connection is CLOSED, says
    -- so, and no task publishes the event again; its teardown was begun at most once.
    pub closes_once :
        (w : World F)
        → Reaches (new_world c d n m) w
        → (length w.published ≤ 1)
          × All (λ previous. is_closed_state previous ≡ false) w.published
          × (w.published ≢ []
              → (w.connection.state ≡ closed)
                × (w.connection.closed_event_published ≡ true)
                × ((t : ℕ) (previous : ConnectionState) → w.tasks t ≢ some (publishes previous)))
          × (w.teardowns ≤ 1)
    closes_once w r =
        let (o, i) = Reaches-Invariant w r in
        (
          at_most_one w.published w.connection.closed_event_published i.counted,
          i.were_open,
          (λ ne.
              let f = is_announced w.published w.connection.closed_event_published i.counted ne in
              (i.final f, f, λ t previous h. true-false f (i.ready t previous h).0)),
          torn_once w.teardowns (is_down w.connection.state) i.torn,
        )

    -- From any world that a new connection comes to, whatever its callers and tasks do next, its
    -- phase, which is down to the state and the events that were published, goes on along the
    -- diagram: up or down from idle, down from up, to shut, and from shut to announced, with a
    -- previous state that is not CLOSED. No phase comes back.
    pub Reaches-phase :
        (w v : World F) → Reaches (new_world c d n m) w → Reaches w v → Course (phase w) (phase v)
    Reaches-phase w v r q = let (o, i) = Reaches-Invariant w r in Reaches-Course w v q o i
