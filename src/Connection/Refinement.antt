-- ===== src/Connection/Refinement.antt =====
-- The phases of a connection as its users see them, and how the steps of asyncio_tcp_connection.py
-- move it from one to the next.
use aionetx.Base.{
  ℕ, ◌≡◌, ◌⊎◌, inl, inr, refl, Bool, true, false, Option, none, some, List, [], ◌∷◌, arith, length,
  is_none, ◌&&◌, ◌∙◌, Exception,
}
use aionetx.Events.{ConnectionState, created, connecting, connected, closing, closed}
use aionetx.Dispatcher.Context.{TaskContext}
use aionetx.Connection.{
  World, CloseArgs, Caller, publishes, of_close_lifecycle, of_deferred_close, is_closed_state,
  update,
}
use aionetx.Connection.Open.{
  start_section, opening_section, forget_opening, opened_section, open_failed_section,
  reading_section, is_startable,
}
use aionetx.Connection.Close.{
  close_section, start_lifecycle, defer_close_event, ensure_deferred_close_publication_waiter,
  finalize_section, publication_section, lifecycle_section, deferred_section, settle_deferred,
  publisher_failed, publisher_section, ensure_waiter, publisher_if, defers, deferral,
  handler_in_flight, mark_deferred,
}
use aionetx.Connection.Steps.{
  Step, starts, opens, is_opened, fails_to_open, forgets_opening, starts_to_read, closes,
  asks_to_defer, fails_to_tear_down, ensures_waiter, tests_after_opened, tests_after_handlers,
  fails_to_wait, finalizes_close, returns, is_published, is_over, others, lifecycle_goes_on,
  lifecycle_ends, publisher_ends, deferred_ends, deferred_goes_on, finalize_goes_on, caller_ends,
  publication_ends, in_task,
}
use aionetx.Connection.Invariant.Settled.{IsSettled, count_if}

pub data Phase : Type 0 where
  idle up going_down shut : Phase
  -- The closed event was published, with this previous state.
  announced : (previous : ConnectionState) → Phase

pub data Advance : Phase → Phase → Type 0 where
  comes_up : Advance idle up
  drops_idle : Advance idle going_down
  drops : Advance up going_down
  shuts_idle : Advance idle shut
  shuts_up : Advance up shut
  shuts : Advance going_down shut
  announces :
      (previous : ConnectionState)
      → is_closed_state previous ≡ false
      → Advance shut (announced previous)

abbrev pub phase_of_state : ConnectionState → Phase
phase_of_state created = idle
phase_of_state connecting = idle
phase_of_state connected = up
phase_of_state closing = going_down
phase_of_state closed = shut

abbrev phase_of : ConnectionState → List ConnectionState → Phase
phase_of s [] = phase_of_state s
phase_of s (previous ∷ published) = announced previous

-- The phase stays, or advances by one.
abbrev pub Advances : Phase → Phase → Type 0
Advances p q = (q ≡ p) ⊎ Advance p q

-- The moves of the state that the sections make.
abbrev Moves : ConnectionState → ConnectionState → Type 0
Moves s s' =
    (s' ≡ s)
    ⊎ (s' ≡ closed)
    ⊎ ((is_startable s ≡ true) × (s' ≡ connected))
    ⊎ ((is_closed_state s ≡ false) × (s' ≡ closing))

advance_shut : (s : ConnectionState) → Advances (phase_of_state s) shut
advance_shut created = inr shuts_idle
advance_shut connecting = inr shuts_idle
advance_shut connected = inr shuts_up
advance_shut closing = inr shuts
advance_shut closed = inl refl

advance_up : (s : ConnectionState) → is_startable s ≡ true → Advances (phase_of_state s) up
advance_up created e = inr comes_up
advance_up connecting e = inr comes_up
advance_up connected e = cc
advance_up closing e = cc
advance_up closed e = cc

advance_down :
    (s : ConnectionState) → is_closed_state s ≡ false → Advances (phase_of_state s) going_down
advance_down created e = inr drops_idle
advance_down connecting e = inr drops_idle
advance_down connected e = inr drops
advance_down closing e = inl refl
advance_down closed e = cc

Moves-Advances :
    (s s' : ConnectionState) (published : List ConnectionState)
    → Moves s s'
    → Advances (phase_of s published) (phase_of s' published)
Moves-Advances s s' (p ∷ published) m = inl refl
Moves-Advances s s' [] (inl e) = inl (rw e refl)
Moves-Advances s s' [] (inr (inl e)) = rw e (advance_shut s)
Moves-Advances s s' [] (inr (inr (inl (h, e)))) = rw e (advance_up s h)
Moves-Advances s s' [] (inr (inr (inr (h, e)))) = rw e (advance_down s h)

no_events :
    (published : List ConnectionState) (b : Bool)
    → length published ≡ count_if b
    → b ≡ false
    → published ≡ []
no_events [] b h e = refl
no_events (p ∷ published) b h e = ground (arith, h, e)

module _ {F : Type 0} where
  abbrev pub phase : World F → Phase
  phase w = phase_of w.connection.state w.published

  -- A step that publishes nothing.
  abbrev Quietly : World F → World F → Type 0
  Quietly w v = Moves w.connection.state v.connection.state × (v.published ≡ w.published)

  Quietly-Advances : (w v : World F) → Quietly w v → Advances (phase w) (phase v)
  Quietly-Advances w v (m, e) =
      rw e (Moves-Advances w.connection.state v.connection.state w.published m)

  starts-Quietly : (w : World F) → Quietly w (start_section w).0
  unfolding start_section
  starts-Quietly w = ground arith

  closes-Quietly : (ctx : TaskContext) (w : World F) → Quietly w (close_section ctx w).0
  unfolding close_section start_lifecycle
  closes-Quietly ctx w = ground arith

  -- What creating a publisher or a waiter leaves.
  abbrev Same : World F → World F → Type 0
  Same w v = (v.connection.state ≡ w.connection.state) × (v.published ≡ w.published)

  publisher_if-Same : (b : Bool) (w : World F) → Same w (publisher_if b w)
  publisher_if-Same false w = (refl, refl)
  publisher_if-Same true w = ground arith

  waiter-Same : (w : World F) → Same w (ensure_waiter w)
  waiter-Same w = ground arith

  deferral-Quietly :
      (b : Bool) (w v : World F) (waiter : Option ℕ)
      → Same (update mark_deferred w) v
      → Quietly w (deferral b w v waiter).0
  deferral-Quietly true w v waiter h = (inr (inl h.0), h.1)
  deferral-Quietly false w v waiter h = (inl refl, refl)

  defers-Quietly :
      (ctx : TaskContext) (args : CloseArgs) (w : World F)
      → Quietly w (defer_close_event ctx args w).0
  unfolding defer_close_event
  defers-Quietly ctx args w =
      let b = is_none w.connection.opening_event_task && handler_in_flight ctx args w in
      let w' = update mark_deferred w in
      let (h, k) = publisher_if-Same b (ensure_waiter w') in
      let (h', k') = waiter-Same w' in
      deferral-Quietly (defers ctx args w) w (publisher_if b (ensure_waiter w')) _ (h ∙ h', k ∙ k')

  ensures-Quietly : (w : World F) → Quietly w (ensure_deferred_close_publication_waiter w).0
  unfolding ensure_deferred_close_publication_waiter
  ensures-Quietly w =
      let w' = record w { connection = record (w.connection) { close_event_deferred = true } } in
      ground (arith, publisher_if-Same true (ensure_waiter w'), waiter-Same w')

  finalizes-Quietly : (w : World F) → Quietly w (finalize_section w).0
  unfolding finalize_section
  finalizes-Quietly w = ground arith

  deferred_ends_quietly :
      (t : ℕ) (in_publisher : Bool) (error : Option Exception) (w : World F)
      → Same w (deferred_ends t in_publisher error w)
  unfolding deferred_ends publisher_ends publisher_section publisher_failed
  deferred_ends_quietly t false error w = (refl, refl)
  deferred_ends_quietly t true none w = (refl, refl)
  deferred_ends_quietly t true (some e) w = (refl, refl)

  deferred_goes_on-Quietly :
      (t : ℕ) (in_publisher : Bool) (w : World F) → Quietly w (deferred_goes_on t in_publisher w)
  unfolding deferred_goes_on deferred_section
  deferred_goes_on-Quietly t in_publisher w =
      ground (arith, deferred_ends_quietly t in_publisher none w)

  caller_ends_quietly :
      (t : ℕ) (caller : Caller) (error : Option Exception) (w : World F)
      → Same w (caller_ends t caller error w)
  unfolding caller_ends lifecycle_ends lifecycle_section settle_deferred
  caller_ends_quietly t of_close_lifecycle error w = (refl, refl)
  caller_ends_quietly t (of_deferred_close waiter in_publisher) error w =
      deferred_ends_quietly t in_publisher error (settle_deferred waiter error w)

  publication_Advances :
      (t : ℕ) (previous : ConnectionState) (success : Bool) (w : World F)
      → w.tasks t ≡ some (publishes previous)
      → IsSettled w
      → Advances (phase w) (phase (publication_ends t previous success w))
  unfolding publication_ends publication_section
  publication_Advances t previous false w h i = inl refl
  publication_Advances t previous true w h i =
      let (silent, is_closed, is_open) = i.ready t previous h in
      let e = no_events w.published w.connection.closed_event_published i.counted silent in
      rw (e, is_closed) (inr (announces previous is_open))

  unchanged_Advances : (w v : World F) → Same w v → Advances (phase w) (phase v)
  unchanged_Advances w v (e, h) = inl (rw (e, h) refl)

  -- Each step leaves the phase or advances it along the diagram by one.
  pub Step-Advances : (w v : World F) → Step w v → IsSettled w → Advances (phase w) (phase v)
  unfolding opening_section opened_section open_failed_section forget_opening reading_section
      lifecycle_goes_on finalize_goes_on lifecycle_ends publisher_ends deferred_ends
  Step-Advances w v starts i = Quietly-Advances w v (starts-Quietly w)
  Step-Advances w v (opens ctx) i = unchanged_Advances w v (ground arith)
  Step-Advances w v (is_opened ctx) i = inl refl
  Step-Advances w v fails_to_open i = inl refl
  Step-Advances w v (forgets_opening ctx) i = inl refl
  Step-Advances w v starts_to_read i = unchanged_Advances w v (ground arith)
  Step-Advances w v (closes ctx) i = Quietly-Advances w v (closes-Quietly ctx w)
  Step-Advances w v (asks_to_defer t args h) i =
      Quietly-Advances w v (defers-Quietly (in_task t args.context) args w)
  Step-Advances w v (fails_to_tear_down t args h) i = inl refl
  Step-Advances w v ensures_waiter i = Quietly-Advances w v (ensures-Quietly w)
  Step-Advances w v (tests_after_opened t h) i =
      Quietly-Advances w v (deferred_goes_on-Quietly t false w)
  Step-Advances w v (tests_after_handlers t h) i =
      Quietly-Advances w v (deferred_goes_on-Quietly t true w)
  Step-Advances w v (fails_to_wait t e h) i =
      unchanged_Advances w v (deferred_ends_quietly t true (some e) w)
  Step-Advances w v (finalizes_close t caller h) i = Quietly-Advances w v (finalizes-Quietly w)
  Step-Advances w v (returns t caller error h) i =
      unchanged_Advances w v (caller_ends_quietly t caller error w)
  Step-Advances w v (is_published t previous success h) i =
      publication_Advances t previous success w h i
  Step-Advances w v (is_over t) i = inl refl
  Step-Advances w v (others d n m l) i = inl refl
