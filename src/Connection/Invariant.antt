-- ===== src/Connection/Invariant.antt =====
-- What the world of a connection keeps at every step: which task holds which of the connection's
-- references, and what its flags say of the events that were published.
pub mod Owned
pub mod Settled
use aionetx.Base.{
  ℕ, suc, ◌≤◌, ◌≡◌, ◌≢◌, ◌⊎◌, inl, inr, refl, Bool, true, false, Option, none, some, List, [], ◌∷◌,
  arith, All, ◌==◌, ◌∙◌, if◌then◌else◌, Bool-cases, Option-cases, ==_iff,
}
use aionetx.Events.{ConnectionState, closed, closing}
use aionetx.Connection.{
  World, TcpConnection, CloseArgs, Caller, of_close_lifecycle, of_deferred_close, Coroutine,
  close_lifecycle, publisher, opened_barrier, finalizes, awaits, publishes, reads, is_same,
  is_closed_state, is_down, set_task, none_or_done,
}
use aionetx.Connection.Close.{clear}

-- What a task does for the connection.
pub data Duty : Type 0 where
  to_close to_publish to_defer no_duty : Duty

abbrev duty_to : Caller → Duty
duty_to of_close_lifecycle = to_close
duty_to (of_deferred_close waiter true) = to_defer
duty_to (of_deferred_close waiter false) = no_duty

abbrev pub duty : Coroutine → Duty
duty (close_lifecycle args) = to_close
duty publisher = to_defer
duty opened_barrier = no_duty
duty (finalizes caller) = duty_to caller
duty (awaits caller) = duty_to caller
duty (publishes previous) = to_publish
duty reads = no_duty

abbrev pub Tasks : Type 0
Tasks = ℕ → Option Coroutine

-- What an updated table of tasks says of a task.
abbrev Updated : ℕ → Option Coroutine → Tasks → ℕ → Coroutine → Type 0
Updated t new tasks j co = ((j ≡ t) × (new ≡ some co)) ⊎ ((j ≢ t) × (tasks j ≡ some co))

set_task-Updated :
    (t : ℕ) (new : Option Coroutine) (tasks : Tasks) (j : ℕ) (co : Coroutine)
    → set_task t new tasks j ≡ some co
    → Updated t new tasks j co
set_task-Updated t new tasks j co h = elim (Bool-cases (j == t)) [
  | inl e ↦ inl ((==_iff j t).0 e, ground (arith, e, h))
  | inr e ↦ inr (ground (arith, e), ground (arith, e, h))
]

set_task-none :
    (t : ℕ) (new : Option Coroutine) (tasks : Tasks) (j : ℕ)
    → j ≢ t
    → tasks j ≡ none
    → set_task t new tasks j ≡ none
set_task-none t new tasks j ne h = ground arith

none_is_not :
    (tasks : Tasks) (j t : ℕ) (co : Coroutine) → j ≡ t → tasks j ≡ none → tasks t ≡ some co → ⊥
none_is_not tasks j t co q h k = cc

ended : (t : ℕ) (tasks : Tasks) (j : ℕ) → tasks j ≡ none → set_task t none tasks j ≡ none
ended t tasks j h = ground arith

duty-some : (co co' : Coroutine) → some co ≡ some co' → duty co' ≡ duty co
duty-some co co' h = cc

duty-goes_on :
    (co co' co'' : Coroutine) → duty co' ≡ duty co → some co' ≡ some co'' → duty co'' ≡ duty co
duty-goes_on co co' co'' e h = duty-some co' co'' h ∙ e

module _ {F : Type 0} where
  -- The reference to the task with that duty.
  abbrev pub Holds : TcpConnection F → ℕ → Duty → Type 0
  Holds c t to_close = c.close_task ≡ some t
  Holds c t to_publish = c.close_event_task ≡ some t
  Holds c t to_defer = c.deferred_close_publish_task ≡ some t
  Holds c t no_duty = Unit

  Holds-at :
      (c : TcpConnection F) (t j : ℕ) (d d' : Duty) → j ≡ t → d' ≡ d → Holds c t d → Holds c j d'
  Holds-at c t j d d' q e h = rw (q, e) h

  -- Each task with a duty is the one that the connection refers to.
  pub record IsOwned (c : TcpConnection F) (tasks : Tasks) (next_task : ℕ) : Type 0 where
    pub fresh : (t : ℕ) → next_task ≤ t → tasks t ≡ none
    pub holds : (t : ℕ) (co : Coroutine) → tasks t ≡ some co → Holds c t (duty co)

  -- The references of one connection that another one keeps.
  abbrev pub Keeps : TcpConnection F → TcpConnection F → Type 0
  Keeps c c' =
      (c'.close_task ≡ c.close_task)
      × (c'.close_event_task ≡ c.close_event_task)
      × (c'.deferred_close_publish_task ≡ c.deferred_close_publish_task)

  pub Holds-Keeps :
      (c c' : TcpConnection F) (t : ℕ) (d : Duty) → Keeps c c' → Holds c t d → Holds c' t d
  Holds-Keeps c c' t to_close k h = k.0 ∙ h
  Holds-Keeps c c' t to_publish k h = k.1 ∙ h
  Holds-Keeps c c' t to_defer k h = k.2 ∙ h
  Holds-Keeps c c' t no_duty k h = tt

  pub IsOwned-Keeps :
      (c c' : TcpConnection F) (tasks : Tasks) (n : ℕ)
      → Keeps c c'
      → IsOwned c tasks n
      → IsOwned c' tasks n
  IsOwned-Keeps c c' tasks n k o = record {
    fresh = o.fresh;
    holds = λ t co h. Holds-Keeps c c' t (duty co) k (o.holds t co h);
  }

  -- A task goes on with the same duty.
  pub IsOwned-goes_on :
      (c : TcpConnection F) (tasks : Tasks) (n t : ℕ) (co co' : Coroutine)
      → tasks t ≡ some co
      → duty co' ≡ duty co
      → IsOwned c tasks n
      → IsOwned c (set_task t (some co') tasks) n
  IsOwned-goes_on c tasks n t co co' h e o = record {
    fresh = λ j l.
        set_task-none t (some co') tasks j (λ q. none_is_not tasks j t co q (o.fresh j l) h)
          (o.fresh j l);
    holds = λ j co'' l. elim (set_task-Updated t (some co') tasks j co'' l) [
      | inl (q, r) ↦
          Holds-at c t j (duty co) (duty co'') q (duty-goes_on co co' co'' e r) (o.holds t co h)
      | inr (q, r) ↦ o.holds j co'' r
    ];
  }

  -- A new task, to which the connection refers if it has a duty.
  pub IsOwned-create :
      (c c' : TcpConnection F) (tasks : Tasks) (n : ℕ) (co : Coroutine)
      → Holds c' n (duty co)
      → ((t : ℕ) (old : Coroutine)
          → tasks t ≡ some old
          → Holds c t (duty old)
          → Holds c' t (duty old))
      → IsOwned c tasks n
      → IsOwned c' (set_task n (some co) tasks) (suc n)
  IsOwned-create c c' tasks n co h k o = record {
    fresh = λ j l. set_task-none n (some co) tasks j (ground arith) (o.fresh j (omega arith));
    holds = λ j co'' l. elim (set_task-Updated n (some co) tasks j co'' l) [
      | inl (q, r) ↦ Holds-at c' n j (duty co) (duty co'') q (duty-some co co'' r) h
      | inr (q, r) ↦ k j co'' r (o.holds j co'' r)
    ];
  }

  -- A task ends, and the references to it may be taken back.
  pub IsOwned-ends :
      (c c' : TcpConnection F) (tasks : Tasks) (n t : ℕ)
      → ((j : ℕ) (d : Duty) → j ≢ t → Holds c j d → Holds c' j d)
      → IsOwned c tasks n
      → IsOwned c' (set_task t none tasks) n
  IsOwned-ends c c' tasks n t k o = record {
    fresh = λ j l. ended t tasks j (o.fresh j l);
    holds = λ j co'' l. elim (set_task-Updated t none tasks j co'' l) [
      | inl (q, r) ↦ cc
      | inr (q, r) ↦ k j (duty co'') q (o.holds j co'' r)
    ];
  }
