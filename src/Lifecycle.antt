-- ===== src/Lifecycle.antt =====
-- Lifecycle states of managed components and the publication of their transitions:
-- src/aionetx/api/component_lifecycle_state.py, src/aionetx/api/component_lifecycle_changed_event.py
-- and src/aionetx/implementations/asyncio_impl/lifecycle_internal.py. A component is a value of any
-- type `C`; the callbacks that the publisher is built from are the fields of `Publisher`.
pub mod Graph
pub mod Apply
mod Tests
use aionetx.Base.{
  String, Bool, true, false, not, ◌||◌, Option, none, some, List, [], ◌∷◌, if◌then◌else◌, Exception,
  runtime_error, Result, ok, err, ◌>>=◌, ◌>>◌, is_none,
}

pub data ComponentLifecycleState : Type 0 where
  stopped starting running stopping : ComponentLifecycleState

abbrev pub same_state : ComponentLifecycleState → ComponentLifecycleState → Bool
same_state stopped stopped = true
same_state starting starting = true
same_state running running = true
same_state stopping stopping = true
same_state _ _ = false

pub data LifecycleRole : Type 0 where
  tcp_client tcp_server udp_receiver multicast_receiver : LifecycleRole

abbrev same_role : LifecycleRole → LifecycleRole → Bool
same_role tcp_client tcp_client = true
same_role tcp_server tcp_server = true
same_role udp_receiver udp_receiver = true
same_role multicast_receiver multicast_receiver = true
same_role _ _ = false

-- The field `reason` keeps its default everywhere in the code that is modelled.
pub record ComponentLifecycleChangedEvent : Type 0 where
  pub resource_id : String
  pub previous : ComponentLifecycleState
  pub current : ComponentLifecycleState
  pub reason : Option String

-- `_BASE_TRANSITIONS`.
base_transitions : ComponentLifecycleState → List ComponentLifecycleState
base_transitions stopped = starting ∷ []
base_transitions starting = running ∷ stopping ∷ stopped ∷ []
base_transitions running = stopping ∷ []
base_transitions stopping = stopped ∷ []

-- `frozenset(LifecycleRole)`.
roles_using_base_policy : List LifecycleRole
roles_using_base_policy = tcp_client ∷ tcp_server ∷ udp_receiver ∷ multicast_receiver ∷ []

abbrev elem_state : ComponentLifecycleState → List ComponentLifecycleState → Bool
elem_state s [] = false
elem_state s (t ∷ ts) = same_state s t || elem_state s ts

abbrev elem_role : LifecycleRole → List LifecycleRole → Bool
elem_role r [] = false
elem_role r (q ∷ qs) = same_role r q || elem_role r qs

unfoldable pub assert_legal_lifecycle_transition :
    LifecycleRole → ComponentLifecycleState → ComponentLifecycleState → Result (Unit {0})
unfolding base_transitions roles_using_base_policy
assert_legal_lifecycle_transition role previous target =
    if same_state previous target
    then ok tt
    else (if not (elem_role role roles_using_base_policy)
        then err runtime_error
        else (if not (elem_state target (base_transitions previous))
            then err runtime_error
            else ok tt))

pub record Publisher {ℓ} (C : Type ℓ) : Type ℓ where
  pub resource_id : String
  pub role : LifecycleRole
  pub get_state : C → ComponentLifecycleState
  pub set_state : ComponentLifecycleState → C → C
  pub on_state_applied : Option (ComponentLifecycleState → C → C)

-- `if event is not None: events.append(event)`, before what follows.
abbrev pub opt_cons :
    Option ComponentLifecycleChangedEvent
    → List ComponentLifecycleChangedEvent
    → List ComponentLifecycleChangedEvent
opt_cons none es = es
opt_cons (some e) es = e ∷ es

module _ {ℓ} {C : Type ℓ} where
  abbrev notify : Option (ComponentLifecycleState → C → C) → ComponentLifecycleState → C → C
  notify none target c = c
  notify (some f) target c = f target c

  -- `LifecycleTransitionPublisher.apply`: the event to publish and the component after it.
  unfoldable pub apply :
      Publisher C → ComponentLifecycleState → C → Result (Option ComponentLifecycleChangedEvent × C)
  apply p target c =
      if same_state (p.get_state c) target
      then ok (none, c)
      else (assert_legal_lifecycle_transition p.role (p.get_state c) target
          >> ok (
            some (record {
              resource_id = p.resource_id;
              previous = p.get_state c;
              current = target;
              reason = none;
            }),
            notify p.on_state_applied target (p.set_state target c),
          ))

  -- The call of `apply_transition`, of which the two helpers below want an event.
  abbrev expect_event :
      Option ComponentLifecycleChangedEvent × C → Result (Option ComponentLifecycleChangedEvent × C)
  expect_event (none, c) = err runtime_error
  expect_event (some e, c) = ok (some e, c)

  unfoldable pub apply_stopping_transition_if_active :
      Publisher C → C → Result (Option ComponentLifecycleChangedEvent × C)
  apply_stopping_transition_if_active p c =
      if not (elem_state (p.get_state c) (running ∷ starting ∷ []))
      then ok (none, c)
      else (apply p stopping c >>= expect_event)

  unfoldable pub apply_stopped_transition_if_stopping :
      Publisher C → C → Result (Option ComponentLifecycleChangedEvent × C)
  apply_stopped_transition_if_stopping p c =
      if not (same_state (p.get_state c) stopping)
      then ok (none, c)
      else (apply p stopped c >>= expect_event)

  -- `_collect_terminal_lifecycle_events` of tcp_client_supervision.py, without the lock.
  unfoldable pub collect_terminal_lifecycle_events :
      Publisher C → C → Result (List ComponentLifecycleChangedEvent × C)
  unfolding apply_stopping_transition_if_active apply_stopped_transition_if_stopping
  collect_terminal_lifecycle_events p c = do
    (stopping_event, c') ← apply_stopping_transition_if_active p c
    (stopped_event, c'') ← apply_stopped_transition_if_stopping p c'
    ok (opt_cons stopping_event (opt_cons stopped_event []), c'')
