-- ===== src/Lifecycle/Graph.antt =====
-- The transition policy of lifecycle_internal.py against the diagram of docs/lifecycle.md.
use aionetx.Base.{◌≡◌, ◌↔◌, ◌⊎◌, inl, inr, true, ok, arith}
use aionetx.Lifecycle.{
  ComponentLifecycleState, stopped, starting, running, stopping, LifecycleRole, same_state,
  assert_legal_lifecycle_transition,
}

infix 40 ◌⟶◌
pub data ◌⟶◌ : ComponentLifecycleState → ComponentLifecycleState → Type 0 where
  start : stopped ⟶ starting
  started : starting ⟶ running
  interrupt : starting ⟶ stopping
  roll_back : starting ⟶ stopped
  stop : running ⟶ stopping
  finish : stopping ⟶ stopped

assert_legal-⟶ :
    (role : LifecycleRole) (s t : ComponentLifecycleState)
    → assert_legal_lifecycle_transition role s t ≡ ok tt
    → (s ≡ t) ⊎ (s ⟶ t)
unfolding assert_legal_lifecycle_transition
assert_legal-⟶ role s t h = grind (arith, start, started, interrupt, roll_back, stop, finish)

same_state_refl : (s : ComponentLifecycleState) → same_state s s ≡ true
same_state_refl s = ground arith

assert_legal_refl :
    (role : LifecycleRole) {s t : ComponentLifecycleState}
    → s ≡ t
    → assert_legal_lifecycle_transition role s t ≡ ok tt
unfolding assert_legal_lifecycle_transition
assert_legal_refl role {s} {t} h = ground (arith, same_state_refl s)

assert_legal_edge :
    (role : LifecycleRole) {s t : ComponentLifecycleState}
    → s ⟶ t
    → assert_legal_lifecycle_transition role s t ≡ ok tt
unfolding assert_legal_lifecycle_transition
assert_legal_edge role start = ground arith
assert_legal_edge role started = ground arith
assert_legal_edge role interrupt = ground arith
assert_legal_edge role roll_back = ground arith
assert_legal_edge role stop = ground arith
assert_legal_edge role finish = ground arith

-- For every role, the guard accepts a transition exactly when the state does not change or the
-- diagram has the edge.
pub assert_legal_iff :
    (role : LifecycleRole) (s t : ComponentLifecycleState)
    → (assert_legal_lifecycle_transition role s t ≡ ok tt) ↔ ((s ≡ t) ⊎ (s ⟶ t))
assert_legal_iff role s t = (
  assert_legal-⟶ role s t,
  λ h. elim h [ inl e ↦ assert_legal_refl role e | inr e ↦ assert_legal_edge role e ],
)
