-- ===== src/Lifecycle/Tests.antt =====
-- A component that counts its status notices, as the clients and servers do, and the theorems at it.
use aionetx.Base.{ℕ, suc, ◌≡◌, refl, inr, ok, none, some, List, [], ◌∷◌}
use aionetx.Lifecycle.{
  ComponentLifecycleState, stopped, starting, running, ComponentLifecycleChangedEvent, Publisher,
  tcp_server, assert_legal_lifecycle_transition, apply,
}
use aionetx.Lifecycle.Graph.{started, assert_legal_iff}
use aionetx.Lifecycle.Apply.{IsLens, Chain, apply_all, apply_all-Chain}

record Server : Type 0 where
  state : ComponentLifecycleState
  status_version : ℕ

abbrev publisher : Publisher Server
publisher = record {
  resource_id = "tcp/server/127.0.0.1/9000";
  role = tcp_server;
  get_state = λ c. c.state;
  set_state = λ s c. record c { state = s };
  on_state_applied = some (λ _ c. record c { status_version = suc c.status_version });
}

publisher-IsLens : IsLens publisher
publisher-IsLens = record { reads_back = λ s c. refl; bookkeeping = λ s c. refl }

abbrev fresh : Server
fresh = record { state = stopped; status_version = 0 }

abbrev up : Server
up = record { state = running; status_version = 2 }

abbrev change : ComponentLifecycleState → ComponentLifecycleState → ComponentLifecycleChangedEvent
change s t = record {
  resource_id = "tcp/server/127.0.0.1/9000";
  previous = s;
  current = t;
  reason = none;
}

assert_legal_iff_example : assert_legal_lifecycle_transition tcp_server starting running ≡ ok tt
assert_legal_iff_example = (assert_legal_iff tcp_server starting running).1 (inr started)

abbrev life : List ComponentLifecycleChangedEvent
life = change stopped starting ∷ change starting running ∷ []

apply_all-Chain_example : Chain stopped life running
unfolding apply apply_all assert_legal_lifecycle_transition
apply_all-Chain_example =
    apply_all-Chain publisher publisher-IsLens (starting ∷ starting ∷ running ∷ []) fresh life up
      refl
