-- ===== src/Server/Invariant.antt =====
-- What every hold of the state lock of asyncio_tcp_server.py keeps of the server.
use aionetx.Base.{
  ℕ, suc, String, ◌≤◌, ◌≡◌, true, Option, none, some, List, [], ◌∷◌, arith, length, Bool-cases, inl,
  inr, is_some, elem,
}
use aionetx.Lifecycle.{
  running, assert_legal_lifecycle_transition, apply, apply_stopping_transition_if_active,
  apply_stopped_transition_if_stopping,
}
use aionetx.Connection.Create.{AddressInfo}
use aionetx.Server.{has_key, insert, remove, notify_status_changed, publisher}
use aionetx.Server.Dictionary.{
  length-insert, length-remove, has_key-at, has_key-insert, has_key-remove,
}
use aionetx.Server.Registry.{
  accept_section, register_heartbeat_section, unregister_heartbeat_section,
  connection_closed_section,
}
use aionetx.Server.Sections.{
  start_section, bound_section, bind_failed_section, rollback_section, plan_stop, stopped_section,
  release_section, apply_lifecycle_state,
}
use aionetx.Server.Steps.{World, holds, begins_stop, ends_stop}

-- The keys of one dictionary are among another's.
abbrev pub Covers : List (String × ℕ) → List (String × ℕ) → Type 0
Covers connections senders =
    (id : String) → has_key id senders ≡ true → has_key id connections ≡ true

-- Registering one more connection, or one more sender for a registered connection.
Covers-connection :
    (connections senders : List (String × ℕ)) (id : String) (v : ℕ)
    → Covers connections senders
    → Covers (insert id v connections) senders
Covers-connection connections senders id v c a h =
    ground (arith, has_key-insert a id v connections, c a h)

Covers-sender :
    (connections senders : List (String × ℕ)) (id : String) (v : ℕ)
    → has_key id connections ≡ true
    → Covers connections senders
    → Covers connections (insert id v senders)
Covers-sender connections senders id v k c a h =
    ground (arith, has_key-insert a id v senders, h, k, has_key-at a id connections, c a)

Covers-remove_sender :
    (connections senders : List (String × ℕ)) (id : String)
    → Covers connections senders
    → Covers connections (remove id senders)
Covers-remove_sender connections senders id c a h =
    ground (arith, has_key-remove a id senders, h, c a)

Covers-remove_both :
    (connections senders : List (String × ℕ)) (id : String)
    → Covers connections senders
    → Covers (remove id connections) (remove id senders)
Covers-remove_both connections senders id c a h =
    ground (arith, has_key-remove a id senders, has_key-remove a id connections, h, c a)

abbrev pub owners : Option ℕ → List ℕ
owners none = []
owners (some waiter) = waiter ∷ []

module _ {F : Type 0} where
  pub record IsSound (m : ℕ) (w : World F) : Type 0 where
    pub limit : w.server.max_connections ≡ m
    pub within : length w.server.connections ≤ m
    pub covered : Covers w.server.connections w.server.heartbeat_senders
    pub listening : is_some w.server.server ≡ true → w.server.lifecycle_state ≡ running
    pub one_stop : w.stops ≡ owners w.server.stop_waiter

  pub starts-IsSound :
      (worker m : ℕ) (w : World F)
      → IsSound m w
      → IsSound m (holds (start_section worker w.server).0 w)
  unfolding start_section apply_lifecycle_state publisher apply assert_legal_lifecycle_transition
  starts-IsSound worker m w i = ground (arith, i)

  pub bound-IsSound :
      (server m : ℕ) (w : World F)
      → IsSound m w
      → IsSound m (holds (bound_section server w.server).0 w)
  unfolding bound_section apply_lifecycle_state publisher apply assert_legal_lifecycle_transition
      notify_status_changed
  bound-IsSound server m w i = ground (arith, i)

  pub bind_failed-IsSound :
      (m : ℕ) (w : World F) → IsSound m w → IsSound m (holds (bind_failed_section w.server).0 w)
  unfolding bind_failed_section apply_lifecycle_state publisher apply
      assert_legal_lifecycle_transition
  bind_failed-IsSound m w i = ground (arith, i)

  pub rollback-IsSound :
      (m : ℕ) (w : World F) → IsSound m w → IsSound m (holds (rollback_section w.server).0 w)
  unfolding rollback_section apply_lifecycle_state publisher apply assert_legal_lifecycle_transition
      notify_status_changed
  rollback-IsSound m w i = ground (arith, i)

  pub accept-IsSound :
      (build_id : AddressInfo → ℕ → String) (peer : AddressInfo) (connection m : ℕ) (w : World F)
      → IsSound m w
      → IsSound m (holds (accept_section build_id peer connection w.server).0 w)
  unfolding accept_section
  accept-IsSound build_id peer connection m w i =
      let s = w.server in
      let id = build_id peer (suc s.connection_sequence) in
      ground (
        arith,
        i,
        length-insert id connection s.connections,
        Covers-connection s.connections s.heartbeat_senders id connection i.covered,
      )

  pub heartbeat-IsSound :
      (id : String) (sender m : ℕ) (w : World F)
      → IsSound m w
      → IsSound m (holds (register_heartbeat_section id sender w.server).0 w)
  unfolding register_heartbeat_section
  heartbeat-IsSound id sender m w i =
      let s = w.server in
      elim (Bool-cases (has_key id s.connections)) [
        | inl k ↦
            ground
              (arith, i, k, Covers-sender s.connections s.heartbeat_senders id sender k i.covered)
        | inr k ↦ ground (arith, i, k)
      ]

  pub no_heartbeat-IsSound :
      (id : String) (m : ℕ) (w : World F)
      → IsSound m w
      → IsSound m (holds (unregister_heartbeat_section id w.server) w)
  unfolding unregister_heartbeat_section
  no_heartbeat-IsSound id m w i =
      ground (
        arith,
        i,
        Covers-remove_sender w.server.connections w.server.heartbeat_senders id i.covered,
      )

  pub closed-IsSound :
      (id : String) (m : ℕ) (w : World F)
      → IsSound m w
      → IsSound m (holds (connection_closed_section id w.server).0 w)
  unfolding connection_closed_section
  closed-IsSound id m w i = ground (
    arith,
    i,
    length-remove id w.server.connections,
    Covers-remove_both w.server.connections w.server.heartbeat_senders id i.covered,
  )

  pub plan_stop-IsSound :
      (waiter m : ℕ) (w : World F) → IsSound m w → IsSound m (begins_stop waiter w)
  unfolding begins_stop plan_stop apply_stopping_transition_if_active publisher apply
      assert_legal_lifecycle_transition notify_status_changed
  plan_stop-IsSound waiter m w i = ground (arith, i)

  pub stopped-IsSound :
      (m : ℕ) (w : World F) → IsSound m w → IsSound m (holds (stopped_section w.server).0 w)
  unfolding stopped_section apply_stopped_transition_if_stopping publisher apply
      assert_legal_lifecycle_transition notify_status_changed
  stopped-IsSound m w i = ground (arith, i)

  pub release-IsSound :
      (waiter m : ℕ) (w : World F)
      → elem waiter w.stops ≡ true
      → IsSound m w
      → IsSound m (ends_stop waiter w)
  unfolding ends_stop release_section
  release-IsSound waiter m w h i = ground (arith, h, i)
