-- ===== src/Lifecycle/Apply.antt =====
-- What `LifecycleTransitionPublisher.apply` and the two terminal helpers do to a component.
use aionetx.Base.{
  ◌≡◌, ◌⊎◌, inl, inr, refl, ok, Result, Option, none, some, List, [], ◌∷◌, arith, ◌>>=◌, >>=-eq-ok,
  true, false, ◌∙◌,
}
use aionetx.Lifecycle.{
  ComponentLifecycleState, stopped, starting, running, stopping, ComponentLifecycleChangedEvent,
  Publisher, same_state, apply, notify, assert_legal_lifecycle_transition, opt_cons,
  collect_terminal_lifecycle_events,
}
use aionetx.Lifecycle.Graph.{◌⟶◌, interrupt, stop, finish, assert_legal_iff}

-- What a publisher relies on of the component that it was built for: the state that it writes is
-- the state that it reads, also after the component's own bookkeeping.
pub record IsLens {ℓ} {C : Type ℓ} (p : Publisher C) : Type ℓ where
  pub reads_back : (s : ComponentLifecycleState) (c : C) → p.get_state (p.set_state s c) ≡ s
  pub bookkeeping :
      (s : ComponentLifecycleState) (c : C)
      → p.get_state (notify p.on_state_applied s c) ≡ p.get_state c

-- The events lead from one state to another along edges of the diagram, without a gap.
abbrev pub Chain :
    ComponentLifecycleState → List ComponentLifecycleChangedEvent → ComponentLifecycleState → Type 0
Chain s [] t = s ≡ t
Chain s (e ∷ es) t = (e.previous ≡ s) × (s ⟶ e.current) × Chain e.current es t

Chain-opt_cons :
    (s t u : ComponentLifecycleState) (o : Option ComponentLifecycleChangedEvent)
    (es : List ComponentLifecycleChangedEvent)
    → Chain s (opt_cons o []) t
    → Chain t es u
    → Chain s (opt_cons o es) u
Chain-opt_cons s t u none es h k = rw h k
Chain-opt_cons s t u (some e) es h k = (h.0, h.1, rw h.2 k)

same_state-eq : (s t : ComponentLifecycleState) → same_state s t ≡ true → s ≡ t
same_state-eq s t h = ground arith

not_same_state : (s t : ComponentLifecycleState) → same_state s t ≡ false → (s ≡ t) → ⊥
not_same_state s t h e = ground arith

module _ {ℓ} {C : Type ℓ} (p : Publisher C) where
  -- The events of a sequence of requests, in order, with the component after them.
  unfoldable pub apply_all :
      List ComponentLifecycleState → C → Result (List ComponentLifecycleChangedEvent × C)
  apply_all [] c = ok ([], c)
  apply_all (t ∷ ts) c = do
    (o, c') ← apply p t c
    (es, c'') ← apply_all ts c'
    ok (opt_cons o es, c'')

  -- What one request makes: no event and no change, or an event along an edge.
  abbrev Made : ComponentLifecycleState → C → Option ComponentLifecycleChangedEvent → C → Type ℓ
  Made t c o c' =
      ((o ≡ none) × (c' ≡ c) × (p.get_state c ≡ t))
      ⊎ ((e : ComponentLifecycleChangedEvent) × (o ≡ some e)
          × (e.resource_id ≡ p.resource_id)
          × (e.previous ≡ p.get_state c)
          × (e.current ≡ t)
          × (p.get_state c ⟶ t)
          × (c' ≡ notify p.on_state_applied t (p.set_state t c)))

  edge_of_legal :
      (t : ComponentLifecycleState) (c : C)
      → same_state (p.get_state c) t ≡ false
      → assert_legal_lifecycle_transition p.role (p.get_state c) t ≡ ok tt
      → p.get_state c ⟶ t
  edge_of_legal t c d h = elim ((assert_legal_iff p.role (p.get_state c) t).0 h) [
    | inl e ↦ absurd (not_same_state _ _ d e)
    | inr e ↦ e
  ]

  apply-Made :
      (t : ComponentLifecycleState) (c : C) (o : Option ComponentLifecycleChangedEvent) (c' : C)
      → apply p t c ≡ ok (o, c')
      → Made t c o c'
  unfolding apply
  apply-Made t c o c' h = ground (arith, same_state-eq (p.get_state c) t, edge_of_legal t c)

  abbrev event : ComponentLifecycleState → C → ComponentLifecycleChangedEvent
  event t c = record {
    resource_id = p.resource_id;
    previous = p.get_state c;
    current = t;
    reason = none;
  }

  abbrev after : ComponentLifecycleState → C → C
  after t c = notify p.on_state_applied t (p.set_state t c)

  apply_edge :
      (s t : ComponentLifecycleState) (c : C)
      → p.get_state c ≡ s
      → s ⟶ t
      → same_state s t ≡ false
      → apply p t c ≡ ok (some (event t c), after t c)
  unfolding apply
  apply_edge s t c h e d = ground (arith, (assert_legal_iff p.role s t).1 (inr e))

module _ {ℓ} {C : Type ℓ} (p : Publisher C) (lens : IsLens p) where
  get_state-applied :
      (t : ComponentLifecycleState) (c : C)
      → p.get_state (notify p.on_state_applied t (p.set_state t c)) ≡ t
  get_state-applied t c = lens.bookkeeping t (p.set_state t c) ∙ lens.reads_back t c

  apply-Chain :
      (t : ComponentLifecycleState) (c : C) (o : Option ComponentLifecycleChangedEvent) (c' : C)
      → apply p t c ≡ ok (o, c')
      → Chain (p.get_state c) (opt_cons o []) (p.get_state c') × (p.get_state c' ≡ t)
  apply-Chain t c o c' h = elim (apply-Made p t c o c' h) [
    | inl (n, same, there) ↦ rw (n, same) (refl, there)
    | inr (e, n, _, prev, cur, edge, same) ↦
        rw (n, same, get_state-applied t c, prev, cur) ((refl, edge, refl), refl)
  ]

  Chain-split :
      (s : ComponentLifecycleState) (es : List ComponentLifecycleChangedEvent) (c' : C)
      (o : Option ComponentLifecycleChangedEvent) (es' : List ComponentLifecycleChangedEvent)
      (c₂ : C)
      → ◌≡◌ {A = Result (List ComponentLifecycleChangedEvent × C)}
          (ok (opt_cons o es', c₂))
          (ok (es, c'))
      → Chain s (opt_cons o es') (p.get_state c₂)
      → Chain s es (p.get_state c')
  Chain-split s es c' o es' c₂ h k =
      let first : opt_cons o es' ≡ es = ground arith in
      let second : c₂ ≡ c' = ground arith in rw (← first, ← second) k

  -- For a component whose state is read as it was set, also after its bookkeeping: the events of
  -- any accepted sequence of requests lead, along the diagram and without a gap, from the state
  -- before them to the state after them.
  pub apply_all-Chain :
      (ts : List ComponentLifecycleState) (c : C) (es : List ComponentLifecycleChangedEvent)
      (c' : C)
      → apply_all p ts c ≡ ok (es, c')
      → Chain (p.get_state c) es (p.get_state c')
  unfolding apply_all
  apply_all-Chain [] c es c' h = ground arith
  apply_all-Chain (t ∷ ts) c es c' h =
      let ((o, c₁), first, rest) = >>=-eq-ok (apply p t c) _ h in
      let ((es', c₂), later, last) = >>=-eq-ok (apply_all p ts c₁) _ rest in
      let links = apply-Chain t c o c₁ first in
      Chain-split _ es c' o es' c₂ last
        (Chain-opt_cons _ _ _ o es' links.0 (apply_all-Chain ts c₁ es' c₂ later))

  collect_from :
      (s : ComponentLifecycleState) (c : C)
      → p.get_state c ≡ s
      → (es : List ComponentLifecycleChangedEvent) × (c' : C) × (collect_terminal_lifecycle_events p
            c
          ≡ ok (es, c'))
        × (p.get_state c' ≡ stopped)
        × Chain s es stopped
        × (es ≡ [] → s ≡ stopped)
  unfolding collect_terminal_lifecycle_events
  collect_from stopped c h = ([], c, ground arith, h, refl, λ e. refl)
  collect_from stopping c h = (
    event p stopped c ∷ [],
    after p stopped c,
    ground (arith, apply_edge p stopping stopped c h finish refl),
    get_state-applied stopped c,
    (h, finish, refl),
    λ e. cc,
  )
  collect_from starting c h =
      let c' = after p stopping c in
      (
        event p stopping c ∷ event p stopped c' ∷ [],
        after p stopped c',
        ground (
          arith,
          apply_edge p starting stopping c h interrupt refl,
          apply_edge p stopping stopped c' (get_state-applied stopping c) finish refl,
          get_state-applied stopping c,
        ),
        get_state-applied stopped c',
        (h, interrupt, (get_state-applied stopping c, finish, refl)),
        λ e. cc,
      )
  collect_from running c h =
      let c' = after p stopping c in
      (
        event p stopping c ∷ event p stopped c' ∷ [],
        after p stopped c',
        ground (
          arith,
          apply_edge p running stopping c h stop refl,
          apply_edge p stopping stopped c' (get_state-applied stopping c) finish refl,
          get_state-applied stopping c,
        ),
        get_state-applied stopped c',
        (h, stop, (get_state-applied stopping c, finish, refl)),
        λ e. cc,
      )

  -- For a component whose state is read as it was set, also after its bookkeeping: from every
  -- state both terminal helpers succeed, the component is stopped afterwards, the events to
  -- publish lead along the diagram from the state before to STOPPED, and there is none only if the
  -- component was stopped already.
  pub collect_terminal_lifecycle_events-stopped :
      (c : C)
      → (es : List ComponentLifecycleChangedEvent) × (c' : C) × (collect_terminal_lifecycle_events p
            c
          ≡ ok (es, c'))
        × (p.get_state c' ≡ stopped)
        × Chain (p.get_state c) es stopped
        × (es ≡ [] → p.get_state c ≡ stopped)
  collect_terminal_lifecycle_events-stopped c = collect_from (p.get_state c) c refl
