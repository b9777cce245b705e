-- ===== src/Router.antt =====
-- `TypedEventRouter` (api/typed_event_router.py). Classes and handlers are numbers; the
-- method resolution order of the event's class and `isinstance` are arguments, since a virtual
-- subclass is an instance of a class that its order does not name.
mod Tests
use aionetx.Base.{
  ℕ, suc, ◌≤◌, ◌<◌, ◌≡◌, ◌⊎◌, inl, inr, refl, Bool, true, false, not, ◌&&◌, ◌||◌, Option, none,
  some, List, [], ◌∷◌, ◌++◌, ◌==◌, ltb, if◌then◌else◌, arith, Bool-cases, is_some, All, ◌∙◌, sym,
}

-- One entry of `enumerate(self._handlers)`.
pub record Entry : Type 0 where
  pub registration_index : ℕ
  pub event_type : ℕ
  pub handler : ℕ

-- `selected_handler`, `best_distance` and `best_registration_index`, which are None together.
pub record Selected : Type 0 where
  pub best_distance : ℕ
  pub best_registration_index : ℕ
  pub selected_handler : ℕ

-- `register`.
unfoldable pub register : (event_type handler : ℕ) → List (ℕ × ℕ) → List (ℕ × ℕ)
register event_type handler handlers = handlers ++ (event_type, handler) ∷ []

unfoldable pub enumerate_from : ℕ → List (ℕ × ℕ) → List Entry
enumerate_from i [] = []
enumerate_from i ((event_type, handler) ∷ handlers) =
    record { registration_index = i; event_type = event_type; handler = handler }
    ∷ enumerate_from (suc i) handlers

-- `event_mro.index(event_type)`, or the length of the order where it is not there.
abbrev pub index_or_length : ℕ → List ℕ → ℕ
index_or_length t [] = 0
index_or_length t (c ∷ mro) = if t == c then 0 else suc (index_or_length t mro)

some-eq : {x y : Selected} → some x ≡ some y → x ≡ y
some-eq h = cc

module _ (mro : List ℕ) (is_instance : ℕ → Bool) where
  abbrev pub distance : Entry → ℕ
  distance entry = index_or_length entry.event_type mro

  abbrev pub selected_by : Entry → Selected
  selected_by entry = record {
    best_distance = distance entry;
    best_registration_index = entry.registration_index;
    selected_handler = entry.handler;
  }

  abbrev is_better : Entry → Option Selected → Bool
  is_better entry none = true
  is_better entry (some s) =
      ltb (distance entry) s.best_distance
      || (distance entry == s.best_distance
          && ltb entry.registration_index s.best_registration_index)

  -- The body of the loop.
  abbrev pub consider : Entry → Option Selected → Option Selected
  consider entry s =
      if not (is_instance entry.event_type)
      then s
      else (if is_better entry s then some (selected_by entry) else s)

  unfoldable pub select_from : List Entry → Option Selected → Option Selected
  select_from [] s = s
  select_from (entry ∷ entries) s = select_from entries (consider entry s)

  -- `dispatch`: the handler to await, and whether there is one.
  unfoldable pub dispatch : List (ℕ × ℕ) → Option Selected × Bool
  unfolding select_from enumerate_from
  dispatch handlers = let s = select_from (enumerate_from 0 handlers) none in (s, is_some s)

  -- The selection is at least as good as an entry: closer, or as close and not registered later.
  abbrev pub Beats : Option Selected → Entry → Type 0
  Beats none entry = ⊥
  Beats (some s) entry =
      (s.best_distance < distance entry)
      ⊎ ((s.best_distance ≡ distance entry)
          × (s.best_registration_index ≤ entry.registration_index))

  -- The selection is one of the entries, of which the event is an instance.
  abbrev pub Among : Selected → List Entry → Type 0
  Among s [] = ⊥
  Among s (entry ∷ entries) =
      ((is_instance entry.event_type ≡ true) × (s ≡ selected_by entry)) ⊎ Among s entries

  abbrev pub BeatsMatch : Option Selected → Entry → Type 0
  BeatsMatch s entry = is_instance entry.event_type ≡ true → Beats s entry

  consider-Beats :
      (entry other : Entry) (s : Option Selected) → Beats s other → Beats (consider entry s) other
  consider-Beats entry other s b = ground (arith, b)

  consider-BeatsMatch : (entry : Entry) (s : Option Selected) → BeatsMatch (consider entry s) entry
  consider-BeatsMatch entry s h = ground (arith, h)

  select_from-Beats :
      (entries : List Entry) (other : Entry) (s : Option Selected)
      → Beats s other
      → Beats (select_from entries s) other
  unfolding select_from
  select_from-Beats [] other s b = b
  select_from-Beats (entry ∷ entries) other s b =
      select_from-Beats entries other (consider entry s) (consider-Beats entry other s b)

  select_from-BeatsMatch :
      (entries : List Entry) (s : Option Selected)
      → All (BeatsMatch (select_from entries s)) entries
  unfolding select_from
  select_from-BeatsMatch [] s = tt
  select_from-BeatsMatch (entry ∷ entries) s = (
    (λ h. select_from-Beats entries entry (consider entry s) (consider-BeatsMatch entry s h)),
    select_from-BeatsMatch entries (consider entry s),
  )

  consider-cases :
      (entry : Entry) (s : Option Selected)
      → (consider entry s ≡ s)
        ⊎ ((is_instance entry.event_type ≡ true) × (consider entry s ≡ some (selected_by entry)))
  consider-cases entry s = elim (Bool-cases (is_instance entry.event_type)) [
    | inl e ↦ elim (Bool-cases (is_better entry s)) [
      | inl b ↦ inr (e, rw (e, b) refl)
      | inr b ↦ inl (rw (e, b) refl)
    ]
    | inr e ↦ inl (rw e refl)
  ]

  select_from-Among :
      (entries : List Entry) (s : Option Selected) (r : Selected)
      → select_from entries s ≡ some r
      → (s ≡ some r) ⊎ Among r entries
  unfolding select_from
  select_from-Among [] s r h = inl h
  select_from-Among (entry ∷ entries) s r h =
      elim (select_from-Among entries (consider entry s) r h) [
        | inr m ↦ inr (inr m)
        | inl e ↦ elim (consider-cases entry s) [
          | inl q ↦ inl (sym q ∙ e)
          | inr (i, q) ↦ inr (inl (i, some-eq (sym e ∙ q)))
        ]
      ]

  -- What `dispatch` must select.
  abbrev pub Selects : List Entry → Option Selected × Bool → Type 0
  Selects entries r =
      All (BeatsMatch r.0) entries
      × ((s : Selected) → r.0 ≡ some s → Among s entries)
      × (r.1 ≡ is_some r.0)

  -- An event is dispatched to at most one handler: one that is registered for a class of which the
  -- event is an instance, and no other such handler is registered for a class that is closer in the
  -- event's method resolution order, or as close and registered earlier. `dispatch` is True
  -- exactly if there is such a handler; then one is found.
  pub dispatch-Selects :
      (handlers : List (ℕ × ℕ)) → Selects (enumerate_from 0 handlers) (dispatch handlers)
  unfolding dispatch
  dispatch-Selects handlers = (
    select_from-BeatsMatch (enumerate_from 0 handlers) none,
    (λ s h. not_before s (select_from-Among (enumerate_from 0 handlers) none s h)),
    refl,
  )
    where
      not_before :
          (s : Selected)
          → (none ≡ some s) ⊎ Among s (enumerate_from 0 handlers)
          → Among s (enumerate_from 0 handlers)
      not_before s (inl e) = cc
      not_before s (inr m) = m
