-- ===== src/Dispatcher/Context/Origin.antt =====
-- The handlers' tokens of event_dispatcher.py: entering a handler's context and leaving it.
use aionetx.Base.{
  ℕ, suc, ◌≤◌, ◌≡◌, refl, true, false, Option, some, List, [], ◌∷◌, arith, String, All, elem,
  discard, delete, str_eq, eq_iff, Option-cases, inl, inr, ==_refl,
}
use aionetx.Dispatcher.State.{Dispatcher, HandlerOrigins}
use aionetx.Dispatcher.Context.{
  TaskContext, enter_handler_dispatch, leave_handler_dispatch, notify_handler_context_changed,
  current_task_has_handler_origin_context, current_task_inherits_handler_origin_context,
  current_task_is_dispatching_handler, has_active_handler_context,
}

str_eq_refl : (r : String) → str_eq r r ≡ true
str_eq_refl r = (eq_iff r r).1 refl

discard-fresh : (n : ℕ) (ts : List ℕ) → All (λ t. t ≤ n) ts → discard (suc n) ts ≡ ts
discard-fresh n [] h = refl
discard-fresh n (t ∷ ts) h = ground (arith, discard-fresh n ts h.1)

delete-fresh {ℓ} :
    {V : Type ℓ} (n : ℕ) (m : List (ℕ × V)) → All (λ p. p.0 ≤ n) m → delete (suc n) m ≡ m
delete-fresh n [] h = refl
delete-fresh n ((k, v) ∷ m) h = ground (arith, delete-fresh n m h.1)

elem-discard : (t : ℕ) (ts : List ℕ) → elem t (discard t ts) ≡ false
elem-discard t [] = refl
elem-discard t (x ∷ ts) = ground (arith, elem-discard t ts)

-- No token has been given out that is above `next_token`.
pub record AreGivenOut (o : HandlerOrigins) : Type 0 where
  pub tokens_le : All (λ t. t ≤ o.next_token) o.tokens
  pub resources_le : All (λ p. p.0 ≤ o.next_token) o.resources
  pub owner_tasks_le : All (λ p. p.0 ≤ o.next_token) o.owner_tasks
  pub child_tokens_le : All (λ t. t ≤ o.next_token) o.child_provenance_tokens

module _ {F : Type 0} where
  -- If no token is above the counter, then leaving a handler's context that has been entered
  -- restores the tokens, their resources, their owner tasks and the tokens of provenance, and the
  -- counter does not go back.
  pub leave-enter_handler_dispatch :
      (resource : Option String) (ctx : TaskContext) (d : Dispatcher F)
      → AreGivenOut d.origins
      → let (d', ctx', token) = enter_handler_dispatch resource ctx d in
        let left = (leave_handler_dispatch token d').origins in
        (left.tokens ≡ d.origins.tokens)
        × (left.resources ≡ d.origins.resources)
        × (left.owner_tasks ≡ d.origins.owner_tasks)
        × (left.child_provenance_tokens ≡ d.origins.child_provenance_tokens)
        × (d.origins.next_token ≤ left.next_token)
  unfolding enter_handler_dispatch leave_handler_dispatch notify_handler_context_changed
  leave-enter_handler_dispatch resource ctx d h =
      let n = d.origins.next_token in
      elim (Option-cases ctx.current_task) [
        | inl none_runs ↦
            rw (none_runs, enter_handler_dispatch) (refl, refl, refl, refl, omega arith)
        | inr (t, runs) ↦ ground (
          arith,
          runs,
          discard-fresh n d.origins.tokens h.tokens_le,
          delete-fresh n d.origins.resources h.resources_le,
          delete-fresh n d.origins.owner_tasks h.owner_tasks_le,
          discard-fresh n d.origins.child_provenance_tokens h.child_tokens_le,
        )
      ]

  -- Inside of a handler's context that a task has entered for a resource, the task is the
  -- dispatching handler of that resource, and the resource has an active handler.
  pub enter_handler_dispatch_active :
      (r : String) (t : ℕ) (ctx : TaskContext) (d : Dispatcher F)
      → ctx.current_task ≡ some t
      → let (d', ctx', token) = enter_handler_dispatch (some r) ctx d in
        (current_task_is_dispatching_handler (some r) ctx' d' ≡ true)
        × (has_active_handler_context (some r) d' ≡ true)
  unfolding enter_handler_dispatch current_task_is_dispatching_handler
      current_task_has_handler_origin_context has_active_handler_context
  enter_handler_dispatch_active r t ctx d h =
      ground
        (arith, h, str_eq_refl r, ==_refl t, ==_refl d.self_id, ==_refl (suc d.origins.next_token))

  -- Once the handler's context of a token is left, a task whose only origin is that token, also
  -- one that has inherited it, has neither a handler's authority nor its provenance, for any
  -- resource.
  pub leave_handler_dispatch_stale :
      (token i : ℕ) (resource : Option String) (ctx : TaskContext) (d : Dispatcher F)
      → ctx.handler_origin ≡ (i, token) ∷ []
      → let d' = leave_handler_dispatch (some token) d in
        (current_task_has_handler_origin_context resource ctx d' ≡ false)
        × (current_task_inherits_handler_origin_context resource ctx d' ≡ false)
  unfolding leave_handler_dispatch notify_handler_context_changed
      current_task_has_handler_origin_context current_task_inherits_handler_origin_context
  leave_handler_dispatch_stale token i resource ctx d h = elim (Option-cases ctx.current_task) [
    | inl n ↦ ground (arith, n)
    | inr (t, n) ↦ ground (arith, n, h, elem-discard token d.origins.tokens)
  ]
