-- ===== src/Dispatcher/Context.antt =====
-- Which task calls, and from where: the context variables of event_dispatcher.py, the questions
-- that the dispatcher asks of them, and its context managers, each as a function for its entry and
-- one for its exit.
pub mod Origin
use aionetx.Base.{
  ℕ, suc, String, Bool, true, false, not, ◌&&◌, ◌||◌, Option, some, none, List, [], ◌∷◌, ◌==◌,
  if◌then◌else◌, is_some, is_none, any, elem, discard, get, delete, elem_pair, str_eq,
}
use aionetx.Events.{EventDispatchMode, inline, background}
use aionetx.Dispatcher.State.{
  Dispatcher, HandlerOrigins, StopBypass, Futures, FutureState, finished, settle_once,
  has_background_worker,
}

-- What a task sees: itself, and the values of the four context variables in it.
pub record TaskContext : Type 0 where
  pub current_task : Option ℕ
  pub inline_dispatchers : List ℕ
  pub stop_await_bypass : List (ℕ × ℕ)
  pub handler_dispatch : List (ℕ × ℕ)
  pub handler_origin : List (ℕ × ℕ)

abbrev pub is_inline : EventDispatchMode → Bool
is_inline inline = true
is_inline background = false

-- `task is other`, for two values that may be None and are not both.
abbrev pub same_task : Option ℕ → Option ℕ → Bool
same_task (some t) (some w) = t == w
same_task _ _ = false

-- `resource_id is None or resources.get(token) == resource_id`.
abbrev matches_resource : Option String → Option (Option String) → Bool
matches_resource none held = true
matches_resource (some r) (some (some held)) = str_eq held r
matches_resource (some r) _ = false

-- `owner_tasks.get(token) is None or owner_tasks.get(token) == task`.
abbrev owner_allows : ℕ → Option (Option ℕ) → Bool
owner_allows t (some (some owner)) = owner == t
owner_allows t _ = true

-- `owner_tasks.get(token) == task`.
abbrev owner_is : ℕ → Option (Option ℕ) → Bool
owner_is t (some (some owner)) = owner == t
owner_is t _ = false

abbrev bypass_owner_is : ℕ → Option ℕ → Bool
bypass_owner_is t (some owner) = owner == t
bypass_owner_is t none = false

abbrev holds_resource : String → ℕ × Option String → Bool
holds_resource r p = elim p.1 [ none ↦ false | some held ↦ str_eq held r ]

abbrev enter_origin : Option String → Option ℕ → Bool → HandlerOrigins → HandlerOrigins
enter_origin resource owner gives_children o =
    let token = suc o.next_token in
    record o {
      tokens = token ∷ o.tokens;
      resources = (token, resource) ∷ o.resources;
      owner_tasks = (token, owner) ∷ o.owner_tasks;
      child_provenance_tokens =
          if gives_children then token ∷ o.child_provenance_tokens else o.child_provenance_tokens;
      next_token = token;
    }

abbrev leave_origin : ℕ → HandlerOrigins → HandlerOrigins
leave_origin token o = record o {
  tokens = discard token o.tokens;
  resources = delete token o.resources;
  owner_tasks = delete token o.owner_tasks;
  child_provenance_tokens = discard token o.child_provenance_tokens;
}

abbrev own_bypass : Option ℕ → ℕ → List (ℕ × ℕ) → List (ℕ × ℕ)
own_bypass none token owners = owners
own_bypass (some t) token owners = (token, t) ∷ owners

module _ {F : Type 0} where
  unfoldable pub current_task_is_worker : TaskContext → Dispatcher F → Bool
  current_task_is_worker ctx d = same_task ctx.current_task d.worker_task

  unfoldable pub is_in_inline_dispatch_context : TaskContext → Dispatcher F → Bool
  is_in_inline_dispatch_context ctx d = elem d.self_id ctx.inline_dispatchers

  -- One pair of `_handler_origin_context`, judged with authority.
  abbrev pub grants : Dispatcher F → ℕ → Option String → ℕ × ℕ → Bool
  grants d t resource p =
      p.0 == d.self_id
      && (elem p.1 d.origins.tokens
          && (owner_allows t (get p.1 d.origins.owner_tasks)
              && matches_resource resource (get p.1 d.origins.resources)))

  unfoldable pub current_task_has_handler_origin_context :
      Option String → TaskContext → Dispatcher F → Bool
  current_task_has_handler_origin_context resource ctx d = elim ctx.current_task [
    | none ↦ false
    | some t ↦ any (grants d t resource) ctx.handler_origin
  ]

  -- One pair of `_handler_origin_context`, judged for provenance alone.
  abbrev pub descends : Dispatcher F → ℕ → Option String → ℕ × ℕ → Bool
  descends d t resource p =
      p.0 == d.self_id
      && (elem p.1 d.origins.tokens
          && ((elem p.1 d.origins.child_provenance_tokens
                || owner_is t (get p.1 d.origins.owner_tasks))
              && matches_resource resource (get p.1 d.origins.resources)))

  unfoldable pub current_task_inherits_handler_origin_context :
      Option String → TaskContext → Dispatcher F → Bool
  current_task_inherits_handler_origin_context resource ctx d = elim ctx.current_task [
    | none ↦ false
    | some t ↦ any (descends d t resource) ctx.handler_origin
  ]

  unfoldable pub current_task_is_dispatching_handler :
      Option String → TaskContext → Dispatcher F → Bool
  unfolding current_task_has_handler_origin_context
  current_task_is_dispatching_handler resource ctx d = elim ctx.current_task [
    | none ↦ false
    | some t ↦
        elem_pair d.self_id t ctx.handler_dispatch
        && (is_none resource || current_task_has_handler_origin_context resource ctx d)
  ]

  unfoldable pub has_active_handler_context : Option String → Dispatcher F → Bool
  has_active_handler_context none d = elim d.origins.tokens [ [] ↦ false | t ∷ ts ↦ true ]
  has_active_handler_context (some r) d = any (holds_resource r) d.origins.resources

  unfoldable pub current_task_would_deliver_inline : TaskContext → Dispatcher F → Bool
  unfolding is_in_inline_dispatch_context current_task_is_worker has_background_worker
  current_task_would_deliver_inline ctx d =
      is_inline d.delivery.dispatch_mode
      || (is_in_inline_dispatch_context ctx d
          || (current_task_is_worker ctx d || not (has_background_worker d)))

  -- `_notify_handler_context_changed`.
  unfoldable pub notify_handler_context_changed : Dispatcher F → Dispatcher F
  notify_handler_context_changed d = record d {
    futures = settle_once d.origins.context_changed_waiter finished d.futures;
    origins = record (d.origins) { context_changed_waiter = none };
  }

  -- `_handler_dispatch_context`: the dispatcher, the handler's context, and the token to give back.
  unfoldable pub enter_handler_dispatch :
      Option String → TaskContext → Dispatcher F → Dispatcher F × TaskContext × Option ℕ
  enter_handler_dispatch resource ctx d = elim ctx.current_task [
    | none ↦ (d, ctx, none)
    | some t ↦ (
      record d { origins = enter_origin resource (some t) true d.origins },
      record ctx {
        handler_dispatch = (d.self_id, t) ∷ ctx.handler_dispatch;
        handler_origin = (d.self_id, suc d.origins.next_token) ∷ ctx.handler_origin;
      },
      some (suc d.origins.next_token),
    )
  ]

  unfoldable pub leave_handler_dispatch : Option ℕ → Dispatcher F → Dispatcher F
  unfolding notify_handler_context_changed
  leave_handler_dispatch none d = d
  leave_handler_dispatch (some token) d =
      notify_handler_context_changed (record d { origins = leave_origin token d.origins })

  -- `_handler_origin_context_only`.
  unfoldable pub enter_handler_origin_only :
      Option String → TaskContext → Dispatcher F → Dispatcher F × TaskContext × Option ℕ
  enter_handler_origin_only resource ctx d = (
    record d { origins = enter_origin resource ctx.current_task false d.origins },
    record ctx { handler_origin = (d.self_id, suc d.origins.next_token) ∷ ctx.handler_origin },
    some (suc d.origins.next_token),
  )

  unfoldable pub is_in_stop_await_bypass_context : TaskContext → Dispatcher F → Bool
  is_in_stop_await_bypass_context ctx d = elim ctx.current_task [
    | none ↦ false
    | some t ↦
        any
          (λ p.
            p.0 == d.self_id
            && (elem p.1 d.bypass.bypass_tokens
                && bypass_owner_is t (get p.1 d.bypass.bypass_owner_tasks)))
          ctx.stop_await_bypass
  ]

  -- `_stop_await_bypass_context`.
  unfoldable pub enter_stop_await_bypass :
      TaskContext → Dispatcher F → Dispatcher F × TaskContext × ℕ
  enter_stop_await_bypass ctx d =
      let token = suc d.bypass.next_bypass_token in
      (
        record d {
          bypass = record {
            bypass_tokens = token ∷ d.bypass.bypass_tokens;
            bypass_owner_tasks = own_bypass ctx.current_task token d.bypass.bypass_owner_tasks;
            next_bypass_token = token;
          };
        },
        record ctx { stop_await_bypass = (d.self_id, token) ∷ ctx.stop_await_bypass },
        token,
      )

  unfoldable pub leave_stop_await_bypass : ℕ → Dispatcher F → Dispatcher F
  leave_stop_await_bypass token d = record d {
    bypass = record (d.bypass) {
      bypass_tokens = discard token d.bypass.bypass_tokens;
      bypass_owner_tasks = delete token d.bypass.bypass_owner_tasks;
    };
  }

  -- `inline_delivery_context`: the context inside of it.
  unfoldable pub inline_delivery_context : TaskContext → Dispatcher F → TaskContext
  inline_delivery_context ctx d = record ctx {
    inline_dispatchers = d.self_id ∷ ctx.inline_dispatchers;
  }
