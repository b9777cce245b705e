-- ===== src/Runtime/Guards.antt =====
-- The guards of runtime_utils.py, and its waits that keep a cancellation of the caller until the
-- awaited task is done.
use aionetx.Base.{
  ℕ, suc, zero, ◌≡◌, ◌↔◌, ◌⊎◌, Bool, true, false, not, ◌&&◌, ◌||◌, Option, none, some, List, [],
  ◌∷◌, ◌++◌, if◌then◌else◌, ◌==◌, ltb, Result, ok, err, require, ◌>>◌, Exception, runtime_error,
  type_error, heartbeat_configuration_error, cancelled_error, arith,
}

-- `current_loop`: the running loop, if there is one. Loops are numbers.
unfoldable pub assert_running_on_owner_loop :
    (current_loop : Option ℕ) → (owner_loop : Option ℕ) → Result ℕ
assert_running_on_owner_loop none owner_loop = err runtime_error
assert_running_on_owner_loop (some current_loop) none = ok current_loop
assert_running_on_owner_loop (some current_loop) (some owner_loop) =
    if not (current_loop == owner_loop) then err runtime_error else ok current_loop

-- What `getattr(object, name, None)` finds, and what `callable` and `inspect` say of it.
pub data Method : Type 0 where
  missing not_callable : Method
  callable : (is_coroutine_function call_is_coroutine_function : Bool) → Method

abbrev pub is_callable : Method → Bool
is_callable (callable f c) = true
is_callable _ = false

abbrev pub is_async : Method → Bool
is_async (callable f c) = f || c
is_async _ = false

-- `on_event` is the handler's attribute of that name.
unfoldable pub validate_async_event_handler : (on_event : Method) → Result (Unit {0})
validate_async_event_handler on_event =
    require (is_callable on_event) type_error >> require (is_async on_event) type_error

-- The provider is given by its attribute `create_heartbeat`.
unfoldable pub validate_heartbeat_provider :
    (enabled : Bool) → (heartbeat_provider : Option Method) → Result (Unit {0})
validate_heartbeat_provider enabled none = require (not enabled) heartbeat_configuration_error
validate_heartbeat_provider enabled (some create_heartbeat) =
    require (is_callable create_heartbeat) type_error
    >> require (is_async create_heartbeat) type_error

-- A task is given by its count of cancellation requests.
unfoldable pub is_task_being_cancelled : (task : Option ℕ) → (current_task : Option ℕ) → Bool
is_task_being_cancelled (some requests) current = ltb 0 requests
is_task_being_cancelled none none = false
is_task_being_cancelled none (some requests) = ltb 0 requests

pub data SocketOption : Type 0 where
  exclusive_addr_use : ℕ → SocketOption
  reuse_addr : SocketOption

-- The options that are set to 1; `exclusive`: the constant SO_EXCLUSIVEADDRUSE, where it exists.
unfoldable pub configure_listener_bind_socket :
    (is_win32 : Bool) → (exclusive : Option ℕ) → (allow_address_reuse : Bool) → List SocketOption
configure_listener_bind_socket is_win32 exclusive allow_address_reuse =
    let reuse = if allow_address_reuse then reuse_addr ∷ [] else [] in
    if is_win32 && not allow_address_reuse
    then elim exclusive [ none ↦ reuse | some option ↦ exclusive_addr_use option ∷ [] ]
    else reuse

-- How one `await asyncio.shield(task)` ends. In the last case a CancelledError arrives, with the
-- answers to `current_task.cancelling()` and `task.done()`.
pub data Wake : Type 0 where
  completes : Wake
  fails : Exception → Wake
  cancelled_while : (caller_cancelling task_done : Bool) → Wake

abbrev leave : Bool → Result (Unit {0})
leave true = err cancelled_error
leave false = ok tt

-- `await_task_completion_preserving_cancellation`, with `caller_cancelled`; without a result while
-- it waits.
unfoldable pub await_task_completion : Bool → List Wake → Option (Result (Unit {0}))
await_task_completion caller [] = none
await_task_completion caller (completes ∷ wakes) = some (leave caller)
await_task_completion caller (fails e ∷ wakes) = some (err e)
await_task_completion caller (cancelled_while true true ∷ wakes) = some (leave true)
await_task_completion caller (cancelled_while true false ∷ wakes) = await_task_completion true wakes
await_task_completion caller (cancelled_while false done ∷ wakes) = some (leave caller)

-- `await_future_completion_preserving_cancellation`; `outcome` is what `future.result()` gives or
-- raises, once the future is done.
unfoldable pub await_future_completion :
    (outcome : Result (Unit {0})) → Bool → List Wake → Option (Result (Unit {0}))
await_future_completion outcome caller [] = none
await_future_completion outcome caller (completes ∷ wakes) = some (outcome >> leave caller)
await_future_completion outcome caller (fails e ∷ wakes) = some (err e)
await_future_completion outcome caller (cancelled_while true true ∷ wakes) =
    some (outcome >> leave true)
await_future_completion outcome caller (cancelled_while true false ∷ wakes) =
    await_future_completion outcome true wakes
await_future_completion outcome caller (cancelled_while false done ∷ wakes) =
    some (err cancelled_error)

-- The caller is cancelled a number of times while the task runs.
abbrev pub cancellations : ℕ → List Wake
cancellations zero = []
cancellations (suc n) = cancelled_while true false ∷ cancellations n

-- However often the caller is cancelled, the wait goes on until the task is done. If the task
-- completes after that, or is found done by one more cancellation of the caller, CancelledError is
-- raised, if the caller was cancelled at all; if the task fails, its exception is raised instead.
pub await_task_completion_lem :
    (n : ℕ) (e : Exception) (wakes : List Wake) (caller : Bool)
    → (await_task_completion caller (cancellations n) ≡ none)
      × (await_task_completion caller (cancellations n ++ cancelled_while true true ∷ wakes)
          ≡ some (err cancelled_error))
      × (await_task_completion caller (cancellations n ++ completes ∷ wakes)
          ≡ some (leave (caller || ltb 0 n)))
      × (await_task_completion caller (cancellations n ++ fails e ∷ wakes) ≡ some (err e))
unfolding await_task_completion
await_task_completion_lem zero e wakes caller = ground arith
await_task_completion_lem (suc n) e wakes caller =
    ground (arith, await_task_completion_lem n e wakes true)

-- However often the caller is cancelled, the wait for a shared future goes on until that is done;
-- then the future's exception is raised if it has one, else CancelledError, if the caller was
-- cancelled at all.
pub await_future_completion_lem :
    (n : ℕ) (outcome : Result (Unit {0})) (wakes : List Wake) (caller : Bool)
    → (await_future_completion outcome caller (cancellations n) ≡ none)
      × (await_future_completion outcome caller
            (cancellations n ++ cancelled_while true true ∷ wakes)
          ≡ some (outcome >> err cancelled_error))
      × (await_future_completion outcome caller (cancellations n ++ completes ∷ wakes)
          ≡ some (outcome >> leave (caller || ltb 0 n)))
unfolding await_future_completion
await_future_completion_lem zero outcome wakes caller = ground arith
await_future_completion_lem (suc n) outcome wakes caller =
    ground (arith, await_future_completion_lem n outcome wakes true)

-- The guard passes a loop exactly if it is the running one and the owner is the same loop or not
-- set.
pub assert_running_on_owner_loop_iff :
    (current owner : Option ℕ) (loop : ℕ)
    → (assert_running_on_owner_loop current owner ≡ ok loop)
      ↔ ((current ≡ some loop) × (owner ≡ none ⊎ owner ≡ some loop))
unfolding assert_running_on_owner_loop
assert_running_on_owner_loop_iff none owner loop = ground arith
assert_running_on_owner_loop_iff (some c) none loop = ground arith
assert_running_on_owner_loop_iff (some c) (some o) loop = ground arith

abbrev pub has_async : Option Method → Bool
has_async none = false
has_async (some m) = is_async m

-- The providers that are accepted are none at all where the heartbeat is off, and those with an
-- async method; HeartbeatConfigurationError is raised exactly for an enabled heartbeat without a
-- provider.
pub validate_heartbeat_provider_lem :
    (enabled : Bool) (provider : Option Method)
    → ((validate_heartbeat_provider enabled provider ≡ ok tt)
        ↔ (((enabled ≡ false) × (provider ≡ none)) ⊎ (has_async provider ≡ true)))
      × ((validate_heartbeat_provider enabled provider ≡ err heartbeat_configuration_error)
          ↔ ((enabled ≡ true) × (provider ≡ none)))
unfolding validate_heartbeat_provider
validate_heartbeat_provider_lem enabled none = ground arith
validate_heartbeat_provider_lem enabled (some missing) = ground arith
validate_heartbeat_provider_lem enabled (some not_callable) = ground arith
validate_heartbeat_provider_lem enabled (some (callable f c)) = ground arith
