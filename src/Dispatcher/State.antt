-- ===== src/Dispatcher/State.antt =====
-- The dispatcher's state: `AsyncioEventDispatcher.__init__`, the queue items with the futures of
-- their waiters (_event_dispatcher_queue.py) and the stop policy (_event_dispatcher_policy.py).
-- Tasks, futures, dispatchers and callbacks are numbers, which stand for object identities.
use aionetx.Base.{
  ℕ, String, Bool, true, false, not, ◌&&◌, ◌||◌, Option, some, none, List, [], ◌∷◌, Exception,
  runtime_error, value_error, Result, ok, err, ◌==◌, if◌then◌else◌, is_some, is_none, require,
  ◌>>=◌, ◌>>◌, length,
}
use aionetx.Events.{EventDeliverySettings, NetworkEvent}

-- `asyncio.Future[None]`.
pub data FutureState : Type 0 where
  pending finished cancelled_future : FutureState
  failed : Exception → FutureState

-- The futures of the event loop.
abbrev pub Futures : Type 0
Futures = ℕ → FutureState

abbrev pub done : FutureState → Bool
done pending = false
done _ = true

abbrev pub settle : ℕ → FutureState → Futures → Futures
settle k s m j = if j == k then s else m j

pub record QueuedEvent (F : Type 0) : Type 0 where
  pub event : NetworkEvent F
  pub handled : Option ℕ
  pub drop_on_backpressure : Bool

-- `if handled is not None and not handled.done(): …`.
abbrev pub settle_once : Option ℕ → FutureState → Futures → Futures
settle_once none s m = m
settle_once (some k) s m = if not (done (m k)) then settle k s m else m

module _ {F : Type 0} where
  unfoldable pub complete_queued_event : QueuedEvent F → Futures → Futures
  complete_queued_event q m = settle_once q.handled finished m

  unfoldable pub drop_queued_event : QueuedEvent F → Futures → Futures
  drop_queued_event q m = settle_once q.handled (failed runtime_error) m

  unfoldable pub fail_queued_event : QueuedEvent F → Exception → Futures → Futures
  fail_queued_event q e m = settle_once q.handled (failed e) m

  -- `for queued_event in events: drop_queued_event(queued_event, …)`.
  unfoldable pub drop_queued_events : List (QueuedEvent F) → Futures → Futures
  unfolding drop_queued_event
  drop_queued_events [] m = m
  drop_queued_events (q ∷ qs) m = drop_queued_events qs (drop_queued_event q m)

  unfoldable pub fail_queued_events : List (QueuedEvent F) → Exception → Futures → Futures
  unfolding fail_queued_event
  fail_queued_events [] e m = m
  fail_queued_events (q ∷ qs) e m = fail_queued_events qs e (fail_queued_event q e m)

-- A callback is a number, by which the component's own code is told apart.
pub record DispatcherStopPolicy : Type 0 where
  pub enabled : Bool
  pub callback : Option ℕ

pub disabled : DispatcherStopPolicy
disabled = record { enabled = false; callback = none }

pub stop_component : ℕ → DispatcherStopPolicy
stop_component callback = record { enabled = true; callback = some callback }

pub validate : DispatcherStopPolicy → Result (Unit {0})
validate p =
    require (not (p.enabled && is_none p.callback)) value_error
    >> require (not (not p.enabled && is_some p.callback)) value_error

-- The counters of `runtime_stats`.
pub record Stats : Type 0 where
  pub emit_calls_total : ℕ
  pub enqueued_total : ℕ
  pub handler_dispatch_attempts_total : ℕ
  pub handler_failures_total : ℕ
  pub inline_fallback_total : ℕ
  pub dropped_backpressure_oldest_total : ℕ
  pub dropped_backpressure_newest_total : ℕ
  pub dropped_stop_phase_total : ℕ
  pub queue_peak : ℕ

-- The tokens of the handlers that run, with their resources and owner tasks.
pub record HandlerOrigins : Type 0 where
  pub tokens : List ℕ
  pub resources : List (ℕ × Option String)
  pub owner_tasks : List (ℕ × Option ℕ)
  pub child_provenance_tokens : List ℕ
  pub next_token : ℕ
  pub context_changed_waiter : Option ℕ

pub record StopBypass : Type 0 where
  pub bypass_tokens : List ℕ
  pub bypass_owner_tasks : List (ℕ × ℕ)
  pub next_bypass_token : ℕ

pub record Dispatcher (F : Type 0) : Type 0 where
  pub self_id : ℕ
  pub delivery : EventDeliverySettings
  pub error_source : Option String
  pub stop_policy_enabled : Bool
  pub stop_component_callback : Option ℕ
  pub worker_task : Option ℕ
  pub queue : List (QueuedEvent F)
  pub stopping : Bool
  pub stats : Stats
  pub origins : HandlerOrigins
  pub bypass : StopBypass
  pub futures : Futures

abbrev pub no_stats : Stats
no_stats = record {
  emit_calls_total = 0;
  enqueued_total = 0;
  handler_dispatch_attempts_total = 0;
  handler_failures_total = 0;
  inline_fallback_total = 0;
  dropped_backpressure_oldest_total = 0;
  dropped_backpressure_newest_total = 0;
  dropped_stop_phase_total = 0;
  queue_peak = 0;
}

abbrev pub no_origins : HandlerOrigins
no_origins = record {
  tokens = [];
  resources = [];
  owner_tasks = [];
  child_provenance_tokens = [];
  next_token = 0;
  context_changed_waiter = none;
}

abbrev pub no_bypass : StopBypass
no_bypass = record { bypass_tokens = []; bypass_owner_tasks = []; next_bypass_token = 0 }

-- `__init__` behind its check of the handler: which policy results from the two arguments.
pub resolve_stop_policy : Option DispatcherStopPolicy → Option ℕ → Result DispatcherStopPolicy
unfolding disabled stop_component validate
resolve_stop_policy (some p) (some callback) = err value_error
resolve_stop_policy (some p) none = validate p >> ok p
resolve_stop_policy none none = validate disabled >> ok disabled
resolve_stop_policy none (some callback) =
    validate (stop_component callback) >> ok (stop_component callback)

module _ {F : Type 0} where
  unfoldable pub init :
      (self_id : ℕ)
      → EventDeliverySettings
      → (error_source : Option String) → Option DispatcherStopPolicy
      → (stop_component_callback : Option ℕ) → Futures
      → Result (Dispatcher F)
  unfolding resolve_stop_policy
  init self_id delivery error_source stop_policy callback futures = do
    p ← resolve_stop_policy stop_policy callback
    ok (record {
      self_id = self_id;
      delivery = delivery;
      error_source = error_source;
      stop_policy_enabled = p.enabled;
      stop_component_callback = p.callback;
      worker_task = none;
      queue = [];
      stopping = false;
      stats = no_stats;
      origins = no_origins;
      bypass = no_bypass;
      futures = futures;
    })

  unfoldable pub stop_policy : Dispatcher F → DispatcherStopPolicy
  stop_policy d = record {
    enabled = d.stop_policy_enabled || is_some d.stop_component_callback;
    callback = d.stop_component_callback;
  }

  unfoldable pub has_background_worker : Dispatcher F → Bool
  has_background_worker d = is_some d.worker_task

  unfoldable pub accepting_background_events : Dispatcher F → Bool
  accepting_background_events d = not d.stopping

  -- `runtime_stats.queue_depth`.
  unfoldable pub queue_depth : Dispatcher F → ℕ
  queue_depth d = length d.queue
