-- ===== src/Server/Stop/Traces.antt =====
-- What the owned stop of asyncio_tcp_server.py does, call by call, and the errors on the way.
use mathlib.Core.List.{append_assoc, append-nil}
use aionetx.Base.{
  ℕ, ◌≡◌, refl, Option, none, some, List, [], ◌∷◌, ◌++◌, Exception, arith, ◌∙◌, sym, ap,
}
use aionetx.Server.{StopPlan}
use aionetx.Server.Stop.{
  StopAction, closes_server, stops_heartbeat_senders, closes_connections, waits_closed, StopCalls,
  Stopping, attempt, attempt_for, attempt_all, keep_first, teardown_server_stop_resources,
}

-- What the ends of a trace say.
abbrev pub first_raised : List (StopAction × Option Exception) → Option Exception
first_raised [] = none
first_raised ((action, none) ∷ trace) = first_raised trace
first_raised ((action, some e) ∷ trace) = some e

abbrev pub actions : List (StopAction × Option Exception) → List StopAction
actions [] = []
actions ((action, end) ∷ trace) = action ∷ actions trace

abbrev pub one : {A : Type 0} → (A → StopAction) → Option A → List StopAction
one action none = []
one action (some x) = action x ∷ []

abbrev all_of : (List ℕ → StopAction) → List ℕ → List StopAction
all_of action [] = []
all_of action (x ∷ xs) = action (x ∷ xs) ∷ []

-- The resources of a plan, in the order in which they are torn down.
abbrev pub teardown_of : StopPlan → List StopAction
teardown_of plan =
    one closes_server plan.server
    ++ (all_of stops_heartbeat_senders plan.heartbeat_senders
        ++ (all_of closes_connections plan.connections ++ one waits_closed plan.server))

-- The first error is that of the trace.
abbrev pub Honest : Stopping → Type 0
Honest s = s.first_error ≡ first_raised s.trace

first_raised-append :
    (xs ys : List (StopAction × Option Exception))
    → first_raised (xs ++ ys) ≡ keep_first (first_raised xs) (first_raised ys)
first_raised-append [] ys = refl
first_raised-append ((action, none) ∷ xs) ys = first_raised-append xs ys
first_raised-append ((action, some e) ∷ xs) ys = refl

pub actions-append :
    (xs ys : List (StopAction × Option Exception)) → actions (xs ++ ys) ≡ actions xs ++ actions ys
actions-append [] ys = refl
actions-append ((action, end) ∷ xs) ys = ap (λ rest. action ∷ rest) (actions-append xs ys)

pub attempt-Honest :
    (action : StopAction) (end : Option Exception) (s : Stopping)
    → Honest s
    → Honest (attempt action end s)
attempt-Honest action end s h = ground (arith, h, first_raised-append s.trace ((action, end) ∷ []))

attempt_for-Honest :
    {A : Type 0} (action : A → StopAction) (x : Option A) (end : Option Exception) (s : Stopping)
    → Honest s
    → Honest (attempt_for action x end s)
attempt_for-Honest action none end s h = h
attempt_for-Honest action (some x) end s h = attempt-Honest (action x) end s h

attempt_all-Honest :
    (action : List ℕ → StopAction) (xs : List ℕ) (end : Option Exception) (s : Stopping)
    → Honest s
    → Honest (attempt_all action xs end s)
attempt_all-Honest action [] end s h = h
attempt_all-Honest action (x ∷ xs) end s h = attempt-Honest (action (x ∷ xs)) end s h

pub teardown-Honest :
    (calls : StopCalls) (plan : StopPlan) (s : Stopping)
    → Honest s
    → Honest (teardown_server_stop_resources calls plan s)
unfolding teardown_server_stop_resources
teardown-Honest calls plan s h =
    attempt_for-Honest waits_closed plan.server calls.on_wait_closed _ (
      attempt_all-Honest closes_connections plan.connections calls.on_connections _ (
        attempt_all-Honest stops_heartbeat_senders plan.heartbeat_senders calls.on_heartbeat_senders
          _ (attempt_for-Honest closes_server plan.server calls.on_server_close s h)))

actions-attempt_for :
    {A : Type 0} (action : A → StopAction) (x : Option A) (end : Option Exception) (s : Stopping)
    → actions (attempt_for action x end s).trace ≡ actions s.trace ++ one action x
actions-attempt_for action none end s = sym (append-nil (actions s.trace))
actions-attempt_for action (some x) end s = actions-append s.trace ((action x, end) ∷ [])

actions-attempt_all :
    (action : List ℕ → StopAction) (xs : List ℕ) (end : Option Exception) (s : Stopping)
    → actions (attempt_all action xs end s).trace ≡ actions s.trace ++ all_of action xs
actions-attempt_all action [] end s = sym (append-nil (actions s.trace))
actions-attempt_all action (x ∷ xs) end s = actions-append s.trace ((action (x ∷ xs), end) ∷ [])

four_behind :
    (before a b c d : List StopAction)
    → (((before ++ a) ++ b) ++ c) ++ d ≡ before ++ (a ++ (b ++ (c ++ d)))
four_behind before a b c d =
    append_assoc ((before ++ a) ++ b) c d
    ∙ append_assoc (before ++ a) b (c ++ d)
    ∙ append_assoc before a (b ++ (c ++ d))

pub actions-teardown :
    (calls : StopCalls) (plan : StopPlan) (s : Stopping)
    → actions (teardown_server_stop_resources calls plan s).trace
      ≡ actions s.trace ++ teardown_of plan
unfolding teardown_server_stop_resources
actions-teardown calls plan s =
    let s1 = attempt_for closes_server plan.server calls.on_server_close s in
    let s2 =
      attempt_all stops_heartbeat_senders plan.heartbeat_senders calls.on_heartbeat_senders s1 in
    let s3 = attempt_all closes_connections plan.connections calls.on_connections s2 in
    let e1 = actions-attempt_for closes_server plan.server calls.on_server_close s in
    let e2 =
      actions-attempt_all stops_heartbeat_senders plan.heartbeat_senders calls.on_heartbeat_senders
        s1 in
    let e3 = actions-attempt_all closes_connections plan.connections calls.on_connections s2 in
    let e4 = actions-attempt_for waits_closed plan.server calls.on_wait_closed s3 in
    e4
    ∙ ap (λ r. r ++ one waits_closed plan.server)
        (e3
          ∙ ap (λ r. r ++ all_of closes_connections plan.connections)
              (e2 ∙ ap (λ r. r ++ all_of stops_heartbeat_senders plan.heartbeat_senders) e1))
    ∙ four_behind (actions s.trace) (one closes_server plan.server)
        (all_of stops_heartbeat_senders plan.heartbeat_senders)
        (all_of closes_connections plan.connections) (one waits_closed plan.server)
