-- ===== src/Connection/Teardown/Tests.antt =====
-- A teardown of which the read task times out and the callback raises, and the theorems at it.
use aionetx.Base.{ℕ, ◌≡◌, refl, true, none, some, [], ◌∷◌, ◌++◌, List, user_error, true}
use aionetx.Connection.{TcpConnection}
use aionetx.Connection.Tests.{made, dispatcher, as_task, arguments}
use aionetx.Connection.Stream.{gave, raised}
use aionetx.Connection.Teardown.{
  Action, closes_writer, awaits_writer, cancels_read_task, calls_back, emits_error, Calls, finished,
  timed_out, tear_down, keeps_order, spare, run_callback, tear_down-keeps_order,
  tear_down_completes,
}

abbrev connection : TcpConnection ℕ
connection = record made { on_closed_callback = some 9 }

abbrev calls : Calls
calls = record {
  on_drop = gave tt;
  on_read_task = timed_out;
  on_close = none;
  on_writer = finished;
  on_callback = raised (user_error 5);
  on_error_event = gave tt;
}

tear_down_actions :
    (tear_down calls (as_task 12) arguments connection dispatcher).0
    ≡ cancels_read_task 11
      ∷ closes_writer
      ∷ awaits_writer
      ∷ calls_back 9
      ∷ emits_error (user_error 5)
      ∷ []
unfolding tear_down
tear_down_actions = refl

tear_down-keeps_order_example :
    (keeps_order (tear_down calls (as_task 12) arguments connection dispatcher).0 ≡ true)
    × (spare (some 12) (some 3) (tear_down calls (as_task 12) arguments connection dispatcher).0
        ≡ true)
tear_down-keeps_order_example =
    tear_down-keeps_order calls (as_task 12) arguments connection dispatcher

tear_down_completes_example :
    (before : List Action) × ((tear_down calls (as_task 12) arguments connection dispatcher).0
      ≡ before ++ closes_writer ∷ awaits_writer ∷ (run_callback calls (some 9)).0)
tear_down_completes_example =
    tear_down_completes calls (as_task 12) arguments connection dispatcher refl refl (λ e. cc) refl
      refl
