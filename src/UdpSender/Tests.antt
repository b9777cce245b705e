-- ===== src/UdpSender/Tests.antt =====
-- A sender that sends and is stopped, with natural numbers for floats, and the theorems at it.
use aionetx.Base.{
  ℕ, String, ◌≡◌, ◌≢◌, refl, true, false, none, some, List, [], ◌∷◌, ok, err, ltb, leb, ◌+◌, ◌-◌,
  ◌*◌, str_eq, All, length, runtime_error, udp_sender_stopped_error,
}
use aionetx.Runtime.Guards.{assert_running_on_owner_loop}
use aionetx.Settings.Values.{
  Builtins, str_value, int_value, none_value, require_non_empty_str, require_int_range,
}
use aionetx.Connection.Stream.{bytes_like}
use aionetx.UdpSender.{World, SendCall, send, stop}
use aionetx.UdpSender.Guarantees.{
  Call, sends, stops, perform_all, RaisesOsErrors, Closes, held, leaks_no_socket, stop_is_final,
  Hands, send_checks_target,
}
use aionetx.UdpSender.Polling.{
  Try, sent, blocks, send_by_polling, IsBounded, send_by_polling-IsBounded,
}

abbrev builtins : Builtins ℕ
builtins = record {
  floats = record {
    zero = 0;
    one = 1;
    add = λ x y. x + y;
    sub = λ x y. x - y;
    mul = λ x y. x * y;
    half = λ x. x;
    less = ltb;
    at_most = leb;
  };
  float_of_int = λ n. none;
  float_of_negative = λ n. none;
  is_finite = λ x. true;
  is_blank = λ s. str_eq s "";
}

abbrev component_id : String → ℕ → String
component_id host port = host

abbrev unused : World ℕ
unused = record {
  sender = record {
    default_host = str_value "localhost";
    default_port = none_value;
    socket = none;
    closed = false;
    owner_loop = none;
    connection_id = "udp/sender";
  };
  open_sockets = [];
  datagrams = [];
}

abbrev call : SendCall ℕ
call = record {
  running_loop = some 1;
  payload = bytes_like (1 ∷ 2 ∷ []);
  host = none_value;
  port = int_value 65535;
  setup = record { created = ok 4; set_up = none; sockname = some ("0.0.0.0", 5353) };
  on_send = none;
}

abbrev calls : List (Call ℕ)
calls = sends call ∷ stops (some 1) none ∷ sends call ∷ []

calls_raise : All (RaisesOsErrors builtins component_id) calls
calls_raise = ((λ e h. cc), (tt, ((λ e h. cc), tt)))

leaks_no_socket_example :
    let v = perform_all builtins component_id calls unused in
    (v.open_sockets ≡ held v.sender.socket)
    × (All (Closes builtins component_id) calls → v.sender.closed ≡ true → v.open_sockets ≡ [])
leaks_no_socket_example =
    leaks_no_socket builtins component_id calls unused (refl, refl, refl) calls_raise

stop_is_final_example :
    let v = perform_all builtins component_id calls (stop (some 1) none unused).0 in
    (v.datagrams ≡ [])
    × (assert_running_on_owner_loop (some 1) v.sender.owner_loop ≢ err runtime_error
        → (send builtins component_id call v).1 ≡ err udp_sender_stopped_error)
unfolding stop assert_running_on_owner_loop
stop_is_final_example = stop_is_final builtins component_id (some 1) none calls call unused refl

send_checks_target_example :
    Hands builtins component_id call unused.sender unused (send builtins component_id call unused).0
send_checks_target_example = send_checks_target builtins component_id call unused

sent_one :
    (send builtins component_id call unused).0.datagrams
    ≡ record { on_socket = 4; payload = 1 ∷ 2 ∷ []; host = str_value "localhost"; port = 65535 }
      ∷ []
unfolding send require_non_empty_str require_int_range
sent_one = refl

abbrev tries : List Try
tries = blocks ∷ blocks ∷ sent ∷ []

send_by_polling-IsBounded_example :
    All (IsBounded builtins.floats 1 3) (send_by_polling builtins.floats 1 3 tries).0
    × (length (send_by_polling builtins.floats 1 3 tries).0 ≡ 2)
send_by_polling-IsBounded_example = send_by_polling-IsBounded builtins.floats 1 3 tries
