-- ===== src/UdpSender/Guarantees.antt =====
-- What holds of the UDP sender (asyncio_udp_sender.py) through any calls of `send` and `stop`.
use aionetx.Base.{
  ℕ, String, ◌≡◌, ◌⊎◌, inl, inr, refl, Bool, true, false, ◌&&◌, Option, none, some, List, [], ◌∷◌,
  if◌then◌else◌, Result, ok, err, Result-cases, Option-cases, Bool-cases, Exception, arith,
  runtime_error, udp_sender_stopped_error, udp_invalid_target_error, All, leb, ◌∙◌, ◌≢◌, ap,
  >>=-eq-ok,
}
use aionetx.Runtime.Guards.{assert_running_on_owner_loop}
use aionetx.Settings.Values.{Value, int_value, Builtins, require_non_empty_str, require_int_range}
use aionetx.Connection.Stream.{Payload, bytes_like, other_object}
use aionetx.Server.Listen.{is_os_error}
use aionetx.UdpSender.{
  UdpSender, SocketSetup, Datagram, World, SendCall, ensure_socket, resolve_target, send, send_to,
  send_payload, stop, or_default, owned_by, send_on,
}

-- One call of the sender's user.
pub data Call (F : Type 0) : Type 0 where
  sends : SendCall F → Call F
  stops : (running_loop : Option ℕ) → (on_close : Option Exception) → Call F

abbrev pub held : Option ℕ → List ℕ
held none = []
held (some k) = k ∷ []

abbrev pub is_valid_port : ℕ → Bool
is_valid_port p = leb 1 p && leb p 65535

module _ {F : Type 0} (builtins : Builtins F) (component_id : String → ℕ → String) where
  abbrev pub perform : Call F → World F → World F
  unfolding send stop
  perform (sends call) w = (send builtins component_id call w).0
  perform (stops running_loop on_close) w = (stop running_loop on_close w).0

  unfoldable pub perform_all : List (Call F) → World F → World F
  unfolding send stop
  perform_all [] w = w
  perform_all (call ∷ calls) w = perform_all calls (perform call w)

  -- Making the socket of a call raises nothing but OSErrors.
  abbrev pub RaisesOsErrors : Call F → Type 0
  RaisesOsErrors (sends call) = (e : Exception) → call.setup.set_up ≡ some e → is_os_error e ≡ true
  RaisesOsErrors (stops running_loop on_close) = Unit

  -- `socket.close()` of a call returns.
  abbrev pub Closes : Call F → Type 0
  Closes (sends call) = Unit
  Closes (stops running_loop on_close) = on_close ≡ none

  -- The sockets that are open are those that the sender holds, and if all closes return, a stopped
  -- one holds none.
  pub record IsTidy (all_close : Bool) (w : World F) : Type 0 where
    pub tidy : w.open_sockets ≡ held w.sender.socket
    pub silent : all_close ≡ true → w.sender.closed ≡ true → w.sender.socket ≡ none

  ensure-IsTidy :
      (all_close : Bool) (setup : SocketSetup) (w : World F)
      → ((e : Exception) → setup.set_up ≡ some e → is_os_error e ≡ true)
      → w.sender.closed ≡ false
      → IsTidy all_close w
      → IsTidy all_close (ensure_socket component_id setup w).0
  unfolding ensure_socket
  ensure-IsTidy all_close setup w h c i = elim (Option-cases setup.set_up) [
    | inl e ↦ ground (arith, e, c, i)
    | inr (x, e) ↦ ground (arith, e, h x e, c, i)
  ]

  send_on-IsTidy :
      (all_close : Bool) (bytes : List ℕ) (target : Value F × ℕ) (end : Option Exception)
      (r : World F × Result ℕ)
      → IsTidy all_close r.0
      → IsTidy all_close (send_on bytes target end r).0
  send_on-IsTidy all_close bytes target end (w, err e) i = i
  send_on-IsTidy all_close bytes target end (w, ok k) i = ground (arith, i)

  owned_by-IsTidy :
      (all_close : Bool) (loop : ℕ) (w : World F)
      → IsTidy all_close w
      → IsTidy all_close (owned_by loop w)
  owned_by-IsTidy all_close loop w i = record { tidy = i.tidy; silent = i.silent }

  send_payload-IsTidy :
      (all_close : Bool) (call : SendCall F) (w : World F)
      → RaisesOsErrors (sends call)
      → w.sender.closed ≡ false
      → IsTidy all_close w
      → IsTidy all_close (send_payload builtins component_id call call.payload w).0
  unfolding send_payload send_to
  send_payload-IsTidy all_close call w h c i =
      elim (Result-cases (resolve_target builtins call.host call.port w.sender)) [
        | inl (x, e) ↦ ground (arith, e, i)
        | inr (target, e) ↦ by_payload target e call.payload
      ]
    where
      by_payload :
          (target : Value F × ℕ)
          → resolve_target builtins call.host call.port w.sender ≡ ok target
          → (p : Payload) → IsTidy all_close (send_payload builtins component_id call p w).0
      by_payload target e other_object = i
      by_payload target e (bytes_like bytes) = rw e (
          send_on-IsTidy all_close bytes target call.on_send _
            (ensure-IsTidy all_close call.setup w h c i))

  send-IsTidy :
      (all_close : Bool) (call : SendCall F) (w : World F)
      → RaisesOsErrors (sends call)
      → IsTidy all_close w
      → IsTidy all_close (send builtins component_id call w).0
  unfolding send assert_running_on_owner_loop
  send-IsTidy all_close call w h i = elim (Bool-cases w.sender.closed) [
    | inl c ↦ ground (arith, c, i)
    | inr c ↦
        elim (Result-cases (assert_running_on_owner_loop call.running_loop w.sender.owner_loop)) [
          | inl (x, e) ↦ ground (arith, c, e, i)
          | inr (loop, e) ↦ ground (
            arith,
            c,
            e,
            send_payload-IsTidy all_close call (owned_by loop w) h c
                (owned_by-IsTidy all_close loop w i),
          )
        ]
  ]

  stop-IsTidy :
      (all_close : Bool) (running_loop : Option ℕ) (on_close : Option Exception) (w : World F)
      → (all_close ≡ true → on_close ≡ none)
      → IsTidy all_close w
      → IsTidy all_close (stop running_loop on_close w).0
  unfolding stop assert_running_on_owner_loop
  stop-IsTidy all_close running_loop on_close w h i = ground (arith, h, i)

  perform_all-IsTidy :
      (all_close : Bool) (calls : List (Call F)) (w : World F)
      → All RaisesOsErrors calls
      → (all_close ≡ true → All Closes calls)
      → IsTidy all_close w
      → IsTidy all_close (perform_all calls w)
  unfolding perform_all
  perform_all-IsTidy all_close [] w h k i = i
  perform_all-IsTidy all_close (sends call ∷ calls) w (h, hs) k i =
      perform_all-IsTidy all_close calls (send builtins component_id call w).0 hs (λ q. (k q).1)
        (send-IsTidy all_close call w h i)
  perform_all-IsTidy all_close (stops running_loop on_close ∷ calls) w (h, hs) k i =
      perform_all-IsTidy all_close calls (stop running_loop on_close w).0 hs (λ q. (k q).1)
        (stop-IsTidy all_close running_loop on_close w (λ q. (k q).0) i)

  -- A sender that was not used yet.
  abbrev pub IsUnused : World F → Type 0
  IsUnused w = (w.sender.socket ≡ none) × (w.sender.closed ≡ false) × (w.open_sockets ≡ [])

  -- Whatever calls of `send` and `stop` are made, with whatever arguments and errors, the sockets
  -- that the sender has opened and not closed are the one that it holds, at most one; and once it
  -- is stopped there is none, if no `socket.close()` of a stop raised. It is assumed that setting
  -- up a socket raises nothing but OSErrors.
  pub leaks_no_socket :
      (calls : List (Call F)) (w : World F)
      → IsUnused w
      → All RaisesOsErrors calls
      → let v = perform_all calls w in
        (v.open_sockets ≡ held v.sender.socket)
        × (All Closes calls → v.sender.closed ≡ true → v.open_sockets ≡ [])
  leaks_no_socket calls w (s, c, o) h =
      let v = perform_all calls w in
      let i =
        perform_all-IsTidy false calls w h (λ q. absurd cc)
          (record { tidy = ground (arith, s, o); silent = λ q r. s }) in
      let j = λ (k : All Closes calls).
        perform_all-IsTidy true calls w h (λ q. k)
          (record { tidy = ground (arith, s, o); silent = λ q r. s }) in
      (i.tidy, λ k q. tidy_silent v.sender.socket i.tidy ((j k).silent refl q))
    where
      tidy_silent :
          {open_sockets : List ℕ} (k : Option ℕ)
          → open_sockets ≡ held k
          → k ≡ none
          → open_sockets ≡ []
      tidy_silent k t e = ground (arith, t, e)

  -- What a stopped sender keeps.
  abbrev Stays : World F → World F → Type 0
  Stays w v = (v.sender.closed ≡ true) × (v.datagrams ≡ w.datagrams)

  send-Stays :
      (call : SendCall F) (w : World F)
      → w.sender.closed ≡ true
      → Stays w (send builtins component_id call w).0
  unfolding send assert_running_on_owner_loop
  send-Stays call w c =
      elim (Result-cases (assert_running_on_owner_loop call.running_loop w.sender.owner_loop)) [
        | inl (x, e) ↦ ground (arith, c, e)
        | inr (loop, e) ↦ ground (arith, c, e)
      ]

  perform_all-Stays :
      (calls : List (Call F)) (w : World F) → w.sender.closed ≡ true → Stays w (perform_all calls w)
  unfolding perform_all stop
  perform_all-Stays [] w c = (c, refl)
  perform_all-Stays (sends call ∷ calls) w c =
      let (c', e) = send-Stays call w c in
      let (c'', e') = perform_all-Stays calls (send builtins component_id call w).0 c' in
      (c'', e' ∙ e)
  perform_all-Stays (stops running_loop on_close ∷ calls) w c =
      ground (arith, c, perform_all-Stays calls w c)

  stop-closes :
      (running_loop : Option ℕ) (on_close : Option Exception) (w : World F)
      → (stop running_loop on_close w).1 ≡ ok tt
      → Stays w (stop running_loop on_close w).0
  unfolding stop assert_running_on_owner_loop
  stop-closes running_loop on_close w h = ground (arith, h)

  stopped_send :
      (call : SendCall F) (w : World F)
      → w.sender.closed ≡ true
      → assert_running_on_owner_loop call.running_loop w.sender.owner_loop ≢ err runtime_error
      → (send builtins component_id call w).1 ≡ err udp_sender_stopped_error
  unfolding send assert_running_on_owner_loop
  stopped_send call w c h = ground (arith, c, h)

  -- A stop that returns is final: whatever calls of `send` and `stop` follow it, no further
  -- datagram is sent, and a later `send` on the owner loop raises UdpSenderStoppedError.
  pub stop_is_final :
      (running_loop : Option ℕ) (on_close : Option Exception) (calls : List (Call F))
      (call : SendCall F) (w : World F)
      → (stop running_loop on_close w).1 ≡ ok tt
      → let v = perform_all calls (stop running_loop on_close w).0 in
        (v.datagrams ≡ w.datagrams)
        × (assert_running_on_owner_loop call.running_loop v.sender.owner_loop ≢ err runtime_error
            → (send builtins component_id call v).1 ≡ err udp_sender_stopped_error)
  stop_is_final running_loop on_close calls call w h =
      let (c, e) = stop-closes running_loop on_close w h in
      let (c', e') = perform_all-Stays calls (stop running_loop on_close w).0 c in
      (e' ∙ e, stopped_send call (perform_all calls (stop running_loop on_close w).0) c')

  -- Where a datagram may go, for the arguments of a call and the defaults.
  pub record IsTarget (call : SendCall F) (default_host default_port : Value F) (d : Datagram F)
      : Type 0 where
    pub host_checked :
        require_non_empty_str builtins udp_invalid_target_error (or_default call.host default_host)
        ≡ ok d.host
    pub port_given : or_default call.port default_port ≡ int_value d.port
    pub port_valid : is_valid_port d.port ≡ true

  int_range-ok :
      (e : Exception) (v : Value F) (p : ℕ)
      → require_int_range builtins e 1 65535 v ≡ ok p
      → (v ≡ int_value p) × (is_valid_port p ≡ true)
  unfolding require_int_range
  int_range-ok e v p h = ground (arith, h)

  -- What a call hands to the loop: nothing, or one datagram for its target.
  abbrev pub Hands : SendCall F → UdpSender F → World F → World F → Type 0
  Hands call s w v =
      (v.datagrams ≡ w.datagrams)
      ⊎ ((d : Datagram F) × (v.datagrams ≡ d ∷ w.datagrams)
          × (call.payload ≡ bytes_like d.payload)
          × IsTarget call s.default_host s.default_port d)

  ensure_sends_nothing :
      (setup : SocketSetup) (w : World F)
      → (ensure_socket component_id setup w).0.datagrams ≡ w.datagrams
  unfolding ensure_socket
  ensure_sends_nothing setup w = ground arith

  target-ok :
      (host port : Value F) (s : UdpSender F) (target : Value F × ℕ)
      → resolve_target builtins host port s ≡ ok target
      → (require_non_empty_str builtins udp_invalid_target_error (or_default host s.default_host)
          ≡ ok target.0)
        × (or_default port s.default_port ≡ int_value target.1)
        × (is_valid_port target.1 ≡ true)
  unfolding resolve_target
  target-ok host port s target h =
      let (v, e, h') =
        >>=-eq-ok
          (require_non_empty_str builtins udp_invalid_target_error (or_default host s.default_host))
          _ h in
      let (p, f, q) =
        >>=-eq-ok
          (require_int_range builtins udp_invalid_target_error 1 65535
            (or_default port s.default_port))
          _ h' in
      let (a, b) = int_range-ok udp_invalid_target_error (or_default port s.default_port) p f in
      ground (arith, e, a, b, q)

  send_to-Hands :
      (call : SendCall F) (bytes : List ℕ) (target : Value F × ℕ) (s : UdpSender F) (w : World F)
      → call.payload ≡ bytes_like bytes
      → resolve_target builtins call.host call.port s ≡ ok target
      → Hands call s w (send_to component_id call bytes (ok target) w).0
  unfolding send_to
  send_to-Hands call bytes target s w p h =
      handed (ensure_socket component_id call.setup w) (ensure_sends_nothing call.setup w)
    where
      handed :
          (r : World F × Result ℕ)
          → r.0.datagrams ≡ w.datagrams
          → Hands call s w (send_on bytes target call.on_send r).0
      handed (v, err e) k = inl k
      handed (v, ok n) k =
          let (a, b, c) = target-ok call.host call.port s target h in
          inr (
            record { on_socket = n; payload = bytes; host = target.0; port = target.1 },
            ap
                (λ ds.
                  record { on_socket = n; payload = bytes; host = target.0; port = target.1 } ∷ ds)
                k,
            p,
            record { host_checked = a; port_given = b; port_valid = c },
          )

  send_payload-Hands :
      (call : SendCall F) (p : Payload) (w : World F)
      → call.payload ≡ p
      → Hands call w.sender w (send_payload builtins component_id call p w).0
  unfolding send_payload
  send_payload-Hands call other_object w e = inl refl
  send_payload-Hands call (bytes_like bytes) w e =
      elim (Result-cases (resolve_target builtins call.host call.port w.sender)) [
        | inl (x, q) ↦ inl (rw q refl)
        | inr (target, q) ↦ rw q (send_to-Hands call bytes target w.sender w e q)
      ]

  open-Hands :
      (call : SendCall F) (loop : ℕ) (w : World F) (b : Bool) (r : World F × Result (Unit {0}))
      → Hands call w.sender w r.0
      → Hands call w.sender w (if b then (owned_by loop w, err udp_sender_stopped_error) else r).0
  open-Hands call loop w true r h = inl refl
  open-Hands call loop w false r h = h

  -- Every datagram that `send` hands to the loop carries the payload of the call and goes to a
  -- checked target: the call's own host, or the default one where it has none, that is no blank
  -- text, and the call's own port, or the default one, from 1 to 65535. In all other cases it
  -- sends nothing.
  pub send_checks_target :
      (call : SendCall F) (w : World F)
      → Hands call w.sender w (send builtins component_id call w).0
  unfolding send assert_running_on_owner_loop
  send_checks_target call w =
      elim (Result-cases (assert_running_on_owner_loop call.running_loop w.sender.owner_loop)) [
        | inl (x, e) ↦ rw (send, e) (inl refl)
        | inr (loop, e) ↦
            rw (send, e)
              (open-Hands call loop w w.sender.closed
                (send_payload builtins component_id call call.payload (owned_by loop w))
                (send_payload-Hands call call.payload (owned_by loop w) refl))
      ]
