-- ===== src/Server/Listen.antt =====
-- `_create_listening_socket` of asyncio_tcp_server.py.
use aionetx.Base.{
  ℕ, ◌≡◌, refl, Bool, true, false, Option, none, some, List, [], ◌∷◌, ◌++◌, Result, ok, err,
  Exception, os_error, timeout_error, connection_error, if◌then◌else◌, All, ap,
}

-- An address that `getaddrinfo` gave: what `socket.socket` gives for it, and what raises while the
-- socket is configured, bound and made to listen.
pub record Candidate : Type 0 where
  pub created : Result ℕ
  pub set_up : Option Exception

pub record Listening : Type 0 where
  pub opened : List ℕ
  pub closed : List ℕ
  pub result : Result ℕ

-- `isinstance(error, OSError)`.
abbrev pub is_os_error : Exception → Bool
is_os_error os_error = true
is_os_error timeout_error = true
is_os_error connection_error = true
is_os_error _ = false

abbrev last_or_default : Option Exception → Exception
last_or_default none = os_error
last_or_default (some e) = e

abbrev ends : Result ℕ → Listening
ends r = record { opened = []; closed = []; result = r }

abbrev opens : ℕ → Listening → Listening
opens s l = record l { opened = s ∷ l.opened }

abbrev closes : ℕ → Listening → Listening
closes s l = record l { closed = s ∷ l.closed }

-- Behind the set-up of the socket; `rest` is what follows if it raised an OSError.
abbrev after_set_up : ℕ → Option Exception → Listening → Listening
after_set_up s none rest = opens s (ends (ok s))
after_set_up s (some e) rest = opens s (if is_os_error e then closes s rest else ends (err e))

abbrev after_created : Result ℕ → Option Exception → Listening → Listening
after_created (err e) set_up rest = ends (err e)
after_created (ok s) set_up rest = after_set_up s set_up rest

abbrev pub last_of : Option Exception → Option Exception → Option Exception
last_of none last = last
last_of (some e) last = some e

unfoldable pub create_listening_socket :
    (last_error : Option Exception) → List Candidate → Listening
create_listening_socket last [] = ends (err (last_or_default last))
create_listening_socket last (c ∷ candidates) =
    after_created c.created c.set_up (create_listening_socket (last_of c.set_up last) candidates)

-- The set-up of a candidate raises nothing but OSErrors.
abbrev pub RaisesOsErrors : Candidate → Type 0
RaisesOsErrors c = (e : Exception) → c.set_up ≡ some e → is_os_error e ≡ true

-- The sockets that are open at the end.
abbrev pub kept : Result ℕ → List ℕ
kept (ok s) = s ∷ []
kept (err e) = []

after_set_up-closes :
    (s : ℕ) (set_up : Option Exception) (rest : Listening)
    → ((e : Exception) → set_up ≡ some e → is_os_error e ≡ true)
    → rest.opened ≡ rest.closed ++ kept rest.result
    → let l = after_set_up s set_up rest in l.opened ≡ l.closed ++ kept l.result
after_set_up-closes s none rest h e = refl
after_set_up-closes s (some x) rest h e = rw (h x refl) (ap (λ r. s ∷ r) e)

after_created-closes :
    (created : Result ℕ) (set_up : Option Exception) (rest : Listening)
    → ((e : Exception) → set_up ≡ some e → is_os_error e ≡ true)
    → rest.opened ≡ rest.closed ++ kept rest.result
    → let l = after_created created set_up rest in l.opened ≡ l.closed ++ kept l.result
after_created-closes (err x) set_up rest h e = refl
after_created-closes (ok s) set_up rest h e = after_set_up-closes s set_up rest h e

-- No socket leaks: if setting up a socket raises nothing but OSErrors, then every socket that was
-- opened is closed again, in the same order, except for the last one if that is the result;
-- where the call raises, also where creating a socket does, all of them are closed.
pub create_listening_socket-closes :
    (last : Option Exception) (candidates : List Candidate)
    → All RaisesOsErrors candidates
    → let l = create_listening_socket last candidates in l.opened ≡ l.closed ++ kept l.result
unfolding create_listening_socket
create_listening_socket-closes last [] h = refl
create_listening_socket-closes last (c ∷ candidates) (h, hs) =
    after_created-closes c.created c.set_up _ h
      (create_listening_socket-closes (last_of c.set_up last) candidates hs)
