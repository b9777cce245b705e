-- ===== src/Connection/Stream/Tests.antt =====
-- A read loop of three turns, and the theorem at it.
use aionetx.Base.{ℕ, ◌≡◌, refl, [], ◌∷◌, List, connection_error}
use aionetx.Events.{connected}
use aionetx.Connection.{TcpConnection}
use aionetx.Connection.Tests.{made}
use aionetx.Connection.Stream.{Turn, gave, raised, send, bytes_like, writes, drains}

abbrev open_connection : TcpConnection ℕ
open_connection = record made { state = connected }

abbrev turn : List ℕ → Turn ℕ
turn bytes = record {
  read = gave bytes;
  after_read = λ c. c;
  emission = gave tt;
  after_emission = λ c. c;
}

abbrev failing_turn : Turn ℕ
failing_turn = record (turn []) { read = raised connection_error }

abbrev turns : List (Turn ℕ)
turns = turn (1 ∷ 2 ∷ []) ∷ turn (3 ∷ []) ∷ failing_turn ∷ []

send_when_open :
    (send open_connection (bytes_like (7 ∷ [])) (gave tt)).0 ≡ writes (7 ∷ []) ∷ drains ∷ []
unfolding send
send_when_open = refl
