-- ===== src/Connection/Stream/Delivery.antt =====
-- What the read loop of asyncio_tcp_connection.py hands to the dispatcher.
use aionetx.Base.{
  ℕ, ◌≡◌, String, Bool, true, false, Option, none, some, List, [], ◌∷◌, ◌++◌, map, Exception, All,
}
use aionetx.Events.{NetworkEvent, bytes_received, network_error}
use aionetx.Connection.{TcpConnection, is_connected}
use aionetx.Connection.Stream.{
  Awaited, gave, raised, was_cancelled, Turn, LoopEnd, ended, failed_to_report, cancelled, runs,
  Loop, after_emission, after_read,
}

abbrev pub is_nonempty : List ℕ → Bool
is_nonempty [] = false
is_nonempty (byte ∷ bytes) = true

-- How the loop ends where the emission of its error event ends so.
abbrev pub reported_end : Awaited (Unit {0}) → LoopEnd
reported_end (gave _) = ended
reported_end (raised _) = failed_to_report
reported_end was_cancelled = cancelled

module _ {F : Type 0} where
  -- The connection keeps its identifier while the loop waits.
  pub record KeepsId (turn : Turn F) : Type 0 where
    pub on_read : (c : TcpConnection F) → (turn.after_read c).connection_id ≡ c.connection_id
    pub on_emission :
        (c : TcpConnection F) → (turn.after_emission c).connection_id ≡ c.connection_id

  abbrev pub read_of : Turn F → Awaited (List ℕ)
  read_of turn = turn.read

  abbrev pub event_of : String → List ℕ → NetworkEvent F
  event_of id bytes = bytes_received id bytes none none

  abbrev pub error_of : String → Exception → NetworkEvent F
  error_of id e = network_error id e

  abbrev pub first_read : List (Turn F) → Option (Awaited (List ℕ))
  first_read [] = none
  first_read (turn ∷ turns) = some turn.read

  abbrev pub or_own : Turn F → Option (Awaited (Unit {0})) → Option (Awaited (Unit {0}))
  or_own turn none = some turn.emission
  or_own turn (some emission) = some emission

  abbrev pub last_emission : List (Turn F) → Option (Awaited (Unit {0}))
  last_emission [] = none
  last_emission (turn ∷ turns) = or_own turn (last_emission turns)

  -- The connection behind some turns.
  abbrev pub behind : List (Turn F) → TcpConnection F → TcpConnection F
  behind [] c = c
  behind (turn ∷ turns) c = behind turns (turn.after_emission (turn.after_read c))

  -- Why the loop is where it is, behind the turns that it took: the events that it emits last,
  -- and how it ends.
  pub data Ends (id : String) (reporting : Awaited (Unit {0})) (c : TcpConnection F)
      (taken untaken : List (Turn F)) (last : List (NetworkEvent F)) (how : LoopEnd) : Type 0 where
    still_reads :
        untaken ≡ []
        → is_connected (behind taken c) ≡ true
        → last ≡ []
        → how ≡ runs
        → Ends id reporting c taken untaken last how
    not_connected :
        is_connected (behind taken c) ≡ false
        → last ≡ []
        → how ≡ ended
        → Ends id reporting c taken untaken last how
    at_eof :
        first_read untaken ≡ some (gave [])
        → last ≡ []
        → how ≡ ended
        → Ends id reporting c taken untaken last how
    read_cancelled :
        first_read untaken ≡ some was_cancelled
        → last ≡ []
        → how ≡ cancelled
        → Ends id reporting c taken untaken last how
    read_failed :
        (e : Exception)
        → first_read untaken ≡ some (raised e)
        → last ≡ error_of id e ∷ []
        → how ≡ reported_end reporting
        → Ends id reporting c taken untaken last how
    emission_cancelled :
        last_emission taken ≡ some was_cancelled
        → last ≡ []
        → how ≡ cancelled
        → Ends id reporting c taken untaken last how
    emission_failed :
        (e : Exception)
        → last_emission taken ≡ some (raised e)
        → last ≡ error_of id e ∷ []
        → how ≡ reported_end reporting
        → Ends id reporting c taken untaken last how

  -- What the loop has handed on of what it read.
  pub record IsDelivered (id : String) (reporting : Awaited (Unit {0})) (c : TcpConnection F)
      (turns : List (Turn F)) (l : Loop F) : Type 0 where
    pub taken : List (Turn F)
    pub untaken : List (Turn F)
    pub payloads : List (List ℕ)
    pub last : List (NetworkEvent F)
    pub are_first : turns ≡ taken ++ untaken
    pub are_read : map read_of taken ≡ map gave payloads
    pub are_nonempty : All (λ p. is_nonempty p ≡ true) payloads
    pub are_events : l.events ≡ map (event_of id) payloads ++ last
    pub ends : Ends id reporting c taken untaken last l.loop_end
