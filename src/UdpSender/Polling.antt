-- ===== src/UdpSender/Polling.antt =====
-- `_send_nonblocking` of asyncio_udp_sender.py on a loop without `sock_sendto`: the socket is tried
-- until it does not block, with growing pauses.
use aionetx.Base.{
  ℕ, suc, ◌≡◌, ◌⊎◌, inl, refl, true, List, [], ◌∷◌, if◌then◌else◌, Exception, All, arith, length,
  ap,
}
use aionetx.Runtime.Floats.{Floats}

-- How one `sock.sendto` ends; `blocks` is a BlockingIOError or an InterruptedError.
pub data Try : Type 0 where
  sent blocks : Try
  raises : Exception → Try

-- How the polling ends. It still polls where the tries end before it.
pub data PollEnd : Type 0 where
  done polls : PollEnd
  failed : Exception → PollEnd

-- The tries that block before the first one that does not.
abbrev pub blocked : List Try → ℕ
blocked [] = 0
blocked (blocks ∷ tries) = suc (blocked tries)
blocked (_ ∷ tries) = 0

module _ {F : Type 0} (floats : Floats F) (initial maximum : F) where
  -- `min(maximum, delay * 2)`.
  abbrev pub next_pause : F → F
  next_pause delay =
      let doubled = floats.mul delay (floats.add floats.one floats.one) in
      if floats.less doubled maximum then doubled else maximum

  -- The pauses, and the end.
  unfoldable pub poll : List Try → F → List F × PollEnd
  poll [] delay = ([], polls)
  poll (sent ∷ tries) delay = ([], done)
  poll (raises e ∷ tries) delay = ([], failed e)
  poll (blocks ∷ tries) delay =
      let (pauses, end) = poll tries (next_pause delay) in (delay ∷ pauses, end)

  unfoldable pub send_by_polling : List Try → List F × PollEnd
  unfolding poll
  send_by_polling tries = poll tries initial

  -- A pause is the initial one, the longest one, or below the longest one.
  abbrev pub IsBounded : F → Type 0
  IsBounded delay = (delay ≡ initial) ⊎ (delay ≡ maximum) ⊎ (floats.less delay maximum ≡ true)

  next_pause-IsBounded : (delay : F) → IsBounded (next_pause delay)
  next_pause-IsBounded delay = ground arith

  poll-IsBounded :
      (tries : List Try) (delay : F) → IsBounded delay → All IsBounded (poll tries delay).0
  unfolding poll
  poll-IsBounded [] delay b = tt
  poll-IsBounded (sent ∷ tries) delay b = tt
  poll-IsBounded (raises e ∷ tries) delay b = tt
  poll-IsBounded (blocks ∷ tries) delay b =
      (b, poll-IsBounded tries (next_pause delay) (next_pause-IsBounded delay))

  length-poll : (tries : List Try) (delay : F) → length (poll tries delay).0 ≡ blocked tries
  unfolding poll
  length-poll [] delay = refl
  length-poll (sent ∷ tries) delay = refl
  length-poll (raises e ∷ tries) delay = refl
  length-poll (blocks ∷ tries) delay = ap suc (length-poll tries (next_pause delay))

  -- The polling pauses once for each try that blocks before the first one that does not, and each
  -- pause is the initial one, the longest one, or shorter than that: doubling never exceeds it.
  pub send_by_polling-IsBounded :
      (tries : List Try)
      → All IsBounded (send_by_polling tries).0 × (length (send_by_polling tries).0 ≡ blocked tries)
  unfolding send_by_polling
  send_by_polling-IsBounded tries =
      (poll-IsBounded tries initial (inl refl), length-poll tries initial)
