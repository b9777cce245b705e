-- ===== src/Base/Errors.antt =====
-- Exceptions as values: the classes that the code raises (api/errors.py, the builtins and
-- event_dispatcher.py), without the texts of their messages.
use Prim.Native.Nat.{ℕ}
use mathlib.Core.Path.{◌≡◌, refl}
use mathlib.Core.Logic.{◌⊎◌, inl, inr}
use mathlib.Core.Bool.{Bool, true, false}

pub data Exception : Type 0 where
  runtime_error value_error type_error overflow_error : Exception
  os_error timeout_error connection_error : Exception
  connection_closed_error : Exception
  invalid_network_configuration_error : Exception
  heartbeat_configuration_error : Exception
  attribute_error : Exception
  udp_sender_stopped_error : Exception
  udp_invalid_target_error : Exception
  handler_cancelled_error : Exception
  -- `asyncio.CancelledError`, where it is kept as a value.
  cancelled_error : Exception
  -- Raised by the application's own code, told apart by a number.
  user_error : ℕ → Exception

-- A fallible call that is not awaited: the exception that it raises, or its value.
pub data Result {ℓ} (Value : Type ℓ) : Type ℓ where
  err : Exception → Result Value
  ok : Value → Result Value

-- `if not test: raise exception`.
abbrev pub require : (test : Bool) → Exception → Result (Unit {0})
require false exception = err exception
require true exception = ok tt

infixl 5 ◌>>=◌
abbrev pub ◌>>=◌ {κ ℓ} :
    {First : Type κ} {Last : Type ℓ} → Result First → (First → Result Last) → Result Last
err exception >>= continue = err exception
ok value >>= continue = continue value

infixl 5 ◌>>◌
abbrev pub ◌>>◌ {κ ℓ} : {First : Type κ} {Last : Type ℓ} → Result First → Result Last → Result Last
first >> last = first >>= λ value. last

-- Two calls in sequence that succeed: the first gave a value, and the second succeeds on that.
pub >>=-eq-ok {κ ℓ} :
    {First : Type κ} {Last : Type ℓ} (call : Result First) (continue : First → Result Last)
    {result : Last}
    → (call >>= continue) ≡ ok result
    → (value : First) × (call ≡ ok value) × (continue value ≡ ok result)
>>=-eq-ok (err exception) continue h = cc
>>=-eq-ok (ok value) continue h = (value, refl, h)

-- To split on the result of a call and keep the equation.
pub Result-cases {ℓ} :
    {Value : Type ℓ} (call : Result Value)
    → ((exception : Exception) × (call ≡ err exception)) ⊎ ((value : Value) × (call ≡ ok value))
Result-cases (err exception) = inl (exception, refl)
Result-cases (ok value) = inr (value, refl)
