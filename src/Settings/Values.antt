-- ===== src/Settings/Values.antt =====
-- Python values that a field may hold, and the tests of _validation.py. A test returns the value
-- that it passes on; the names of fields, which go into messages only, are left out.
use aionetx.Base.{
  ℕ, String, Bool, true, false, not, ◌&&◌, Option, none, some, Result, ok, err, ◌>>=◌, Exception,
  overflow_error, if◌then◌else◌, leb, ◌==◌, str_eq,
}
use aionetx.Events.{EventDispatchMode, EventBackpressurePolicy, EventHandlerFailurePolicy}
use aionetx.Runtime.Floats.{Floats}
use aionetx.Runtime.Backoff.{ReconnectJitter}
use aionetx.Supervision.{ErrorPolicy}

-- The members of the enumerations; each is a text, too, and none of them is blank.
pub data EnumMember : Type 0 where
  a_dispatch_mode : EventDispatchMode → EnumMember
  a_backpressure_policy : EventBackpressurePolicy → EnumMember
  a_handler_failure_policy : EventHandlerFailurePolicy → EnumMember
  a_jitter : ReconnectJitter → EnumMember
  an_error_policy : ErrorPolicy → EnumMember

-- `negative_int n` is the integer -(n + 1).
pub data Value (F : Type 0) : Type 0 where
  none_value other_value : Value F
  bool_value : Bool → Value F
  int_value negative_int : ℕ → Value F
  float_value : F → Value F
  str_value : String → Value F
  enum_value : EnumMember → Value F

-- What Python's numbers and texts do. The conversion of an integer gives none where `float(n)` raises
-- an OverflowError.
pub record Builtins (F : Type 0) : Type 0 where
  pub floats : Floats F
  pub float_of_int : ℕ → Option F
  pub float_of_negative : ℕ → Option F
  pub is_finite : F → Bool
  -- `not s.strip()`.
  pub is_blank : String → Bool

module _ {F : Type 0} (builtins : Builtins F) where
  unfoldable pub require_bool : Exception → Value F → Result Bool
  require_bool error_type (bool_value b) = ok b
  require_bool error_type _ = err error_type

  unfoldable pub require_non_empty_str : Exception → Value F → Result (Value F)
  require_non_empty_str error_type (str_value s) =
      if builtins.is_blank s then err error_type else ok (str_value s)
  require_non_empty_str error_type (enum_value m) = ok (enum_value m)
  require_non_empty_str error_type _ = err error_type

  unfoldable pub require_optional_non_empty_str : Exception → Value F → Result (Value F)
  unfolding require_non_empty_str
  require_optional_non_empty_str error_type none_value = ok none_value
  require_optional_non_empty_str error_type value = require_non_empty_str error_type value

  -- The bounds of the code are natural numbers.
  unfoldable pub require_int_range : Exception → ℕ → ℕ → Value F → Result ℕ
  require_int_range error_type min_value max_value (int_value n) =
      if leb min_value n && leb n max_value then ok n else err error_type
  require_int_range error_type min_value max_value _ = err error_type

  unfoldable pub require_positive_int : Exception → Value F → Result ℕ
  require_positive_int error_type (int_value n) = if leb n 0 then err error_type else ok n
  require_positive_int error_type _ = err error_type

  -- `float(value)` of a real number that is no bool.
  abbrev to_float : Option F → Result F
  to_float none = err overflow_error
  to_float (some x) = ok x

  abbrev real_number : Exception → Value F → Result F
  real_number error_type (int_value n) = to_float (builtins.float_of_int n)
  real_number error_type (negative_int n) = to_float (builtins.float_of_negative n)
  real_number error_type (float_value x) = ok x
  real_number error_type _ = err error_type

  abbrev pub is_positive_finite : F → Bool
  is_positive_finite x =
      builtins.is_finite x && not (builtins.floats.at_most x builtins.floats.zero)

  unfoldable pub require_positive_finite_number : Exception → Value F → Result F
  require_positive_finite_number error_type value = do
    number ← real_number error_type value
    if is_positive_finite number then ok number else err error_type

  unfoldable pub require_optional_positive_finite_number : Exception → Value F → Result (Option F)
  unfolding require_positive_finite_number
  require_optional_positive_finite_number error_type none_value = ok none
  require_optional_positive_finite_number error_type value = do
    number ← require_positive_finite_number error_type value
    ok (some number)

  abbrev pub is_finite_at_least : F → F → Bool
  is_finite_at_least minimum x = builtins.is_finite x && not (builtins.floats.less x minimum)

  unfoldable pub require_finite_number_at_least : Exception → F → Value F → Result F
  require_finite_number_at_least error_type minimum value = do
    number ← real_number error_type value
    if is_finite_at_least minimum number then ok number else err error_type

  -- `enum_type` picks the members of one enumeration.
  unfoldable pub require_enum_member :
      {A : Type 0} → Exception → (enum_type : EnumMember → Option A) → Value F → Result A
  require_enum_member error_type enum_type (enum_value m) = elim (enum_type m) [
    | none ↦ err error_type
    | some a ↦ ok a
  ]
  require_enum_member error_type enum_type _ = err error_type

  -- `bool(value)`.
  abbrev pub is_true : Value F → Bool
  is_true none_value = false
  is_true other_value = true
  is_true (bool_value b) = b
  is_true (int_value n) = not (n == 0)
  is_true (negative_int n) = true
  is_true (float_value x) = not (
      builtins.floats.at_most x builtins.floats.zero
      && builtins.floats.at_most builtins.floats.zero x)
  is_true (str_value s) = not (str_eq s "")
  is_true (enum_value m) = true

-- The enumerations.
abbrev pub dispatch_modes : EnumMember → Option EventDispatchMode
dispatch_modes (a_dispatch_mode m) = some m
dispatch_modes _ = none

abbrev pub backpressure_policies : EnumMember → Option EventBackpressurePolicy
backpressure_policies (a_backpressure_policy m) = some m
backpressure_policies _ = none

abbrev pub handler_failure_policies : EnumMember → Option EventHandlerFailurePolicy
handler_failure_policies (a_handler_failure_policy m) = some m
handler_failure_policies _ = none

abbrev pub jitters : EnumMember → Option ReconnectJitter
jitters (a_jitter m) = some m
jitters _ = none

abbrev pub error_policies : EnumMember → Option ErrorPolicy
error_policies (an_error_policy m) = some m
error_policies _ = none
