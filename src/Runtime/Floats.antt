-- ===== src/Runtime/Floats.antt =====
-- Python's floats, of which the code uses a few operations: a parameter of the model.
use aionetx.Base.{◌≡◌, Bool, false, true}

-- The operations that the code calls.
pub record Floats (F : Type 0) : Type 0 where
  pub zero : F
  pub one : F
  pub add : F → F → F
  pub sub : F → F → F
  pub mul : F → F → F
  -- `x / 2.0`.
  pub half : F → F
  -- `x < y` and `x <= y`, which are false where one of them is not a number.
  pub less : F → F → Bool
  pub at_most : F → F → Bool

-- What the code relies on: no float is less than itself, and a positive number times a factor of
-- at least one is positive and not less than the number, as rounding is monotone.
pub record IsOrdered {F : Type 0} (floats : Floats F) : Type 0 where
  pub less_irrefl : (x : F) → floats.less x x ≡ false
  pub mul_grows :
      (x f : F)
      → floats.less floats.zero x ≡ true
      → floats.at_most floats.one f ≡ true
      → (floats.less floats.zero (floats.mul x f) ≡ true) × (floats.less (floats.mul x f) x ≡ false)
