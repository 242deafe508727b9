-- ===== src/Float.antt =====
-- Go's float64, which the kernel has no model of: the values that the program computes with and the
-- operations that it applies to them are a parameter.
use serversmonitor.Prelude.{ℕ, ◌≡◌, Bool, true, false}
use serversmonitor.Prelude.Int.{ℤ}

pub record Float : Type 1 where
  pub F : Type 0
  -- `float64(n)`
  pub of_int : ℤ → F
  -- the constant n / d, as in `1.05`
  pub constant : ℕ → ℕ → F
  pub add : F → F → F
  pub mul : F → F → F
  pub div : F → F → F
  -- `a > b`
  pub gt : F → F → Bool
  -- `a >= b`
  pub ge : F → F → Bool

-- What IEEE 754 says of the comparison of values that are not NaN.
pub record FloatOrder (fl : Float) : Type 0 where
  pub gt_irrefl : (a : fl.F) → fl.gt a a ≡ false
  pub gt_cotrans : (a b c : fl.F) → fl.gt a b ≡ false → fl.gt b c ≡ false → fl.gt a c ≡ false
  pub gt_asym : (a b : fl.F) → fl.gt a b ≡ true → fl.gt b a ≡ false
