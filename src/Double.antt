-- ===== src/Double.antt =====
-- The `double` arithmetic that the driver does, which is a parameter of the model: a type with the
-- operations that the source names, and no laws but those a theorem states.
use my_diffbot.Common.{ℕ, Bool}
use my_diffbot.Common.Int.{ℤ}

pub record Double : Type 1 where
  pub F : Type 0
  -- A decimal literal: `literal m e` is m / 10 ^ e.
  pub literal : ℕ → ℕ → F
  -- `static_cast<double>` of an integer.
  pub of_int : ℤ → F
  pub add : F → F → F
  pub sub : F → F → F
  pub mul : F → F → F
  pub div : F → F → F
  -- `static_cast` to an integer: the fraction is cut off.
  pub trunc : F → ℤ
  pub m_pi : F
  -- The test `a < b`.
  pub lt : F → F → Bool
  -- The tests `a <= b` and `a == b`, and `std::isfinite`.
  pub le : F → F → Bool
  pub eq : F → F → Bool
  pub is_finite : F → Bool
