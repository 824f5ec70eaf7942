-- ===== src/Js/Double.antt =====
-- Floating-point arithmetic, as the code divides and compares with it. The operations are the
-- engine's; what is relied on is a fact of IEEE comparisons.
use flagship_platform.Shared.{ℕ, ◌≡◌, Bool, false}

pub record Doubles : Type 1 where
  pub Double : Type 0
  pub of_nat : ℕ → Double
  pub div : Double → Double → Double
  pub sub : Double → Double → Double
  -- Math.max(a, b)
  pub max_of : Double → Double → Double
  pub le : Double → Double → Bool
  pub lt : Double → Double → Bool
  pub lt_irrefl : (a : Double) → lt a a ≡ false
