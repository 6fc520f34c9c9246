-- ===== src/Base/Order.antt =====
-- What a comparator such as `std::less` promises, and the order of the native numbers.
use mathlib.Core.Path.{◌≡◌}
use mathlib.Core.Bool.{Bool, true, false}
use one_base.Base.Tests.{ltb}
use native.Mathlib.Omega.{arith}

-- A strict total order, as a test.
pub record StrictOrder {K : Type 0} (lt : K → K → Bool) : Type 0 where
  pub irreflexive : (a : K) → lt a a ≡ false
  pub transitive : (a b c : K) → lt a b ≡ true → lt b c ≡ true → lt a c ≡ true
  pub connected : (a b : K) → lt a b ≡ false → lt b a ≡ false → a ≡ b

pub ltb-StrictOrder : StrictOrder ltb
ltb-StrictOrder = record {
  irreflexive = λ a. ground arith;
  transitive = λ a b c h k. ground arith;
  connected = λ a b h k. ground arith;
}
