-- ===== src/Tsp/Solution.antt =====
-- api/assfire/tsp/api: TspCost, TspValidationResult and TspSolution.
use assfire_suite.Base.{ℤ, pos, negsuc, ltb_ℤ, Bool, true, List, if◌then◌else◌}
use assfire_suite.Concepts.Double.{Double, Fpu}

pub record TspCost : Type 0 where
  pub value : Double

module _ (fpu : Fpu) where
  -- operator<=>, which returns an int
  pub compare : TspCost → TspCost → ℤ
  compare a b =
      if fpu.lt a.value b.value then negsuc 0 else if fpu.lt b.value a.value then pos 1 else pos 0

  -- a < b, rewritten by the compiler to (a <=> b) < 0
  unfoldable pub cost_lt : TspCost → TspCost → Bool
  unfolding compare
  cost_lt a b = ltb_ℤ (compare a b) (pos 0)

pub record TspValidationResult : Type 0 where
  pub is_valid : Bool

pub record TspSolution : Type 0 where
  pub sequence : List ℤ
  pub cost : TspCost
  pub validation_result : TspValidationResult
  pub is_final_solution : Bool

abbrev pub as_final : TspSolution → TspSolution
as_final s = record s { is_final_solution = true }
