-- ===== src/Tsp/StateContainer.antt =====
-- engine/assfire/tsp/engine/TspAlgorithmStateContainer.hpp/.cpp, over the message
-- proto/assfire/api/v1/tsp/state.proto.
use assfire_suite.Base.{
  ℤ, pos, geb_ℤ, eqb_ℤ, ◌==◌, Bool, true, false, ◌&&◌, not, List, [], ◌∷◌, map, length,
}
use assfire_suite.Tsp.Task.{TspPoint, TspTask}

-- The message's oneof `instance`.
pub data AlgorithmInstance : Type 0 where
  not_set : AlgorithmInstance
  two_opt_algorithm_state : ℤ → ℤ → ℤ → AlgorithmInstance
  time_wasting_algorithm_state : ℤ → AlgorithmInstance

pub record TspAlgorithmState : Type 0 where
  pub points : List ℤ
  pub sequence : List ℤ
  pub algorithm_instance : AlgorithmInstance

-- TspAlgorithmStateContainer(): nothing is set
abbrev pub empty_state : TspAlgorithmState
empty_state = record { points = []; sequence = []; algorithm_instance = not_set }

unfoldable pub reset : TspAlgorithmState → TspAlgorithmState
reset s = record s { points = []; sequence = []; algorithm_instance = not_set }

abbrev pub set_points : TspAlgorithmState → List TspPoint → TspAlgorithmState
set_points s points = record s { points = map (λ (p : TspPoint). p.id) points }

abbrev pub set_sequence : TspAlgorithmState → List ℤ → TspAlgorithmState
set_sequence s sequence = record s { sequence = sequence }

abbrev pub all_below : ℤ → List ℤ → Bool
all_below n [] = true
all_below n (x ∷ xs) = not (geb_ℤ x n) && all_below n xs

-- No entry of the sequence is found that is points_size or more.
unfoldable pub is_consistent : TspAlgorithmState → Bool
is_consistent s =
    length s.points == length s.sequence && all_below (pos (length s.points)) s.sequence

-- std::equal over two ranges
abbrev pub same_ids : List ℤ → List TspPoint → Bool
same_ids [] [] = true
same_ids (x ∷ xs) (p ∷ ps) = eqb_ℤ x p.id && same_ids xs ps
same_ids _ _ = false

unfoldable pub is_compatible_with : TspAlgorithmState → TspTask → Bool
is_compatible_with s task = same_ids s.points task.points

unfoldable pub can_be_used_for : TspAlgorithmState → TspTask → Bool
unfolding is_consistent is_compatible_with
can_be_used_for s task = is_consistent s && is_compatible_with s task

abbrev pub contains_two_opt_algorithm_state : TspAlgorithmState → Bool
contains_two_opt_algorithm_state s = elim s.algorithm_instance [
  | not_set ↦ false
  | two_opt_algorithm_state i j k ↦ true
  | time_wasting_algorithm_state c ↦ false
]

abbrev pub contains_time_wasting_algorithm_state : TspAlgorithmState → Bool
contains_time_wasting_algorithm_state s = elim s.algorithm_instance [
  | not_set ↦ false
  | two_opt_algorithm_state i j k ↦ false
  | time_wasting_algorithm_state c ↦ true
]
