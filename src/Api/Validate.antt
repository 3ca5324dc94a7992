-- ===== src/Api/Validate.antt =====
-- validateOptimizeRequest of internal/api/validate.go.
use usps_main.Common.{
  String, Bool, Option, none, some, List, [], ◌∷◌, ◌&&◌, ◌||◌, ◌==◌, not, str_eq, is_neg, ltb,
  if◌then◌else◌, length,
}
use usps_main.Common.Maps.{Map}
use usps_main.Model.{Float64Bits, OptimizeRequest}

-- The messages of the errors, with what they name.
pub data Invalid : Type 0 where
  invalid_algorithm : String → Invalid
  negative_time_budget negative_iterations cooling_range : Invalid
  removal_weights_length insertion_weights_length : Invalid
  negative_objective unknown_objective : String → Invalid

-- The comparisons of float64 with 0 and 1, and strings.ToLower.
pub record Tests : Type 0 where
  pub is_zero : Float64Bits → Bool
  pub at_most_zero : Float64Bits → Bool
  pub below_zero : Float64Bits → Bool
  pub at_least_one : Float64Bits → Bool
  pub to_lower : String → String

abbrev pub is_allowed : String → Bool
is_allowed k =
    str_eq k "drivetime" || str_eq k "lateness" || str_eq k "failed" || str_eq k "distance"

module _ (fl : Tests) where
  -- The loop over the map, in the order in which Go ranges over it.
  unfoldable pub check_objectives : Map Float64Bits → Option Invalid
  check_objectives [] = none
  check_objectives ((k, v) ∷ rest) =
      let more = check_objectives rest in
      if fl.below_zero v
      then some (negative_objective k)
      else if is_allowed (fl.to_lower k)
      then more
      else some (unknown_objective k)

  -- `len(w) > 0 && len(w) != 2`.
  abbrev pub bad_weights : List Float64Bits → Bool
  bad_weights w = ltb 0 (length w) && not (length w == 2)

  unfoldable pub validate_optimize_request :
      (Map Float64Bits → Map Float64Bits) → OptimizeRequest → Option Invalid
  unfolding check_objectives
  validate_optimize_request order req =
      let objectives : Option Invalid = elim req.objectives [
        | none ↦ none
        | some o ↦ check_objectives (order o)
      ] in
      if not (str_eq req.algorithm "")
        && not (str_eq req.algorithm "greedy")
        && not (str_eq req.algorithm "alns")
      then some (invalid_algorithm req.algorithm)
      else if is_neg req.time_budget_ms
      then some negative_time_budget
      else if is_neg req.max_iterations
      then some negative_iterations
      else if not (fl.is_zero req.cooling)
          && (fl.at_most_zero req.cooling || fl.at_least_one req.cooling)
      then some cooling_range
      else if bad_weights req.removal_weights
      then some removal_weights_length
      else if bad_weights req.insertion_weights
      then some insertion_weights_length
      else objectives
