-- ===== src/Opt/TwoOpt.antt =====
-- twoOptImprove of internal/opt/alns_engine.go. `none` means that the fuel ran out, or a panic.
pub mod Keeps
pub mod Whole
use usps_main.Common.{
  ℕ, zero, suc, ◌-◌, Bool, true, false, Option, none, some, List, [], ◌∷◌, ◌&&◌, ltb, if◌then◌else◌,
  length, get_or, set,
}
use usps_main.Opt.Float.{Float64, ◌⊕◌, ◌≺◌}
use usps_main.Opt.Problem.{Problem, RoutePlan, Solution, vehicle_at, with_order}
use usps_main.Opt.Cost.{schedule_plan, path_distance_nodes, priced}
use usps_main.Opt.OrOpt.{eps}

-- `xs[a], xs[b] = xs[b], xs[a]`.
unfoldable pub swap : ℕ → ℕ → List ℕ → List ℕ
swap a b xs = set (set xs a (get_or xs b 0)) b (get_or xs a 0)

-- `for a,b := i,k; a < b; a,b = a+1,b-1`: each round takes one from b, so b rounds are enough.
unfoldable pub reverse_loop : ℕ → ℕ → ℕ → List ℕ → List ℕ
reverse_loop zero a b xs = xs
reverse_loop (suc fuel) a b xs =
    let rest = reverse_loop fuel (suc a) (b - 1) (swap a b xs) in if ltb a b then rest else xs

unfoldable pub reverse_segment : ℕ → ℕ → List ℕ → List ℕ
reverse_segment i k xs = reverse_loop k i k xs

-- `pl` and `improved`.
pub record Tweak : Type 0 where
  pub order : List ℕ
  pub improved : Bool

module _ {F : Type 0} ⦃fl : Float64 F⦄ where
  -- A candidate that can be scheduled and is shorter replaces the plan.
  unfoldable pub two_opt_try : Problem F → ℕ → ℕ → ℕ → Tweak → Tweak
  two_opt_try p vi i k s =
      let cand = reverse_segment i k s.order in
      if (schedule_plan p cand (vehicle_at p vi)).1
        && ((path_distance_nodes p cand ⊕ eps) ≺ path_distance_nodes p s.order)
      then record { order = cand; improved = true }
      else s

  -- The loop over k: `m` values are left.
  unfoldable pub ends_loop : Problem F → ℕ → ℕ → ℕ → ℕ → Tweak → Tweak
  ends_loop p vi i zero k s = s
  ends_loop p vi i (suc m) k s = ends_loop p vi i m (suc k) (two_opt_try p vi i k s)

  -- The loop over i: `m` values are left, and k runs from i + 1 to n - 2.
  unfoldable pub starts_loop : Problem F → ℕ → ℕ → ℕ → ℕ → Tweak → Tweak
  starts_loop p vi n zero i s = s
  starts_loop p vi n (suc m) i s =
      starts_loop p vi n m (suc i) (ends_loop p vi i (n - 1 - suc i) (suc i) s)

  -- `for improved`.
  unfoldable pub two_opt_rounds : Problem F → ℕ → ℕ → List ℕ → Option (List ℕ)
  two_opt_rounds p vi zero order = none
  two_opt_rounds p vi (suc fuel) order =
      let n = length order in
      let s = starts_loop p vi n (n - 2 - 1) 1 (record { order = order; improved = false }) in
      let rest = two_opt_rounds p vi fuel s.order in if s.improved then rest else some s.order

  unfoldable pub two_opt_plans : Problem F → ℕ → ℕ → List RoutePlan → Option (List RoutePlan)
  two_opt_plans p fuel vi [] = some []
  two_opt_plans p fuel vi (pl ∷ plans) = elim (two_opt_rounds p vi fuel pl.order) [
    | none ↦ none
    | some order ↦ elim (two_opt_plans p fuel (suc vi) plans) [
      | none ↦ none
      | some plans' ↦ some (with_order pl order ∷ plans')
    ]
  ]

  unfoldable pub two_opt_improve : ℕ → Problem F → Solution F → Option (Solution F)
  two_opt_improve fuel p sol = elim (two_opt_plans p fuel 0 sol.plans) [
    | none ↦ none
    | some plans ↦ priced p plans
  ]
