-- ===== src/Opt/OrOpt.antt =====
-- orOptLocalImprove of internal/opt/alns_engine.go. `none` means that the fuel ran out, or a panic.
pub mod Hang
use usps_main.Common.{
  ℕ, zero, suc, ◌-◌, Bool, true, false, Option, none, some, List, ◌||◌, ◌==◌, ltb, if◌then◌else◌,
  length, get_or, remove_at, insert_at,
}
use usps_main.Opt.Float.{Float64, ◌⊕◌, ◌≺◌}
use usps_main.Opt.Problem.{Problem, RoutePlan, Solution, vehicle_at, plan_at}
use usps_main.Opt.Cost.{schedule_plan, cost, priced}
use usps_main.Opt.Insert.{set_order}

-- `best` and `bestCost`.
pub record Found (F : Type 0) : Type 0 where
  pub order : List ℕ
  pub cost : F

-- The variables of the outer loop: the plans and `improved`.
pub record Pass : Type 0 where
  pub plans : List RoutePlan
  pub improved : Bool

-- `if j > len(cand.Order) { j = len(cand.Order) }`, where the candidate has lost a node. This is the
-- loop's own variable.
unfoldable pub clamp : ℕ → ℕ → ℕ
clamp n j = if ltb (n - 1) j then n - 1 else j

-- The node at i, put in at j of the list without it.
unfoldable pub relocate : ℕ → ℕ → List ℕ → List ℕ
relocate i j order = insert_at j (get_or order i 0) (remove_at i order)

module _ {F : Type 0} ⦃fl : Float64 F⦄ where
  -- 1e-6.
  abbrev pub eps : F
  eps = fl.lit 1 1_000_000

  -- The candidate replaces the best if it can be scheduled and costs less.
  unfoldable pub or_opt_try : Problem F → List RoutePlan → ℕ → List ℕ → Found F → Found F
  unfolding schedule_plan cost
  or_opt_try p plans vi cand best =
      let c = cost p (set_order plans vi cand) in
      if (schedule_plan p cand (vehicle_at p vi)).1
      then (if (c ⊕ eps) ≺ best.cost then record { order = cand; cost = c } else best)
      else best

  -- `for j := …; j <= len(pl.Order); j++`.
  unfoldable pub targets_loop :
      Problem F → List RoutePlan → ℕ → List ℕ → ℕ → ℕ → ℕ → Found F → Option (Found F)
  unfolding clamp relocate or_opt_try
  targets_loop p plans vi order i zero j best = none
  targets_loop p plans vi order i (suc fuel) j best =
      let skip = targets_loop p plans vi order i fuel (suc j) best in
      let j' = clamp (length order) j in
      let next =
        targets_loop p plans vi order i fuel (suc j')
          (or_opt_try p plans vi (relocate i j' order) best) in
      if ltb (length order) j then some best else if j == i || j == suc i then skip else next

  -- `for i := 0; i < len(pl.Order); i++`; `k` indices are left.
  unfoldable pub sources_loop :
      Problem F → List RoutePlan → ℕ → List ℕ → ℕ → ℕ → ℕ → Found F → Option (Found F)
  unfolding targets_loop
  sources_loop p plans vi order fuel zero i best = some best
  sources_loop p plans vi order fuel (suc k) i best =
      elim (targets_loop p plans vi order i fuel 0 best) [
        | none ↦ none
        | some best' ↦ sources_loop p plans vi order fuel k (suc i) best'
      ]

  -- The body of the loop over the plans.
  unfoldable pub or_opt_plan : Problem F → ℕ → ℕ → Pass → Option Pass
  unfolding sources_loop cost
  or_opt_plan p fuel vi s =
      let order = (plan_at s.plans vi).order in
      elim (sources_loop p s.plans vi order fuel (length order) 0
        (record { order = order; cost = fl.max_float })) [
          | none ↦ none
          | some best ↦
              if (best.cost ⊕ eps) ≺ cost p s.plans
              then some (record { plans = set_order s.plans vi best.order; improved = true })
              else some s
        ]

  -- `k` plans are left, from the index `vi` on.
  unfoldable pub or_opt_plans : Problem F → ℕ → ℕ → ℕ → Pass → Option Pass
  unfolding or_opt_plan
  or_opt_plans p fuel zero vi s = some s
  or_opt_plans p fuel (suc k) vi s = elim (or_opt_plan p fuel vi s) [
    | none ↦ none
    | some s' ↦ or_opt_plans p fuel k (suc vi) s'
  ]

  -- `for improved`, with `fuel` rounds and as much for each loop over the targets.
  unfoldable pub or_opt_rounds : Problem F → ℕ → ℕ → List RoutePlan → Option (List RoutePlan)
  unfolding or_opt_plans
  or_opt_rounds p fuel zero plans = none
  or_opt_rounds p fuel (suc rounds) plans =
      elim (or_opt_plans p fuel (length plans) 0 (record { plans = plans; improved = false })) [
        | none ↦ none
        | some s ↦
            let rest = or_opt_rounds p fuel rounds s.plans in
            if s.improved then rest else some s.plans
      ]

  unfoldable pub or_opt_local_improve : ℕ → Problem F → List RoutePlan → Option (Solution F)
  unfolding or_opt_rounds
  or_opt_local_improve fuel p plans = elim (or_opt_rounds p fuel fuel plans) [
    | none ↦ none
    | some plans' ↦ priced p plans'
  ]
