-- ===== src/Opt/Seed.antt =====
-- greedySeed of internal/opt/alns_engine.go.
use usps_main.Common.{
  ℕ, zero, suc, ◌+◌, Bool, true, false, Option, none, some, List, [], ◌∷◌, ◌++◌, ◌==◌, ltb,
  if◌then◌else◌, length, get_or, set,
}
use usps_main.Opt.Float.{Float64, ◌≺◌}
use usps_main.Opt.Problem.{Problem, RoutePlan, Vehicle, Solution, plan_at, with_order}
use usps_main.Opt.Cost.{delta_cost_append, priced}
use usps_main.Opt.Feasible.{feasible_add}

-- `bestIdx` and `bestDelta`.
pub record Pick (F : Type 0) : Type 0 where
  pub idx : Option ℕ
  pub delta : F

-- The variables of the loop: `used`, `plans`, `assigned`, `progress`.
pub record Seed : Type 0 where
  pub used : List Bool
  pub plans : List RoutePlan
  pub assigned : ℕ
  pub progress : Bool

unfoldable pub all_unused : ℕ → List Bool
all_unused zero = []
all_unused (suc n) = false ∷ all_unused n

-- The node goes to the end of the vehicle's plan.
unfoldable pub assign : Seed → ℕ → ℕ → Seed
assign s vi i = record {
  used = set s.used i true;
  plans = set s.plans vi (with_order (plan_at s.plans vi) ((plan_at s.plans vi).order ++ i ∷ []));
  assigned = s.assigned + 1;
  progress = true;
}

module _ {F : Type 0} ⦃fl : Float64 F⦄ where
  -- One round of the scan for the cheapest node to append.
  unfoldable pub pick_step : Problem F → List Bool → List ℕ → Vehicle F → ℕ → Pick F → Pick F
  pick_step p used order v i best =
      if get_or used i true
      then best
      else if feasible_add p order v i
      then (if delta_cost_append p order i ≺ best.delta
          then record { idx = some i; delta = delta_cost_append p order i }
          else best)
      else best

  -- `k` nodes are left, from the index `i` on.
  unfoldable pub pick_loop : Problem F → List Bool → List ℕ → Vehicle F → ℕ → ℕ → Pick F → Pick F
  unfolding pick_step
  pick_loop p used order v zero i best = best
  pick_loop p used order v (suc k) i best =
      pick_loop p used order v k (suc i) (pick_step p used order v i best)

  unfoldable pub pick : Problem F → List Bool → List ℕ → Vehicle F → Option ℕ
  unfolding pick_loop
  pick p used order v =
      (pick_loop p used order v (length p.nodes) 0
        (record { idx = none; delta = fl.max_float })).idx

  -- The loop over the vehicles from the index `vi` on; it stops once every node is assigned.
  unfoldable pub vehicles_loop : Problem F → ℕ → List (Vehicle F) → Seed → Seed
  unfolding assign
  vehicles_loop p vi [] s = s
  vehicles_loop p vi (v ∷ vs) s =
      let skip = vehicles_loop p (suc vi) vs s in
      elim (pick p s.used (plan_at s.plans vi).order v) [
        | none ↦ skip
        | some i ↦
            let next = vehicles_loop p (suc vi) vs (assign s vi i) in
            if (assign s vi i).assigned == length p.nodes then assign s vi i else next
      ]

  -- The rounds; `none` means that the fuel ran out.
  unfoldable pub rounds_loop : Problem F → ℕ → Seed → Option Seed
  unfolding vehicles_loop
  rounds_loop p zero s = none
  rounds_loop p (suc fuel) s =
      let s' = vehicles_loop p 0 p.vehicles (record s { progress = false }) in
      let rest = rounds_loop p fuel s' in
      if ltb s.assigned (length p.nodes) then (if s'.progress then rest else some s') else some s

  unfoldable pub empty_plans : List (Vehicle F) → List RoutePlan
  empty_plans [] = []
  empty_plans (v ∷ vs) = record { vehicle_id = v.id; order = [] } ∷ empty_plans vs

  abbrev pub fresh_seed : Problem F → Seed
  fresh_seed p = record {
    used = all_unused (length p.nodes);
    plans = empty_plans p.vehicles;
    assigned = 0;
    progress = false;
  }

  -- A round that assigns nothing is the last, so there is at most one more round than nodes.
  unfoldable pub greedy_seed : Problem F → Option (Solution F)
  unfolding rounds_loop empty_plans all_unused
  greedy_seed p = elim (rounds_loop p (length p.nodes + 1) (fresh_seed p)) [
    | none ↦ none
    | some s ↦ priced p s.plans
  ]
