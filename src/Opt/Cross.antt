-- ===== src/Opt/Cross.antt =====
-- crossExchangeImprove of internal/opt/alns_engine.go, and the loops over the pairs of plans that it
-- shares with twoOptStarImprove. `none` means that the fuel ran out, or a panic.
pub mod Conserve
use usps_main.Common.{
  ℕ, zero, suc, ◌-◌, Bool, true, false, Option, none, some, List, ◌&&◌, ltb, if◌then◌else◌, length,
  get_or, set,
}
use usps_main.Opt.Float.{Float64, ◌⊕◌, ◌≺◌}
use usps_main.Opt.Problem.{Problem, RoutePlan, Solution, vehicle_at, plan_at, with_order}
use usps_main.Opt.Cost.{schedule_plan, path_distance_nodes, priced}
use usps_main.Opt.OrOpt.{eps, Pass}

-- The candidates `ca` and `cb`.
pub record Pair : Type 0 where
  pub left : List ℕ
  pub right : List ℕ

-- `ca.Order[i], cb.Order[j] = cb.Order[j], ca.Order[i]`.
unfoldable pub exchange : List ℕ → List ℕ → ℕ → ℕ → Pair
exchange pa pb i j = record { left = set pa i (get_or pb j 0); right = set pb j (get_or pa i 0) }

-- `sol.Plans[a] = ca; sol.Plans[b] = cb`; the vehicle of a plan stays.
unfoldable pub set_pair : List RoutePlan → ℕ → ℕ → Pair → List RoutePlan
set_pair plans a b c =
    set (set plans a (with_order (plan_at plans a) c.left)) b (with_order (plan_at plans b) c.right)

module _ {F : Type 0} ⦃fl : Float64 F⦄ where
  -- Both candidates can be scheduled, and the two plans together get shorter.
  unfoldable pub accepts : Problem F → ℕ → ℕ → List ℕ → List ℕ → Pair → Bool
  accepts p a b pa pb c =
      (schedule_plan p c.left (vehicle_at p a)).1
      && (schedule_plan p c.right (vehicle_at p b)).1
      && ((path_distance_nodes p c.left ⊕ path_distance_nodes p c.right ⊕ eps)
          ≺ (path_distance_nodes p pa ⊕ path_distance_nodes p pb))

  -- An accepted candidate goes into the solution; `pa` and `pb` stay what they were.
  unfoldable pub try_pair : Problem F → ℕ → ℕ → List ℕ → List ℕ → Pair → Pass → Pass
  try_pair p a b pa pb c s =
      if accepts p a b pa pb c
      then record { plans = set_pair s.plans a b c; improved = true }
      else s

-- `for b := a + 1; b < m; b++`, over the work on a pair of plans; `k` indices are left.
unfoldable pub partners_loop : (ℕ → ℕ → Pass → Pass) → ℕ → ℕ → ℕ → Pass → Pass
partners_loop work a zero b s = s
partners_loop work a (suc k) b s = partners_loop work a k (suc b) (work a b s)

-- `for a := 0; a < m; a++`; `k` indices are left.
unfoldable pub pairs_loop : (ℕ → ℕ → Pass → Pass) → ℕ → ℕ → ℕ → Pass → Pass
pairs_loop work m zero a s = s
pairs_loop work m (suc k) a s =
    pairs_loop work m k (suc a) (partners_loop work a (m - suc a) (suc a) s)

-- `for improved`.
unfoldable pub pair_rounds : (ℕ → ℕ → Pass → Pass) → ℕ → List RoutePlan → Option (List RoutePlan)
pair_rounds work zero plans = none
pair_rounds work (suc fuel) plans =
    let m = length plans in
    let s = pairs_loop work m m 0 (record { plans = plans; improved = false }) in
    let rest = pair_rounds work fuel s.plans in if s.improved then rest else some s.plans

module _ {F : Type 0} ⦃fl : Float64 F⦄ where
  -- The loop over j: `k` indices are left.
  unfoldable pub exchange_right : Problem F → ℕ → ℕ → List ℕ → List ℕ → ℕ → ℕ → ℕ → Pass → Pass
  exchange_right p a b pa pb i zero j s = s
  exchange_right p a b pa pb i (suc k) j s =
      exchange_right p a b pa pb i k (suc j) (try_pair p a b pa pb (exchange pa pb i j) s)

  -- The loop over i: `k` indices are left.
  unfoldable pub exchange_left : Problem F → ℕ → ℕ → List ℕ → List ℕ → ℕ → ℕ → Pass → Pass
  exchange_left p a b pa pb zero i s = s
  exchange_left p a b pa pb (suc k) i s =
      exchange_left p a b pa pb k (suc i) (exchange_right p a b pa pb i (length pb) 0 s)

  -- The work on the plans a and b, as they are when the pair's turn comes.
  unfoldable pub exchange_plans : Problem F → ℕ → ℕ → Pass → Pass
  exchange_plans p a b s =
      let pa = (plan_at s.plans a).order in
      let pb = (plan_at s.plans b).order in exchange_left p a b pa pb (length pa) 0 s

  -- With fewer than two plans the solution is returned as it is.
  unfoldable pub cross_exchange_improve : ℕ → Problem F → Solution F → Option (Solution F)
  cross_exchange_improve fuel p sol =
      if ltb (length sol.plans) 2
      then some sol
      else elim (pair_rounds (exchange_plans p) fuel sol.plans) [
        | none ↦ none
        | some plans ↦ priced p plans
      ]
