-- ===== src/Opt/Insert/Choices.antt =====
-- The choices of greedyInsert and regretInsert name a node of the list and a plan of the solution.
use usps_main.Common.{
  ℕ, zero, suc, ◌+◌, ◌≤◌, ◌<◌, Bool, true, false, Option, none, some, List, [], ◌∷◌, length,
  Bool-cases, inl, inr, if◌then◌else◌, arith,
}
use usps_main.Opt.Float.{Float64}
use usps_main.Opt.Problem.{Problem, RoutePlan, vehicle_at}
use usps_main.Opt.Cost.{delta_cost_insert}
use usps_main.Opt.Feasible.{feasible_add_at}
use usps_main.Opt.Insert.{
  Choice, Best, positions_loop, places_loop, greedy_step, greedy_nodes, greedy_choice, no_choice,
  regret_step, regret_beats, regret_nodes, regret_choice,
}

-- The choice, if there is one, is within `m` nodes and `n` plans.
abbrev pub Within : ℕ → ℕ → Option Choice → Type 0
Within m n none = Unit {0}
Within m n (some c) = (c.node < m) × (c.plan < n)

module _ {F : Type 0} ⦃fl : Float64 F⦄ where
  module _ {B : Type 0} (P : B → Type 0) (step : ℕ → ℕ → F → B → B) (p : Problem F) (idx : ℕ) where
    positions_loop-keeps :
        (order : List ℕ) (vi k pos : ℕ) (best : B)
        → ((pos : ℕ) (c : F) (b : B) → P b → P (step vi pos c b))
        → P best
        → P (positions_loop step p idx order vi k pos best)
    unfolding positions_loop
    positions_loop-keeps order vi zero pos best keep h = h
    positions_loop-keeps order vi (suc k) pos best keep h =
        let c = delta_cost_insert p order (vehicle_at p vi) idx pos in
        elim (Bool-cases (feasible_add_at p order (vehicle_at p vi) idx pos)) [
          | inl e ↦ rw e (
              positions_loop-keeps order vi k (suc pos) (step vi pos c best) keep
                (keep pos c best h))
          | inr e ↦ rw e (positions_loop-keeps order vi k (suc pos) best keep h)
        ]

    pub places_loop-keeps :
        (vi : ℕ) (plans : List RoutePlan) (n : ℕ) (best : B)
        → vi + length plans ≤ n
        → ((v pos : ℕ) (c : F) (b : B) → v < n → P b → P (step v pos c b))
        → P best
        → P (places_loop step p idx vi plans best)
    unfolding places_loop
    places_loop-keeps vi [] n best le keep h = h
    places_loop-keeps vi (pl ∷ plans) n best le keep h =
        places_loop-keeps (suc vi) plans n _ (omega arith) keep (
          positions_loop-keeps pl.order vi (suc (length pl.order)) 0 best
            (λ pos c b. keep vi pos c b (omega arith)) h)

  Within-either :
      (m n : ℕ) (b : Bool) (x y : Best F)
      → Within m n x.choice
      → Within m n y.choice
      → Within m n (if b then x else y).choice
  Within-either m n true x y h k = h
  Within-either m n false x y h k = k

  greedy_nodes-Within :
      (p : Problem F) (plans : List RoutePlan) (ni m : ℕ) (nodes : List ℕ) (best : Best F)
      → ni + length nodes ≤ m
      → Within m (length plans) best.choice
      → Within m (length plans) (greedy_nodes p plans ni nodes best).choice
  unfolding greedy_nodes
  greedy_nodes-Within p plans ni m [] best le h = h
  greedy_nodes-Within p plans ni m (idx ∷ nodes) best le h =
      greedy_nodes-Within p plans (suc ni) m nodes _ (omega arith) (
        places_loop-keeps (λ b. Within m (length plans) b.choice) (greedy_step ni) p idx 0 plans
          (length plans) best (omega arith) (λ v pos c b lt w. ground arith) h)

  regret_nodes-Within :
      (p : Problem F) (plans : List RoutePlan) (ni m : ℕ) (nodes : List ℕ) (best : Best F)
      → ni + length nodes ≤ m
      → Within m (length plans) best.choice
      → Within m (length plans) (regret_nodes p plans ni nodes best).choice
  unfolding regret_nodes
  regret_nodes-Within p plans ni m [] best le h = h
  regret_nodes-Within p plans ni m (idx ∷ nodes) best le h =
      let found = places_loop (regret_step ni) p idx 0 plans no_choice in
      let w : Within m (length plans) found.choice =
        places_loop-keeps (λ b. Within m (length plans) b.choice) (regret_step ni) p idx 0 plans
          (length plans) no_choice (omega arith) (λ v pos c b lt w. ground arith) tt in
      regret_nodes-Within p plans (suc ni) m nodes _ (omega arith)
        (Within-either m (length plans) (regret_beats found best) found best w h)

  pub greedy_choice-Within :
      (p : Problem F) (plans : List RoutePlan) (nodes : List ℕ)
      → Within (length nodes) (length plans) (greedy_choice p plans nodes)
  unfolding greedy_choice
  greedy_choice-Within p plans nodes =
      greedy_nodes-Within p plans 0 (length nodes) nodes no_choice (omega arith) tt

  pub regret_choice-Within :
      (p : Problem F) (plans : List RoutePlan) (nodes : List ℕ)
      → Within (length nodes) (length plans) (regret_choice p plans nodes)
  unfolding regret_choice
  regret_choice-Within p plans nodes =
      regret_nodes-Within p plans 0 (length nodes) nodes no_choice (omega arith) tt
