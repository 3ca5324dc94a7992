-- ===== src/Opt/Insert.antt =====
-- greedyInsert and regretInsert of internal/opt/alns_engine.go, up to the local improvement.
pub mod Choices
pub mod Conserve
use usps_main.Common.{
  ℕ, zero, suc, Bool, true, false, Option, none, some, List, [], ◌∷◌, ◌++◌, ◌&&◌, ◌||◌, ltb,
  if◌then◌else◌, length, get_or, set, remove_at, insert_at,
}
use usps_main.Opt.Float.{Float64, ◌⊖◌, ◌≺◌}
use usps_main.Opt.Problem.{Problem, RoutePlan, Solution, vehicle_at, zero_f, plan_at, with_order}
use usps_main.Opt.Cost.{delta_cost_insert, priced}
use usps_main.Opt.Feasible.{feasible_add_at}

-- Where a node goes: its index in the list of nodes, the plan, and the position in the plan.
pub record Choice : Type 0 where
  pub node : ℕ
  pub plan : ℕ
  pub pos : ℕ

-- The best choice so far with its cost, and the second best cost, which only regret reads.
pub record Best (F : Type 0) : Type 0 where
  pub choice : Option Choice
  pub cost : F
  pub second : F

-- The plan with the fewest nodes, the first of them; `i` is the index of the list's head.
unfoldable pub shortest_loop : List RoutePlan → ℕ → ℕ → ℕ → ℕ
shortest_loop [] i best size = best
shortest_loop (pl ∷ plans) i best size =
    shortest_loop plans (suc i) (if ltb (length pl.order) size then i else best)
      (if ltb (length pl.order) size then length pl.order else size)

unfoldable pub shortest : List RoutePlan → ℕ
unfolding shortest_loop
shortest [] = 0
shortest (pl ∷ plans) = shortest_loop (pl ∷ plans) 0 0 (length pl.order)

-- `sol.Plans[i].Order = …`.
abbrev pub set_order : List RoutePlan → ℕ → List ℕ → List RoutePlan
set_order plans i order = set plans i (with_order (plan_at plans i) order)

-- No feasible place: the first node goes to the end of the shortest plan.
unfoldable pub append_shortest : List RoutePlan → ℕ → List RoutePlan
unfolding shortest
append_shortest plans node =
    set_order plans (shortest plans) ((plan_at plans (shortest plans)).order ++ node ∷ [])

unfoldable pub insert_choice : List RoutePlan → List ℕ → Choice → List RoutePlan
insert_choice plans nodes c =
    set_order plans c.plan (insert_at c.pos (get_or nodes c.node 0) (plan_at plans c.plan).order)

abbrev pub is_none {ℓ} : {B : Type ℓ} → Option B → Bool
is_none none = true
is_none (some _) = false

module _ {F : Type 0} ⦃fl : Float64 F⦄ where
  -- The loops over the plans and over the positions of each, with a step for each feasible place;
  -- `k` positions are left, from `pos` on.
  unfoldable pub positions_loop {ℓ} :
      {B : Type ℓ} → (ℕ → ℕ → F → B → B) → Problem F → ℕ → List ℕ → ℕ → ℕ → ℕ → B → B
  positions_loop step p idx order vi zero pos best = best
  positions_loop step p idx order vi (suc k) pos best =
      positions_loop step p idx order vi k (suc pos) (
        if feasible_add_at p order (vehicle_at p vi) idx pos
        then step vi pos (delta_cost_insert p order (vehicle_at p vi) idx pos) best
        else best)

  unfoldable pub places_loop {ℓ} :
      {B : Type ℓ} → (ℕ → ℕ → F → B → B) → Problem F → ℕ → ℕ → List RoutePlan → B → B
  unfolding positions_loop
  places_loop step p idx vi [] best = best
  places_loop step p idx vi (pl ∷ plans) best =
      places_loop step p idx (suc vi) plans
        (positions_loop step p idx pl.order vi (suc (length pl.order)) 0 best)

  -- greedyInsert keeps the cheapest place of all.
  abbrev pub greedy_step : ℕ → ℕ → ℕ → F → Best F → Best F
  greedy_step ni vi pos c best =
      if c ≺ best.cost
      then record best { choice = some (record { node = ni; plan = vi; pos = pos }); cost = c }
      else best

  unfoldable pub greedy_nodes : Problem F → List RoutePlan → ℕ → List ℕ → Best F → Best F
  unfolding places_loop
  greedy_nodes p plans ni [] best = best
  greedy_nodes p plans ni (idx ∷ nodes) best =
      greedy_nodes p plans (suc ni) nodes (places_loop (greedy_step ni) p idx 0 plans best)

  abbrev pub no_choice : Best F
  no_choice = record { choice = none; cost = fl.max_float; second = fl.max_float }

  unfoldable pub greedy_choice : Problem F → List RoutePlan → List ℕ → Option Choice
  unfolding greedy_nodes
  greedy_choice p plans nodes = (greedy_nodes p plans 0 nodes no_choice).choice

  -- The two cheapest places of one node.
  abbrev pub regret_step : ℕ → ℕ → ℕ → F → Best F → Best F
  regret_step ni vi pos c best =
      if c ≺ best.cost
      then record {
        choice = some (record { node = ni; plan = vi; pos = pos });
        cost = c;
        second = best.cost;
      }
      else if c ≺ best.second
      then record best { second = c }
      else best

  -- Whether a node's places beat the best node so far.
  unfoldable pub regret_beats : Best F → Best F → Bool
  regret_beats found best =
      let raw = found.second ⊖ found.cost in
      let regret = if raw ≺ zero_f then zero_f else raw in
      found.cost ≺ fl.max_float && ((best.second ⊖ best.cost) ≺ regret || is_none best.choice)

  unfoldable pub regret_nodes : Problem F → List RoutePlan → ℕ → List ℕ → Best F → Best F
  unfolding places_loop regret_beats
  regret_nodes p plans ni [] best = best
  regret_nodes p plans ni (idx ∷ nodes) best =
      let found = places_loop (regret_step ni) p idx 0 plans no_choice in
      regret_nodes p plans (suc ni) nodes (if regret_beats found best then found else best)

  unfoldable pub regret_choice : Problem F → List RoutePlan → List ℕ → Option Choice
  unfolding regret_nodes
  regret_choice p plans nodes = (regret_nodes p plans 0 nodes no_choice).choice

-- The loop `for len(nodes) > 0`, over the way to choose. `none` is the panic on `sol.Plans[0]`, where
-- there is no plan, or fuel that ran out.
unfoldable pub insert_loop :
    (List RoutePlan → List ℕ → Option Choice)
    → ℕ
    → List RoutePlan
    → List ℕ
    → Option (List RoutePlan)
insert_loop choose fuel plans [] = some plans
insert_loop choose zero plans (x ∷ nodes) = none
insert_loop choose (suc fuel) [] (x ∷ nodes) = none
insert_loop choose (suc fuel) (pl ∷ plans) (x ∷ nodes) = elim (choose (pl ∷ plans) (x ∷ nodes)) [
  | none ↦ insert_loop choose fuel (append_shortest (pl ∷ plans) x) nodes
  | some c ↦
      insert_loop choose fuel (insert_choice (pl ∷ plans) (x ∷ nodes) c)
        (remove_at c.node (x ∷ nodes))
]

module _ {F : Type 0} ⦃fl : Float64 F⦄ where
  -- Each round places one node, so as many rounds as nodes are enough.
  unfoldable pub greedy_insert : Problem F → Solution F → List ℕ → Option (Solution F)
  unfolding insert_loop greedy_choice
  greedy_insert p sol [] = some sol
  greedy_insert p sol (x ∷ removed) =
      elim (insert_loop (greedy_choice p) (length (x ∷ removed)) sol.plans (x ∷ removed)) [
        | none ↦ none
        | some plans ↦ priced p plans
      ]

  -- regretInsert behind its early return, up to the call of orOptLocalImprove.
  unfoldable pub regret_place : Problem F → List RoutePlan → List ℕ → Option (Solution F)
  unfolding insert_loop regret_choice
  regret_place p plans removed =
      elim (insert_loop (regret_choice p) (length removed) plans removed) [
        | none ↦ none
        | some plans' ↦ priced p plans'
      ]
