-- ===== src/Opt/Cost.antt =====
-- haversine, cost, pathDistanceNodes, deltaCostAppend, deltaCostInsert and schedulePlan.
use usps_main.Common.{
  ℕ, zero, suc, Bool, true, false, Option, none, some, List, [], ◌∷◌, ◌&&◌, not, any, leb, is_pos,
  ltb_ℤ, ltb, ◌==◌, if◌then◌else◌, length, get_or,
}
use usps_main.Common.Maps.{index}
use usps_main.Common.Count.{mem}
use usps_main.Opt.Float.{Float64, ◌⊕◌, ◌⊖◌, ◌⊗◌, ◌⊘◌, ◌≺◌}
use usps_main.Opt.Problem.{
  Tw, Node, Vehicle, Problem, RoutePlan, Solution, zero_f, node_at, vehicle_at, visited,
}

-- A place: the pair of `curLat` and `curLng`.
abbrev pub Place : Type 0 → Type 0
Place F = F × F

-- The variables of the loop of `cost` over a plan.
pub record Tour (F : Type 0) : Type 0 where
  pub t : F
  pub total : F
  pub place : Place F

-- The variables of the loop of schedulePlan.
pub record Clock (F : Type 0) : Type 0 where
  pub t : F
  pub dist_total : F
  pub late_total : F
  pub drive_since_break : F
  pub cur : Place F

-- schedulePlan's totals.
pub record Totals (F : Type 0) : Type 0 where
  pub drive : F
  pub dist : F
  pub late : F

module _ {F : Type 0} ⦃fl : Float64 F⦄ where
  unfoldable pub haversine : F → F → F → F → F
  haversine lat1 lon1 lat2 lon2 =
      let half_turn = fl.lit 180 1 in
      let d_lat = (lat2 ⊖ lat1) ⊗ fl.pi ⊘ half_turn in
      let d_lon = (lon2 ⊖ lon1) ⊗ fl.pi ⊘ half_turn in
      let s_lat = fl.sin (d_lat ⊘ fl.lit 2 1) in
      let s_lon = fl.sin (d_lon ⊘ fl.lit 2 1) in
      let a =
        s_lat ⊗ s_lat
        ⊕ fl.cos (lat1 ⊗ fl.pi ⊘ half_turn) ⊗ fl.cos (lat2 ⊗ fl.pi ⊘ half_turn) ⊗ s_lon ⊗ s_lon in
      let c = fl.lit 2 1 ⊗ fl.atan2 (fl.sqrt a) (fl.sqrt (fl.lit 1 1 ⊖ a)) in fl.lit 6371000 1 ⊗ c

  -- From a place to a node.
  abbrev pub leg_to : Place F → Node F → F
  leg_to at nd = haversine at.0 at.1 nd.lat nd.lng

  abbrev pub place_of : Node F → Place F
  place_of nd = (nd.lat, nd.lng)

  -- The depot, or the plan's first node.
  unfoldable pub start_place : Problem F → Vehicle F → List ℕ → Place F
  start_place p v order = elim v.start_lat_lng [
    | some at ↦ at
    | none ↦ elim order [ [] ↦ (zero_f, zero_f) | i ∷ _ ↦ place_of (node_at p i) ]
  ]

  -- Seconds behind the end of the window.
  unfoldable pub lateness : Option Tw → F → F
  lateness none arr = zero_f
  lateness (some tw) arr =
      if tw.end == 0
      then zero_f
      else if fl.unix_seconds tw.end ≺ arr
      then arr ⊖ fl.unix_seconds tw.end
      else zero_f

  -- `w := p.Objectives["driveTime"]; if w == 0 { w = 1 }`.
  unfoldable pub drive_weight : Problem F → F
  drive_weight p =
      let w = index zero_f "driveTime" p.objectives in if fl.eq w zero_f then fl.lit 1 1 else w

  abbrev pub speed : Problem F → F
  speed p = p.speed_kph ⊘ fl.lit 36 10

  -- One round of the loop of `cost` over a plan's nodes.
  unfoldable pub tour_step : Problem F → Tour F → Node F → Tour F
  unfolding haversine lateness drive_weight
  tour_step p s nd =
      let dist = leg_to s.place nd in
      let drive = dist ⊘ speed p in
      let late = lateness nd.tw (s.t ⊕ drive) in
      record {
        t = s.t ⊕ drive ⊕ fl.of_int nd.service_sec;
        total =
            s.total
            ⊕ (drive_weight p ⊗ drive
                ⊕ index zero_f "distance" p.objectives ⊗ dist
                ⊕ index zero_f "lateness" p.objectives ⊗ late);
        place = place_of nd;
      }

  unfoldable pub tour_loop : Problem F → List ℕ → Tour F → Tour F
  unfolding tour_step
  tour_loop p [] s = s
  tour_loop p (i ∷ order) s = tour_loop p order (tour_step p s (node_at p i))

  unfoldable pub plans_loop : Problem F → ℕ → List RoutePlan → F → F
  unfolding tour_loop start_place
  plans_loop p vi [] total = total
  plans_loop p vi (pl ∷ plans) total =
      let from = start_place p (vehicle_at p vi) pl.order in
      plans_loop p (suc vi) plans
        (tour_loop p pl.order (record { t = zero_f; total = total; place = from })).total

  -- The number of nodes that no plan visits, as a float; `k` nodes are left, from the index `i` on.
  unfoldable pub failed_loop : List ℕ → ℕ → ℕ → F → F
  failed_loop present zero i failed = failed
  failed_loop present (suc k) i failed =
      failed_loop present k (suc i) (if mem i present then failed else failed ⊕ fl.lit 1 1)

  unfoldable pub cost : Problem F → List RoutePlan → F
  unfolding plans_loop failed_loop
  cost p plans =
      plans_loop p 0 plans zero_f
      ⊕ index zero_f "failed" p.objectives
        ⊗ failed_loop (visited plans) (length p.nodes) 0 zero_f
        ⊗ fl.lit 3600 1

  -- Whether each plan has a vehicle, and each node that the plans visit is a node of the problem.
  unfoldable pub in_range : Problem F → List RoutePlan → Bool
  in_range p plans =
      leb (length plans) (length p.vehicles)
      && not (any (λ i. leb (length p.nodes) i) (visited plans))

  -- `sol.Cost = cost(p, sol)`. The loops of `cost` read `p.Vehicles[vi]` of each plan and `p.Nodes[idx]`
  -- of each node visited, so it panics, `none`, exactly where one of these indices is out of range.
  unfoldable pub priced : Problem F → List RoutePlan → Option (Solution F)
  unfolding cost in_range
  priced p plans =
      if in_range p plans then some (record { plans = plans; cost = cost p plans }) else none

  unfoldable pub path_loop : Problem F → List ℕ → Place F → F → F
  unfolding haversine
  path_loop p [] at total = total
  path_loop p (i ∷ order) at total =
      path_loop p order (place_of (node_at p i)) (total ⊕ leg_to at (node_at p i))

  unfoldable pub path_distance_nodes : Problem F → List ℕ → F
  unfolding path_loop
  path_distance_nodes p [] = zero_f
  path_distance_nodes p (i ∷ order) = path_loop p (i ∷ order) (place_of (node_at p i)) zero_f

  unfoldable pub delta_cost_append : Problem F → List ℕ → ℕ → F
  unfolding haversine
  delta_cost_append p [] idx = zero_f
  delta_cost_append p (i ∷ order) idx =
      leg_to (place_of (node_at p (get_or (i ∷ order) (length order) 0))) (node_at p idx)

  -- `prevLat, prevLng`: the depot, the first node, or the node before the position.
  unfoldable pub place_before : Problem F → Vehicle F → List ℕ → ℕ → Place F
  unfolding start_place
  place_before p v order zero = start_place p v order
  place_before p v order (suc before) = place_of (node_at p (get_or order before 0))

  unfoldable pub delta_cost_insert : Problem F → List ℕ → Vehicle F → ℕ → ℕ → F
  unfolding haversine place_before
  delta_cost_insert p order v idx pos =
      let prev = place_before p v order pos in
      let next =
        if ltb pos (length order) then place_of (node_at p (get_or order pos 0)) else prev in
      let nd = node_at p idx in
      let add = leg_to prev nd ⊕ haversine nd.lat nd.lng next.0 next.1 in
      let rem = haversine prev.0 prev.1 next.0 next.1 in add ⊖ rem ⊕ fl.of_int nd.service_sec

  -- Driving to the node, with a break before it where the limit on driving would be passed.
  unfoldable pub drive_to : Problem F → Clock F → F → Clock F
  drive_to p s drive =
      let over =
        is_pos p.hos_max_drive_sec
        && ltb_ℤ p.hos_max_drive_sec (fl.to_int (s.drive_since_break ⊕ drive)) in
      if over
      then record s { t = s.t ⊕ fl.of_int p.break_sec ⊕ drive; drive_since_break = zero_f ⊕ drive }
      else record s { t = s.t ⊕ drive; drive_since_break = s.drive_since_break ⊕ drive }

  -- An early arrival waits for the window to open.
  unfoldable pub wait_open : Option Tw → F → F
  wait_open none t = t
  wait_open (some tw) t =
      if tw.start == 0
      then t
      else if t ≺ fl.unix_seconds tw.start
      then fl.unix_seconds tw.start
      else t

  unfoldable pub is_late : Option Tw → F → Bool
  is_late none t = false
  is_late (some tw) t = if tw.end == 0 then false else fl.unix_seconds tw.end ≺ t

  unfoldable pub overdue : Option Tw → F → F
  overdue none t = zero_f
  overdue (some tw) t = t ⊖ fl.unix_seconds tw.end

  unfoldable pub schedule_loop : Problem F → List ℕ → Clock F → Totals F × Bool
  unfolding haversine drive_to wait_open is_late overdue
  schedule_loop p [] s = (record { drive = s.t; dist = s.dist_total; late = s.late_total }, true)
  schedule_loop p (i ∷ order) s =
      let nd = node_at p i in
      let d = leg_to s.cur nd in
      let driven = drive_to p s (d ⊘ speed p) in
      let arr = wait_open nd.tw driven.t in
      let rest = schedule_loop p order (record driven {
        t = arr ⊕ fl.of_int nd.service_sec;
        dist_total = s.dist_total ⊕ d;
        cur = place_of nd;
      }) in
      if is_late nd.tw arr
      then (
        record { drive = arr; dist = s.dist_total ⊕ d; late = s.late_total ⊕ overdue nd.tw arr },
        false,
      )
      else rest

  unfoldable pub schedule_plan : Problem F → List ℕ → Vehicle F → Totals F × Bool
  unfolding schedule_loop start_place
  schedule_plan p order v = schedule_loop p order (record {
    t = zero_f;
    dist_total = zero_f;
    late_total = zero_f;
    drive_since_break = zero_f;
    cur = start_place p v order;
  })

  -- The seconds that two windows share.
  unfoldable pub tw_overlap : Tw → Tw → F
  tw_overlap a b =
      let start = if ltb a.start b.start then b.start else a.start in
      let end = if ltb b.end a.end then b.end else a.end in
      if ltb end start then zero_f else fl.seconds_between start end
