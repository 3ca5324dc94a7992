-- ===== src/Opt/Tests.antt =====
-- The optimiser at a toy arithmetic, and the theorems at concrete problems.
use usps_main.Common.{
  ℕ, ◌+◌, ◌-◌, ◌*◌, ◌/◌, ◌^◌, ◌<◌, ◌≡◌, refl, true, false, none, some, List, [], ◌∷◌, ltb, ◌==◌,
  if◌then◌else◌, length, arith, pos, to_nat,
}
use usps_main.Common.Count.{count, hit}
use usps_main.Opt.Float.{Float64}
use usps_main.Opt.Problem.{Problem, Node, Vehicle, RoutePlan, Solution, visited}
use usps_main.Opt.Visits.{visits}
use usps_main.Opt.Cost.{in_range, path_distance_nodes}
use usps_main.Opt.OrOpt.{or_opt_local_improve}
use usps_main.Opt.OrOpt.Hang.{or_opt_local_improve-none}
use usps_main.Opt.Insert.{greedy_insert, regret_place}
use usps_main.Opt.Insert.Conserve.{greedy_insert-conserves, regret_place-conserves}
use usps_main.Opt.TwoOpt.{two_opt_improve}
use usps_main.Opt.TwoOpt.Whole.{KeepsAll, two_opt_improve-returns}
use usps_main.Opt.Cross.{pairs_loop, exchange_plans}
use usps_main.Opt.Cross.Conserve.{Balanced, SameVisits, cross_pass-SameVisits}
use usps_main.Opt.TwoOptStar.{exchange_segments}
use usps_main.Opt.TwoOptStar.Lost.{exchange_segments-Balanced, exchange_segments-lost}

abbrev dist : ℕ → ℕ → ℕ
dist a b = if ltb a b then b - a else a - b

-- Whole numbers for floats: literals are rounded down, a difference is a distance.
instance abbrev toy : Float64 ℕ
toy = record {
  lit = λ n d. n / d;
  max_float = 2 ^ 60;
  pi = 180;
  add = λ a b. a + b;
  sub = dist;
  mul = λ a b. a * b;
  div = λ a b. a / b;
  lt = ltb;
  eq = λ a b. a == b;
  sin = λ x. x;
  cos = λ _. 1;
  sqrt = λ x. x;
  atan2 = λ x _. x;
  exp = λ _. 0;
  max = λ a b. if ltb a b then b else a;
  of_int = to_nat;
  to_int = pos;
  unix_seconds = λ t. t;
  seconds_between = λ a b. b - a;
}

abbrev stop : ℕ → Node ℕ
stop lat = record {
  id = "n";
  lat = lat;
  lng = 0;
  service_sec = pos 1;
  tw = none;
  demand = record { weight = 1; volume = 1 };
  skills = [];
}

abbrev van : Vehicle ℕ
van = record {
  id = "v";
  cap_weight = 5;
  cap_volume = 0;
  skills = [];
  start_lat_lng = none;
  end_lat_lng = none;
}

-- Five stops on a line and two vans.
abbrev town : Problem ℕ
town = record {
  nodes = stop 0 ∷ stop 4 ∷ stop 8 ∷ stop 12 ∷ stop 16 ∷ [];
  vehicles = van ∷ van ∷ [];
  speed_kph = 50;
  objectives = [];
  hos_max_drive_sec = pos 0;
  break_sec = pos 0;
  iterations_limit = pos 0;
  initial_temp = 1;
  cooling = 0;
  initial_removal_weights = [];
  initial_insertion_weights = [];
}

abbrev plan : List ℕ → RoutePlan
plan order = record { vehicle_id = "v"; order = order }

abbrev zigzag : Solution ℕ
zigzag = record { plans = plan (0 ∷ 2 ∷ 1 ∷ 3 ∷ []) ∷ plan (4 ∷ []) ∷ []; cost = 0 }

or_opt_local_improve-none_example : or_opt_local_improve 7 town zigzag.plans ≡ none
or_opt_local_improve-none_example =
    or_opt_local_improve-none 7 town zigzag.plans 0 (omega arith) (omega arith)

abbrev stripped : Solution ℕ
stripped = record { plans = plan (0 ∷ 3 ∷ []) ∷ plan (4 ∷ []) ∷ []; cost = 0 }

greedy_insert-conserves_example :
    (sol : Solution ℕ) × (greedy_insert town stripped (2 ∷ 1 ∷ []) ≡ some sol)
    × (in_range town sol.plans ≡ true)
    × (length sol.plans ≡ 2)
    × ((a : ℕ) → visits a sol.plans ≡ count a (2 ∷ 1 ∷ []) + visits a stripped.plans)
unfolding in_range visited
greedy_insert-conserves_example =
    greedy_insert-conserves town stripped (2 ∷ 1 ∷ []) (omega arith) refl refl

regret_place-conserves_example :
    (sol : Solution ℕ) × (regret_place town stripped.plans (2 ∷ 1 ∷ []) ≡ some sol)
    × (in_range town sol.plans ≡ true)
    × (length sol.plans ≡ 2)
    × ((a : ℕ) → visits a sol.plans ≡ count a (2 ∷ 1 ∷ []) + visits a stripped.plans)
unfolding in_range visited
regret_place-conserves_example =
    regret_place-conserves town stripped.plans (2 ∷ 1 ∷ []) (omega arith) refl refl

toy_rank : (x y : ℕ) → ltb (x + 1 / 1_000_000) y ≡ true → x < y
toy_rank x y h = ground arith

two_opt_improve-returns_example :
    (sol : Solution ℕ) × (two_opt_improve (2 ^ 60) town zigzag ≡ some sol)
    × KeepsAll town 0 zigzag.plans sol.plans
    × ((a : ℕ) → visits a sol.plans ≡ visits a zigzag.plans)
unfolding path_distance_nodes in_range visited
two_opt_improve-returns_example =
    two_opt_improve-returns town (λ x. x) toy_rank (2 ^ 60) zigzag refl (omega arith)

cross_pass-SameVisits_example :
    SameVisits zigzag.plans
      (pairs_loop
        (exchange_plans town)
        2
        2
        0
        (record { plans = zigzag.plans; improved = false })).plans
cross_pass-SameVisits_example =
    cross_pass-SameVisits town (record { plans = zigzag.plans; improved = false })

exchange_segments-Balanced_example :
    Balanced (0 ∷ 1 ∷ 2 ∷ []) (3 ∷ 4 ∷ []) (exchange_segments (0 ∷ 1 ∷ 2 ∷ []) (3 ∷ 4 ∷ []) 1 0 2 2)
exchange_segments-Balanced_example = exchange_segments-Balanced (0 ∷ 1 ∷ 2 ∷ []) (3 ∷ 4 ∷ []) 1 0 2

-- 0, 1, 2 and 3, 4: the node 1 is gone, and 4 stands twice.
exchange_segments-lost_example :
    let c = exchange_segments (0 ∷ 1 ∷ 2 ∷ []) (3 ∷ 4 ∷ []) 0 0 1 2 in
    count 1 c.left + count 1 c.right + hit 1 1
    ≡ count 1 (0 ∷ 1 ∷ 2 ∷ []) + count 1 (3 ∷ 4 ∷ []) + hit 1 4
exchange_segments-lost_example =
    exchange_segments-lost (0 ∷ 1 ∷ 2 ∷ []) (3 ∷ 4 ∷ []) 0 0 (omega arith) (omega arith) 1
