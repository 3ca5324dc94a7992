-- ===== src/Opt/Problem.antt =====
-- The types of internal/opt/alns_engine.go. An index of a plan into `nodes` or of a plan among
-- `vehicles` is read by `node_at` and `vehicle_at`. Past the end, where Go panics, they give a value that
-- no result shows: each function of the optimiser that reads an index ends in `cost`, which reads the
-- indices of all plans, and `priced` of Opt/Cost gives the panic there. The loops only move the indices
-- that they are given, and a removal works on plans that have been priced.
use usps_main.Common.{ℕ, String, Option, none, List, [], ◌∷◌, ◌++◌, get_or, ℤ, pos}
use usps_main.Common.Maps.{Map}
use usps_main.Opt.Float.{Float64}

pub record Tw : Type 0 where
  pub start : ℕ
  pub end : ℕ

pub record Demand (F : Type 0) : Type 0 where
  pub weight : F
  pub volume : F

pub record Node (F : Type 0) : Type 0 where
  pub id : String
  pub lat : F
  pub lng : F
  pub service_sec : ℤ
  pub tw : Option Tw
  pub demand : Demand F
  pub skills : List String

pub record Vehicle (F : Type 0) : Type 0 where
  pub id : String
  pub cap_weight : F
  pub cap_volume : F
  pub skills : List String
  pub start_lat_lng : Option (F × F)
  pub end_lat_lng : Option (F × F)

pub record Problem (F : Type 0) : Type 0 where
  pub nodes : List (Node F)
  pub vehicles : List (Vehicle F)
  pub speed_kph : F
  pub objectives : Map F
  pub hos_max_drive_sec : ℤ
  pub break_sec : ℤ
  pub iterations_limit : ℤ
  pub initial_temp : F
  pub cooling : F
  pub initial_removal_weights : List F
  pub initial_insertion_weights : List F

pub record RoutePlan : Type 0 where
  pub vehicle_id : String
  pub order : List ℕ

pub record Solution (F : Type 0) : Type 0 where
  pub plans : List RoutePlan
  pub cost : F

pub record WeightSnapshot (F : Type 0) : Type 0 where
  pub iteration : ℕ
  pub removal : F × F
  pub insertion : F × F

pub record Metrics (F : Type 0) : Type 0 where
  pub removal_selects : ℕ × ℕ
  pub insert_selects : ℕ × ℕ
  pub iterations : ℕ
  pub improvements : ℕ
  pub accepted_worse : ℕ
  pub best_cost : F
  pub final_cost : F
  pub final_removal_weights : F × F
  pub final_insertion_weights : F × F
  pub snapshots : List (WeightSnapshot F)

module _ {F : Type 0} ⦃fl : Float64 F⦄ where
  abbrev pub zero_f : F
  zero_f = fl.lit 0 1

  abbrev pub zero_node : Node F
  zero_node = record {
    id = "";
    lat = zero_f;
    lng = zero_f;
    service_sec = pos 0;
    tw = none;
    demand = record { weight = zero_f; volume = zero_f };
    skills = [];
  }

  abbrev pub zero_vehicle : Vehicle F
  zero_vehicle = record {
    id = "";
    cap_weight = zero_f;
    cap_volume = zero_f;
    skills = [];
    start_lat_lng = none;
    end_lat_lng = none;
  }

  abbrev pub node_at : Problem F → ℕ → Node F
  node_at p i = get_or p.nodes i zero_node

  abbrev pub vehicle_at : Problem F → ℕ → Vehicle F
  vehicle_at p i = get_or p.vehicles i zero_vehicle

abbrev pub zero_plan : RoutePlan
zero_plan = record { vehicle_id = ""; order = [] }

abbrev pub plan_at : List RoutePlan → ℕ → RoutePlan
plan_at plans i = get_or plans i zero_plan

-- The nodes that the plans visit, plan after plan.
unfoldable pub visited : List RoutePlan → List ℕ
visited [] = []
visited (pl ∷ plans) = pl.order ++ visited plans

abbrev pub with_order : RoutePlan → List ℕ → RoutePlan
with_order pl order = record pl { order = order }
