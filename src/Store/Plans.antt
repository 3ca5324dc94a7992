-- ===== src/Store/Plans.antt =====
-- PlanRoutes, the plan metrics and the optimizer's configuration of internal/store/memory.go.
use usps_main.Common.{
  String, Bool, false, ℕ, Option, none, some, List, [], ◌∷◌, ◌++◌, pos, str_eq, if◌then◌else◌, keep,
}
use usps_main.Common.Maps.{lookup, index, insert, Map}
use usps_main.Model.{Any, text, int, float, ints, Route, Leg, OptimizeRequest}
use usps_main.Store.{Memory}
use usps_main.Store.Routes.{zero_route}

-- `item["algo"] == algo`.
unfoldable pub has_algo : String → Map Any → Bool
has_algo algo item = elim (lookup "algo" item) [
  | none ↦ false
  | some v ↦ elim v [ text a ↦ str_eq a algo | _ ↦ false ]
]

-- The first item of the algorithm is replaced; without one the item is appended.
unfoldable pub upsert : String → Map Any → List (Map Any) → List (Map Any)
unfolding has_algo
upsert algo met [] = met ∷ []
upsert algo met (item ∷ items) =
    if has_algo algo item then met ∷ items else item ∷ upsert algo met items

abbrev pub demo_leg : String → ℕ → String → String → String → Leg
demo_leg id seq from to status = record {
  id = id;
  seq = seq;
  kind = "";
  break_sec = pos 0;
  from_stop_id = from;
  to_stop_id = to;
  dist_m = pos 0;
  drive_sec = pos 0;
  eta_arrival = "";
  eta_departure = "";
  status = status;
}

-- The route that PlanRoutes makes up.
unfoldable pub planned_route : String → String → String → String → Route
planned_route id leg1 leg2 plan_date = record zero_route {
  id = id;
  version = 1;
  plan_date = plan_date;
  status = "planned";
  legs = demo_leg leg1 1 "s1" "s2" "in_progress" ∷ demo_leg leg2 2 "s2" "s3" "pending" ∷ [];
}

abbrev pub planner_metrics : String → Map Any
planner_metrics algo =
    ("algo", text algo)
    ∷ ("iterations", int (pos 1))
    ∷ ("improvements", int (pos 0))
    ∷ ("acceptedWorse", int (pos 0))
    ∷ ("bestCost", float 0)
    ∷ ("finalCost", float 0)
    ∷ ("removalSelects", ints (pos 1 ∷ pos 0 ∷ []))
    ∷ ("insertSelects", ints (pos 1 ∷ pos 0 ∷ []))
    ∷ []

-- `m.planMx[tenant][date]`, with the nil maps on the way read as empty.
unfoldable pub plan_items : Memory → String → String → List (Map Any)
plan_items m tenant plan_date = index [] plan_date (index [] tenant m.plan_mx)

-- `m.planMx[tenant][date] = items`.
unfoldable pub set_plan_items : Memory → String → String → List (Map Any) → Memory
set_plan_items m tenant plan_date items = record m {
  plan_mx = insert tenant (insert plan_date items (index [] tenant m.plan_mx)) m.plan_mx;
}

-- The three UUIDs are those of the route and its two legs.
unfoldable pub plan_routes :
    Memory → String → String → String → OptimizeRequest → Memory × List Route × String
unfolding upsert planned_route plan_items set_plan_items
plan_routes m id leg1 leg2 req =
    let r = planned_route id leg1 leg2 req.plan_date in
    let m' = record m {
      routes = insert id r m.routes;
      routes_ten =
          insert req.tenant_id (index [] req.tenant_id m.routes_ten ++ id ∷ []) m.routes_ten;
    } in
    let algo = if str_eq req.algorithm "" then "greedy" else req.algorithm in
    let items = upsert algo (planner_metrics algo) (plan_items m' req.tenant_id req.plan_date) in
    (set_plan_items m' req.tenant_id req.plan_date items, r ∷ [], "opt_mem")

unfoldable pub save_plan_metrics : Memory → String → String → String → Map Any → Memory
unfolding upsert plan_items set_plan_items
save_plan_metrics m tenant plan_date algo metrics =
    set_plan_items m tenant plan_date
      (upsert algo (insert "algo" (text algo) metrics) (plan_items m tenant plan_date))

unfoldable pub list_plan_metrics : Memory → String → String → String → List (Map Any)
unfolding has_algo plan_items
list_plan_metrics m tenant plan_date algo =
    let items = plan_items m tenant plan_date in
    if str_eq algo "" then items else keep (has_algo algo) items

unfoldable pub get_optimizer_config : Memory → String → Option (Map Any)
get_optimizer_config m tenant = lookup tenant m.opt_cfg

unfoldable pub save_optimizer_config : Memory → String → Map Any → Memory
save_optimizer_config m tenant cfg = record m { opt_cfg = insert tenant cfg m.opt_cfg }
