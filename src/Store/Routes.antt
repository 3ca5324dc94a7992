-- ===== src/Store/Routes.antt =====
-- GetRoute, AssignRoute, PatchRoute, ListRoutes, ListActiveRoutesForDriver and PlanRoutes' route
-- of internal/store/memory.go.
use usps_main.Common.{
  String, Bool, true, ◌+◌, none, some, List, [], ◌∷◌, ◌&&◌, not, ℤ, pos, str_eq, ◌==◌,
  if◌then◌else◌,
}
use usps_main.Common.Maps.{lookup, index, insert, Map}
use usps_main.Model.{Route, RoutePatch}
use usps_main.Store.{Memory, Error, not_found}
use usps_main.Store.Page.{page}

-- Go's `(T, error)` where a non-nil error goes with the zero value.
pub data Result {ℓ} (A : Type ℓ) : Type ℓ where
  ok : A → Result A
  err : Error → Result A

abbrev pub zero_route : Route
zero_route = record {
  id = "";
  version = 0;
  plan_date = "";
  status = "";
  driver_id = "";
  vehicle_id = "";
  legs = [];
  cost_breakdown = [];
  auto_advance = none;
  breaks_count = pos 0;
  total_break_sec = pos 0;
}

unfoldable pub get_route : Memory → String → String → Result Route
get_route m tenant route_id = elim (lookup route_id m.routes) [
  | none ↦ err not_found
  | some r ↦ ok r
]

-- The assignments to `r` in AssignRoute.
unfoldable pub assigned : String → String → Route → Route
assigned driver vehicle r = record r {
  driver_id = driver;
  vehicle_id = vehicle;
  version = if r.version == 0 then 1 else r.version;
  status = "assigned";
}

-- A missing route is the zero route, and is stored.
unfoldable pub assign_route : Memory → String → String → String → String → Memory × Route
unfolding assigned
assign_route m tenant route_id driver vehicle =
    let r = assigned driver vehicle (index zero_route route_id m.routes) in
    (record m { routes = insert route_id r m.routes }, r)

-- The assignments to `r` in PatchRoute.
unfoldable pub patched : RoutePatch → Route → Route
patched patch r = record r {
  status = if str_eq patch.status "" then r.status else patch.status;
  version = if r.version == 0 then 1 else r.version + 1;
}

unfoldable pub patch_route : Memory → String → String → RoutePatch → Memory × Route
unfolding patched
patch_route m tenant route_id patch =
    let r = patched patch (index zero_route route_id m.routes) in
    (record m { routes = insert route_id r m.routes }, r)

unfoldable pub list_routes : Memory → String → String → ℤ → List Route × String
list_routes m tenant cursor limit =
    page (λ id. index zero_route id m.routes) (λ _. true) (index [] tenant m.routes_ten) cursor
      limit

-- `r.DriverID == driverID && r.Status != "completed"`.
abbrev pub is_active_for : String → Route → Bool
is_active_for driver r = str_eq r.driver_id driver && not (str_eq r.status "completed")

-- The loop over the map; `order` is the order in which Go ranges over its entries.
unfoldable pub active_ids : String → Map Route → List String
active_ids driver [] = []
active_ids driver ((id, r) ∷ rest) =
    let more = active_ids driver rest in if is_active_for driver r then id ∷ more else more

unfoldable pub list_active_routes_for_driver :
    (Map Route → Map Route) → Memory → String → String → List String
unfolding active_ids
list_active_routes_for_driver order m tenant driver = active_ids driver (order m.routes)
