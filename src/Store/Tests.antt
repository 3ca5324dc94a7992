-- ===== src/Store/Tests.antt =====
-- The theorems on the store, at small stores.
use usps_main.Common.{
  ◌+◌, ◌≤◌, ◌≡◌, refl, sym, subst, String, true, false, none, some, [], ◌∷◌, pos, str_eq,
  if◌then◌else◌, arith, Bool-cases, inl, inr, ap, All, length, ◌∙◌,
}
use usps_main.Common.Maps.{lookup, insert, index}
use usps_main.Model.{Route, Leg, OrderOut, Geofence, GeofenceInput, AdvanceRequest}
use usps_main.Store.{Memory, MemDelivery, not_found}
use usps_main.Store.Page.Walk.{follow, items}
use usps_main.Store.Orders.{zero_order, list_orders, status_matches}
use usps_main.Store.Orders.Listing.{list_orders-follow}
use usps_main.Store.Routes.{zero_route, ok, err}
use usps_main.Store.Advance.{advance_route, is_blocked, advanced}
use usps_main.Store.Advance.Steps.{InOrder, open_legs}
use usps_main.Store.Advance.Progress.{advance_route-InOrder, advance_times, advance_times-open_legs}
use usps_main.Store.Geofences.{
  get_geofence, create_geofence, patch_geofence, delete_geofence, patched, geofence_of,
  zero_geofence,
}
use usps_main.Store.Geofences.Tenants.{is_listed, geofence-Apart, geofence-Life}
use usps_main.Store.Deliveries.{fetch_due_webhook_deliveries, pending_delivery}
use usps_main.Store.Deliveries.Due.{Fetchable, fetch_due_webhook_deliveries-Fetchable}
use usps_main.Store.Metrics.{Filter, aggregate}
use usps_main.Store.Metrics.Histogram.{IsTally, total, selected, aggregate-IsTally}

abbrev leg : String → String → Leg
leg id status = record {
  id = id;
  seq = 1;
  kind = "";
  break_sec = pos 0;
  from_stop_id = "s1";
  to_stop_id = "s2";
  dist_m = pos 0;
  drive_sec = pos 0;
  eta_arrival = "";
  eta_departure = "";
  status = status;
}

-- Two legs, as PlanRoutes makes them.
abbrev route : Route
route = record zero_route { legs = leg "l1" "in_progress" ∷ leg "l2" "pending" ∷ [] }

abbrev order : String → OrderOut
order id = record {
  id = id;
  tenant_id = "t";
  external_ref = "";
  priority = pos 0;
  status = "pending";
}

abbrev fence : Geofence
fence = record zero_geofence { id = "g"; tenant_id = "t" }

abbrev fence_input : GeofenceInput
fence_input = record {
  name = "depot";
  kind = "circle";
  radius_m = pos 50;
  center = none;
  rules = none;
}

abbrev delivery : MemDelivery
delivery = pending_delivery "d" "t" "s" "order.created" "http://x" "" [] 5

abbrev store : Memory
store = record {
  orders = ("a", order "a") ∷ ("b", order "b") ∷ [];
  by_ten = ("t", "a" ∷ "b" ∷ []) ∷ [];
  routes = ("r", route) ∷ [];
  routes_ten = ("t", "r" ∷ []) ∷ [];
  hos = [];
  gfs = ("g", fence) ∷ [];
  gfs_ten = ("t", "g" ∷ []) ∷ [];
  subs = [];
  deliveries = ("d", delivery) ∷ [];
  deliveries_by_tenant = ("t", "d" ∷ []) ∷ [];
  dlq = [];
  plan_mx = [];
  opt_cfg = [];
}

abbrev forced_request : AdvanceRequest
forced_request = record { reason = ""; force = true }

list_orders-follow_example :
    follow (λ c. list_orders store "t" "" c (pos 1)) 3 ""
    ≡ some (
        items
          (λ id. index zero_order id store.orders)
          (λ o. status_matches "" o.status)
          ("a" ∷ "b" ∷ []))
unfolding index lookup
list_orders-follow_example =
    list_orders-follow store "t" "" (pos 1) (refl, (refl, tt)) (refl, (refl, tt))

route-InOrder : InOrder route.legs
route-InOrder = inr (refl, (refl, tt))

only_route : (j : String) (r : Route) → lookup j store.routes ≡ some r → InOrder r.legs
unfolding lookup
only_route j r e = elim (Bool-cases (str_eq "r" j)) [
  | inl f ↦
      let same : route ≡ r =
        ap (λ o. elim o [ none ↦ r | some x ↦ x ])
          (sym (ap (λ b. if b then some route else none) f) ∙ e) in
      subst (λ x. InOrder x.legs) same route-InOrder
  | inr f ↦ ground (arith, e, f)
]

abbrev route_behind : Route
route_behind = record route { legs = leg "l1" "visited" ∷ leg "l2" "in_progress" ∷ []; version = 1 }

advance_route-InOrder_example : InOrder route_behind.legs
unfolding lookup insert advance_route is_blocked advanced
advance_route-InOrder_example =
    advance_route-InOrder store "t" "r" forced_request "now" only_route "r" route_behind refl

advance_times-open_legs_example :
    (r : Route) × (lookup "r" (advance_times 2 "t" "r" forced_request "now" store).routes ≡ some r)
    × (open_legs r.legs ≡ 0)
unfolding lookup open_legs
advance_times-open_legs_example =
    advance_times-open_legs 2 store "t" "r" forced_request "now" route refl refl route-InOrder
      (omega arith)

geofence-Apart_example :
    (get_geofence store "other" "g" ≡ err not_found)
    × (patch_geofence store "other" "g" fence_input ≡ (store, err not_found))
    × (delete_geofence store "other" "g" ≡ (store, err not_found))
unfolding lookup
geofence-Apart_example = geofence-Apart store "other" "g" fence_input fence refl refl

geofence-Life_example :
    let created = (create_geofence store "h" "t" fence_input).0 in
    let changed = (patch_geofence created "t" "h" (record fence_input { name = "" })).0 in
    let deleted = (delete_geofence changed "t" "h").0 in
    (get_geofence created "t" "h" ≡ ok (geofence_of "h" "t" fence_input))
    × (is_listed "t" "h" created ≡ true)
    × (get_geofence changed "t" "h"
        ≡ ok (patched (record fence_input { name = "" }) (geofence_of "h" "t" fence_input)))
    × (is_listed "t" "h" changed ≡ true)
    × (get_geofence deleted "t" "h" ≡ err not_found)
    × (is_listed "t" "h" deleted ≡ false)
geofence-Life_example = geofence-Life store "h" "t" fence_input (record fence_input { name = "" })

fetch_due_webhook_deliveries-Fetchable_example :
    All (Fetchable store.deliveries 7) (fetch_due_webhook_deliveries (λ x. x) 7 store (pos 50))
    × (length (fetch_due_webhook_deliveries (λ x. x) 7 store (pos 50)) ≤ 50)
fetch_due_webhook_deliveries-Fetchable_example =
    fetch_due_webhook_deliveries-Fetchable (λ x. x) 7 store 49

abbrev all_of_tenant : Filter
all_of_tenant = record {
  tenant = "t";
  since = 0;
  event_type = "";
  status = "";
  code_min = pos 0;
  code_max = pos 0;
}

aggregate-IsTally_example :
    (total (aggregate (pos 100 ∷ []) all_of_tenant store.deliveries ("d" ∷ []) [])
      ≡ selected all_of_tenant store.deliveries ("d" ∷ []) + total [])
    × All
        (λ e. IsTally (pos 100 ∷ []) e.1)
        (aggregate (pos 100 ∷ []) all_of_tenant store.deliveries ("d" ∷ []) [])
aggregate-IsTally_example =
    aggregate-IsTally (pos 100 ∷ []) all_of_tenant store.deliveries ("d" ∷ []) [] tt
