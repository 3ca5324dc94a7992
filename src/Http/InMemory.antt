-- ===== src/Http/InMemory.antt =====
-- The in-memory store as a store of the interface: `Memory` with what its methods draw from outside.
use usps_main.Common.{String, Bool, ℕ, suc, ◌+◌, Option, none, some, List, [], ◌∷◌, ℤ, pos, map}
use usps_main.Common.Maps.{Map}
use usps_main.Model.{Any, Route, OrderIn}
use usps_main.Store.{Memory, not_found}
use usps_main.Store.Routes
use usps_main.Store.Orders
use usps_main.Store.Advance
use usps_main.Store.Hos
use usps_main.Store.Subscriptions
use usps_main.Store.Geofences
use usps_main.Store.Deliveries
use usps_main.Store.Plans
use usps_main.Store.Metrics
use usps_main.Store.Metrics.{Agg, Row}
use usps_main.Store.Constant
use usps_main.Http.Backend.{Backend, Try, ok, err, Op}

-- The store, the UUIDs still to come, the clock, and the orders in which Go ranges over the maps.
pub record World : Type 0 where
  pub memory : Memory
  pub uuid : ℕ → String
  pub drawn : ℕ  -- how many UUIDs have been drawn
  pub now : ℕ
  pub format : ℕ → String  -- RFC 3339
  pub order_ids : Map (List String) → Map (List String)
  pub order_rows : Map Agg → Map Agg
  pub order_routes : Map Route → Map Route
  pub row_fields : Row → Map Any  -- the entries of a row, whose keys b0, b1, … go by fmt.Sprintf

abbrev pub reads : {A : Type 0} → (World → A) → Op World A
reads f w = (w, some (ok (f w)))

-- A method that may panic, and changes nothing.
abbrev pub answer_of : {A : Type 0} → Option A → Option (Try A)
answer_of none = none
answer_of (some a) = some (ok a)

abbrev pub reads_or_panics : {A : Type 0} → (World → Option A) → Op World A
reads_or_panics f w = (w, answer_of (f w))

-- A method that cannot fail, given its new store and result.
abbrev pub writes : {A : Type 0} → (World → Memory × A) → Op World A
writes f w = (record w { memory = (f w).0 }, some (ok ((f w).1)))

-- A method that changes the store and gives no value.
abbrev pub runs : (World → Memory) → Op World (Unit {0})
runs f w = (record w { memory = f w }, some (ok tt))

-- ErrNotFound is the only error of this store.
abbrev pub checked : {A : Type 0} → Routes.Result A → Try A
checked (Routes.ok a) = ok a
checked (Routes.err not_found) = err "not found"

abbrev pub tries : {A : Type 0} → (World → Memory × Routes.Result A) → Op World A
tries f w = (record w { memory = (f w).0 }, some (checked (f w).1))

-- The same, with UUIDs drawn.
abbrev pub draws : {A : Type 0} → ℕ → Op World A → Op World A
draws n op w = (record (op w).0 { drawn = w.drawn + n }, (op w).1)

-- The orders with the UUIDs that the loop draws for them.
unfoldable pub with_ids : (ℕ → String) → ℕ → List OrderIn → List (String × OrderIn)
with_ids uuid i [] = []
with_ids uuid i (o ∷ orders) = (uuid i, o) ∷ with_ids uuid (suc i) orders

abbrev pub id_of : World → ℕ → String
id_of w i = w.uuid (w.drawn + i)

abbrev pub paired : {A B : Type 0} → Memory × A × B → Memory × (A × B)
paired out = (out.0, (out.1, out.2))

abbrev pub tripled : {A B C : Type 0} → Memory × A × B × C → Memory × (A × B × C)
tripled out = (out.0, (out.1, out.2, out.3))

-- UpdateHOS may panic.
abbrev pub hos_result :
    World → Option (Memory × String × Map Any) → World × Option (Try (String × Map Any))
hos_result w none = (w, none)
hos_result w (some (m, status, st)) = (record w { memory = m }, some (ok (status, st)))

abbrev pub in_memory : Backend World
in_memory = record {
  create_orders = λ tenant orders w.
      draws (usps_main.Common.length orders)
        (writes
          λ v. tripled (Orders.create_orders v.memory tenant (with_ids v.uuid v.drawn orders)))
        w;
  list_orders = λ tenant status cursor limit.
      reads λ w. Orders.list_orders w.memory tenant status cursor limit;
  get_route = λ tenant id. tries λ w. (w.memory, Routes.get_route w.memory tenant id);
  list_routes = λ tenant cursor limit. reads λ w. Routes.list_routes w.memory tenant cursor limit;
  assign_route =
      λ tenant id driver vehicle. writes λ w. Routes.assign_route w.memory tenant id driver vehicle;
  patch_route = λ tenant id patch. writes λ w. Routes.patch_route w.memory tenant id patch;
  plan_routes = λ req.
      draws 3
        (writes λ w. paired (Plans.plan_routes w.memory (id_of w 0) (id_of w 1) (id_of w 2) req));
  insert_driver_events =
      λ tenant events. reads λ w. Constant.insert_driver_events w.memory tenant events;
  create_pod = λ req. draws 1 (reads λ w. Constant.create_pod w.memory (id_of w 0) req);
  create_subscription =
      λ req. draws 1 (writes λ w. Subscriptions.create_subscription w.memory (id_of w 0) req);
  get_subscriptions_for_event = λ tenant event_type.
      reads λ w. Subscriptions.get_subscriptions_for_event w.memory tenant event_type;
  list_subscriptions = λ tenant cursor limit.
      reads_or_panics λ w. Subscriptions.list_subscriptions w.memory tenant cursor limit;
  delete_subscription = λ tenant id. runs λ w. Subscriptions.delete_subscription w.memory tenant id;
  advance_route =
      λ tenant id req. tries λ w. Advance.advance_route w.memory tenant id req (w.format w.now);
  update_hos = λ tenant driver upd w. hos_result w (Hos.update_hos w.memory tenant driver upd);
  create_geofence = λ tenant input.
      draws 1 (writes λ w. Geofences.create_geofence w.memory (id_of w 0) tenant input);
  list_geofences =
      λ tenant cursor limit. reads λ w. Geofences.list_geofences w.memory tenant cursor limit;
  get_geofence = λ tenant id. tries λ w. (w.memory, Geofences.get_geofence w.memory tenant id);
  patch_geofence = λ tenant id input. tries λ w. Geofences.patch_geofence w.memory tenant id input;
  delete_geofence = λ tenant id. tries λ w. Geofences.delete_geofence w.memory tenant id;
  enqueue_webhook = λ tenant sub event_type url secret body. draws 1 (
      writes λ w. (
        Deliveries.enqueue_webhook (id_of w 0) w.now w.memory tenant sub event_type url secret body,
        id_of w 0,
      ));
  list_webhook_deliveries = λ tenant status cursor limit.
      reads λ w. Deliveries.list_webhook_deliveries w.memory tenant status cursor limit;
  retry_webhook_delivery =
      λ tenant id. runs λ w. Deliveries.retry_webhook_delivery w.now w.memory tenant id;
  route_stats = λ tenant plan_date. reads λ w. Constant.route_stats w.memory tenant plan_date;
  webhook_metrics = λ tenant since event_type status code_min code_max buckets. reads λ w.
      map w.row_fields (
        Metrics.webhook_metrics w.order_ids w.order_rows w.memory
          (record {
            tenant = tenant;
            since = since;
            event_type = event_type;
            status = status;
            code_min = code_min;
            code_max = code_max;
          })
          buckets);
  list_plan_metrics =
      λ tenant plan_date algo. reads λ w. Plans.list_plan_metrics w.memory tenant plan_date algo;
  list_plan_metrics_weights = λ tenant plan_date algo.
      reads λ w. Constant.list_plan_metrics_weights w.memory tenant plan_date algo;
  get_optimizer_config = λ tenant. reads λ w. Plans.get_optimizer_config w.memory tenant;
  save_optimizer_config = λ tenant cfg. runs λ w. Plans.save_optimizer_config w.memory tenant cfg;
  find_routes_by_stop = λ tenant stop. reads λ w. Constant.find_routes_by_stop w.memory tenant stop;
  list_active_routes_for_driver = λ tenant driver.
      reads λ w. Routes.list_active_routes_for_driver w.order_routes w.memory tenant driver;
  list_webhook_dlq = λ tenant event_type older code_min code_max query cursor limit.
      reads λ w. Deliveries.list_webhook_dlq w.memory;
  requeue_webhook_dlq = λ tenant id. runs λ w. Constant.requeue_webhook_dlq w.memory tenant id;
  requeue_webhook_dlq_bulk =
      λ tenant ids. runs λ w. Constant.requeue_webhook_dlq_bulk w.memory tenant ids;
  ping = none;
  delete_webhook_dlq_bulk =
      λ tenant ids older. runs λ w. Constant.delete_webhook_dlq_bulk w.memory tenant ids older;
}
