-- ===== src/Http/Live/Whole.antt =====
-- The in-memory store is lawful: its methods return, and each driver's status remains a text.
use usps_main.Common.{◌≡◌, refl, String, ℕ, ◌+◌, List, [], ◌∷◌, some, arith, subst, sym}
use usps_main.Common.Maps.{Map}
use usps_main.Model.{OrderIn, GeofenceInput, AdvanceRequest, Any, HosUpdate}
use usps_main.Store.{Memory}
use usps_main.Store.Routes.{assign_route, patch_route}
use usps_main.Store.Routes
use usps_main.Store.Orders.{create_loop, create_order, create_orders}
use usps_main.Store.Advance.{advance_route}
use usps_main.Store.Hos.Typed.{HasStatus, same-HasStatus, update_hos-HasStatus}
use usps_main.Store.Subscriptions.{create_subscription, delete_subscription}
use usps_main.Store.Geofences.{create_geofence, patch_geofence, delete_geofence}
use usps_main.Store.Deliveries.{enqueue_webhook, retry_webhook_delivery}
use usps_main.Store.Plans.{plan_routes, save_optimizer_config, set_plan_items}
use usps_main.Store.Constant.{
  requeue_webhook_dlq, requeue_webhook_dlq_bulk, delete_webhook_dlq_bulk,
}
use usps_main.Http.Backend.{Try, ok, Op}
use usps_main.Http.InMemory.{
  World, in_memory, reads, writes, runs, tries, draws, hos_result, with_ids,
}
use usps_main.Http.Live.{IsTotal}
use usps_main.Http.Live.Laws.{IsLawful}

abbrev pub IsTyped : World → Type 0
IsTyped w = HasStatus w.memory

reads-IsTotal : {A : Type 0} (f : World → A) → IsTotal IsTyped (reads f)
reads-IsTotal f = record { returns = λ w p. ((ok (f w), refl), p) }

writes-IsTotal :
    {A : Type 0} (f : World → Memory × A)
    → ((w : World) → (f w).0.hos ≡ w.memory.hos)
    → IsTotal IsTyped (writes f)
writes-IsTotal f e = record {
  returns = λ w p. ((ok (f w).1, refl), same-HasStatus w.memory (f w).0 (e w) p);
}

runs-IsTotal :
    (f : World → Memory) → ((w : World) → (f w).hos ≡ w.memory.hos) → IsTotal IsTyped (runs f)
runs-IsTotal f e = record {
  returns = λ w p. ((ok tt, refl), same-HasStatus w.memory (f w) (e w) p);
}

tries-IsTotal :
    {A : Type 0} (f : World → Memory × Routes.Result A)
    → ((w : World) → (f w).0.hos ≡ w.memory.hos)
    → IsTotal IsTyped (tries f)
tries-IsTotal f e = record { returns = λ w p. ((_, refl), same-HasStatus w.memory (f w).0 (e w) p) }

draws-IsTotal :
    {A : Type 0} (n : ℕ) (op : Op World A) → IsTotal IsTyped op → IsTotal IsTyped (draws n op)
draws-IsTotal n op l = record { returns = λ w p. l.returns w p }

create_loop-hos :
    (tenant : String) (orders : List (String × OrderIn)) (m : Memory) (n : ℕ)
    → (create_loop tenant orders m n).0.hos ≡ m.hos
unfolding create_loop create_order
create_loop-hos tenant [] m n = refl
create_loop-hos tenant ((id, o) ∷ orders) m n =
    create_loop-hos tenant orders (create_order tenant m id o) (n + 1)

advance_route-hos :
    (m : Memory) (tenant id : String) (req : AdvanceRequest) (ts : String)
    → (advance_route m tenant id req ts).0.hos ≡ m.hos
unfolding advance_route
advance_route-hos m tenant id req ts = ground arith

patch_geofence-hos :
    (m : Memory) (tenant id : String) (input : GeofenceInput)
    → (patch_geofence m tenant id input).0.hos ≡ m.hos
unfolding patch_geofence
patch_geofence-hos m tenant id input = ground arith

delete_geofence-hos :
    (m : Memory) (tenant id : String) → (delete_geofence m tenant id).0.hos ≡ m.hos
unfolding delete_geofence
delete_geofence-hos m tenant id = ground arith

retry_webhook_delivery-hos :
    (now : ℕ) (m : Memory) (tenant id : String)
    → (retry_webhook_delivery now m tenant id).hos ≡ m.hos
unfolding retry_webhook_delivery
retry_webhook_delivery-hos now m tenant id = ground arith

no_ping : (op : Op World (Unit {0})) → ¬ (in_memory.ping ≡ some op)
no_ping op e = ground (arith, e)

update_hos-IsTotal :
    (tenant driver : String) (upd : HosUpdate)
    → IsTotal IsTyped (in_memory.update_hos tenant driver upd)
update_hos-IsTotal tenant driver upd = record {
  returns = λ w p.
      let (m, status, st, e, q) = update_hos-HasStatus w.memory tenant driver upd p in
      subst
        (λ o.
          ((a : Try (String × Map Any)) × ((hos_result w o).1 ≡ some a))
          × IsTyped (hos_result w o).0)
        (sym e) ((ok (status, st), refl), q);
}

pub in_memory-IsLawful : IsLawful IsTyped in_memory
unfolding create_orders assign_route patch_route plan_routes create_subscription delete_subscription
    create_geofence enqueue_webhook save_optimizer_config requeue_webhook_dlq
    requeue_webhook_dlq_bulk delete_webhook_dlq_bulk set_plan_items
in_memory-IsLawful = record {
  create_orders = λ tenant orders.
      draws-IsTotal _ _ (
        writes-IsTotal _ (λ w. create_loop-hos tenant (with_ids w.uuid w.drawn orders) w.memory 0));
  list_orders = λ tenant status cursor limit. reads-IsTotal _;
  get_route = λ tenant id. tries-IsTotal _ (λ w. refl);
  list_routes = λ tenant cursor limit. reads-IsTotal _;
  assign_route = λ tenant id driver vehicle. writes-IsTotal _ (λ w. refl);
  patch_route = λ tenant id patch. writes-IsTotal _ (λ w. refl);
  plan_routes = λ req. draws-IsTotal _ _ (writes-IsTotal _ (λ w. refl));
  insert_driver_events = λ tenant events. reads-IsTotal _;
  create_pod = λ req. draws-IsTotal _ _ (reads-IsTotal _);
  create_subscription = λ req. draws-IsTotal _ _ (writes-IsTotal _ (λ w. refl));
  get_subscriptions_for_event = λ tenant event_type. reads-IsTotal _;
  list_subscriptions = λ tenant cursor limit w p. p;
  delete_subscription = λ tenant id. runs-IsTotal _ (λ w. refl);
  advance_route = λ tenant id req.
      tries-IsTotal _ (λ w. advance_route-hos w.memory tenant id req (w.format w.now));
  update_hos = λ tenant driver upd. update_hos-IsTotal tenant driver upd;
  create_geofence = λ tenant input. draws-IsTotal _ _ (writes-IsTotal _ (λ w. refl));
  list_geofences = λ tenant cursor limit. reads-IsTotal _;
  get_geofence = λ tenant id. tries-IsTotal _ (λ w. refl);
  patch_geofence =
      λ tenant id input. tries-IsTotal _ (λ w. patch_geofence-hos w.memory tenant id input);
  delete_geofence = λ tenant id. tries-IsTotal _ (λ w. delete_geofence-hos w.memory tenant id);
  enqueue_webhook =
      λ tenant sub event_type url secret body. draws-IsTotal _ _ (writes-IsTotal _ (λ w. refl));
  list_webhook_deliveries = λ tenant status cursor limit. reads-IsTotal _;
  retry_webhook_delivery =
      λ tenant id. runs-IsTotal _ (λ w. retry_webhook_delivery-hos w.now w.memory tenant id);
  route_stats = λ tenant plan_date. reads-IsTotal _;
  webhook_metrics = λ tenant since event_type status code_min code_max buckets. reads-IsTotal _;
  list_plan_metrics = λ tenant plan_date algo. reads-IsTotal _;
  list_plan_metrics_weights = λ tenant plan_date algo. reads-IsTotal _;
  get_optimizer_config = λ tenant. reads-IsTotal _;
  save_optimizer_config = λ tenant cfg. runs-IsTotal _ (λ w. refl);
  find_routes_by_stop = λ tenant stop. reads-IsTotal _;
  list_active_routes_for_driver = λ tenant driver. reads-IsTotal _;
  list_webhook_dlq =
      λ tenant event_type older code_min code_max query cursor limit. reads-IsTotal _;
  requeue_webhook_dlq = λ tenant id. runs-IsTotal _ (λ w. refl);
  requeue_webhook_dlq_bulk = λ tenant ids. runs-IsTotal _ (λ w. refl);
  ping = λ op e. absurd (no_ping op e);
  delete_webhook_dlq_bulk = λ tenant ids older. runs-IsTotal _ (λ w. refl);
}
