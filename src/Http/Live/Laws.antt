-- ===== src/Http/Live/Laws.antt =====
-- What a store of the interface owes its callers: that each method but ListSubscriptions returns, and keeps
-- a property of the store's state.
use usps_main.Common.{String, ℕ, List, some, ℤ, ◌≡◌}
use usps_main.Common.Maps.{Map}
use usps_main.Model.{
  Any, OrderIn, RoutePatch, OptimizeRequest, DriverEvent, PodRequest, SubscriptionRequest,
  AdvanceRequest, HosUpdate, GeofenceInput,
}
use usps_main.Http.Backend.{Backend, Op}
use usps_main.Http.Live.{IsTotal}

pub record IsLawful {S : Type 0} (P : S → Type 0) (api : Backend S) : Type 0 where
  pub create_orders : (a : String) (b : List OrderIn) → IsTotal P (api.create_orders a b)
  pub list_orders :
      (a : String) (b : String) (c : String) (d : ℤ) → IsTotal P (api.list_orders a b c d)
  pub get_route : (a : String) (b : String) → IsTotal P (api.get_route a b)
  pub list_routes : (a : String) (b : String) (c : ℤ) → IsTotal P (api.list_routes a b c)
  pub assign_route :
      (a : String) (b : String) (c : String) (d : String) → IsTotal P (api.assign_route a b c d)
  pub patch_route : (a : String) (b : String) (c : RoutePatch) → IsTotal P (api.patch_route a b c)
  pub plan_routes : (a : OptimizeRequest) → IsTotal P (api.plan_routes a)
  pub insert_driver_events :
      (a : String) (b : List DriverEvent) → IsTotal P (api.insert_driver_events a b)
  pub create_pod : (a : PodRequest) → IsTotal P (api.create_pod a)
  pub create_subscription : (a : SubscriptionRequest) → IsTotal P (api.create_subscription a)
  pub get_subscriptions_for_event :
      (a : String) (b : String) → IsTotal P (api.get_subscriptions_for_event a b)
  pub list_subscriptions :  -- this one may panic
      (a : String) (b : String) (c : ℤ) (w : S) → P w → P (api.list_subscriptions a b c w).0
  pub delete_subscription : (a : String) (b : String) → IsTotal P (api.delete_subscription a b)
  pub advance_route :
      (a : String) (b : String) (c : AdvanceRequest) → IsTotal P (api.advance_route a b c)
  pub update_hos : (a : String) (b : String) (c : HosUpdate) → IsTotal P (api.update_hos a b c)
  pub create_geofence : (a : String) (b : GeofenceInput) → IsTotal P (api.create_geofence a b)
  pub list_geofences : (a : String) (b : String) (c : ℤ) → IsTotal P (api.list_geofences a b c)
  pub get_geofence : (a : String) (b : String) → IsTotal P (api.get_geofence a b)
  pub patch_geofence :
      (a : String) (b : String) (c : GeofenceInput) → IsTotal P (api.patch_geofence a b c)
  pub delete_geofence : (a : String) (b : String) → IsTotal P (api.delete_geofence a b)
  pub enqueue_webhook :
      (a : String) (b : String) (c : String) (d : String) (e : String) (f : List ℕ)
      → IsTotal P (api.enqueue_webhook a b c d e f)
  pub list_webhook_deliveries :
      (a : String) (b : String) (c : String) (d : ℤ)
      → IsTotal P (api.list_webhook_deliveries a b c d)
  pub retry_webhook_delivery :
      (a : String) (b : String) → IsTotal P (api.retry_webhook_delivery a b)
  pub route_stats : (a : String) (b : String) → IsTotal P (api.route_stats a b)
  pub webhook_metrics :
      (a : String) (b : ℕ) (c : String) (d : String) (e : ℤ) (f : ℤ) (g : List ℤ)
      → IsTotal P (api.webhook_metrics a b c d e f g)
  pub list_plan_metrics :
      (a : String) (b : String) (c : String) → IsTotal P (api.list_plan_metrics a b c)
  pub list_plan_metrics_weights :
      (a : String) (b : String) (c : String) → IsTotal P (api.list_plan_metrics_weights a b c)
  pub get_optimizer_config : (a : String) → IsTotal P (api.get_optimizer_config a)
  pub save_optimizer_config : (a : String) (b : Map Any) → IsTotal P (api.save_optimizer_config a b)
  pub find_routes_by_stop : (a : String) (b : String) → IsTotal P (api.find_routes_by_stop a b)
  pub list_active_routes_for_driver :
      (a : String) (b : String) → IsTotal P (api.list_active_routes_for_driver a b)
  pub list_webhook_dlq :
      (a : String) (b : String) (c : ℕ) (d : ℤ) (e : ℤ) (f : String) (g : String) (h : ℤ)
      → IsTotal P (api.list_webhook_dlq a b c d e f g h)
  pub requeue_webhook_dlq : (a : String) (b : String) → IsTotal P (api.requeue_webhook_dlq a b)
  pub requeue_webhook_dlq_bulk :
      (a : String) (b : List String) → IsTotal P (api.requeue_webhook_dlq_bulk a b)
  pub ping : (op : Op S (Unit {0})) → api.ping ≡ some op → IsTotal P op
  pub delete_webhook_dlq_bulk :
      (a : String) (b : List String) (c : ℕ) → IsTotal P (api.delete_webhook_dlq_bulk a b c)
