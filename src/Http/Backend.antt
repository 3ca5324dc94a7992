-- ===== src/Http/Backend.antt =====
-- The interface Store of internal/store/store.go, which the handlers and the publisher call. `S` is the
-- state behind it.
use usps_main.Common.{String, ℕ, Option, List, ℤ}
use usps_main.Common.Maps.{Map}
use usps_main.Model.{
  Any, OrderIn, OrderOut, Route, RoutePatch, OptimizeRequest, DriverEvent, PodRequest,
  SubscriptionRequest, Subscription, AdvanceRequest, AdvanceResponse, HosUpdate, Geofence,
  GeofenceInput,
}

-- Go's `(T, error)`: the value, or the text of the error.
pub data Try {ℓ} (A : Type ℓ) : Type ℓ where
  ok : A → Try A
  err : String → Try A

-- A call leaves a new state; `none` is a panic in it.
abbrev pub Op : Type 0 → Type 0 → Type 0
Op S A = S → S × Option (Try A)

-- The methods that only the webhook worker calls are in Store/Deliveries. A time is a number of
-- nanoseconds, 0 the zero time.
pub record Backend (S : Type 0) : Type 0 where
  pub create_orders : String → List OrderIn → Op S (String × ℕ × ℕ)
  pub list_orders : String → String → String → ℤ → Op S (List OrderOut × String)
  pub get_route : String → String → Op S Route
  pub list_routes : String → String → ℤ → Op S (List Route × String)
  pub assign_route : String → String → String → String → Op S Route
  pub patch_route : String → String → RoutePatch → Op S Route
  pub plan_routes : OptimizeRequest → Op S (List Route × String)
  pub insert_driver_events : String → List DriverEvent → Op S ℕ
  pub create_pod : PodRequest → Op S (String × String)
  pub create_subscription : SubscriptionRequest → Op S Subscription
  pub get_subscriptions_for_event : String → String → Op S (List Subscription)
  pub list_subscriptions : String → String → ℤ → Op S (List Subscription × String)
  pub delete_subscription : String → String → Op S (Unit {0})
  pub advance_route : String → String → AdvanceRequest → Op S AdvanceResponse
  pub update_hos : String → String → HosUpdate → Op S (String × Map Any)
  pub create_geofence : String → GeofenceInput → Op S Geofence
  pub list_geofences : String → String → ℤ → Op S (List Geofence × String)
  pub get_geofence : String → String → Op S Geofence
  pub patch_geofence : String → String → GeofenceInput → Op S Geofence
  pub delete_geofence : String → String → Op S (Unit {0})
  pub enqueue_webhook : String → String → String → String → String → List ℕ → Op S String
  pub list_webhook_deliveries : String → String → String → ℤ → Op S (List (Map Any) × String)
  pub retry_webhook_delivery : String → String → Op S (Unit {0})
  pub route_stats : String → String → Op S (Map Any)
  pub webhook_metrics : String → ℕ → String → String → ℤ → ℤ → List ℤ → Op S (List (Map Any))
  pub list_plan_metrics : String → String → String → Op S (List (Map Any))
  pub list_plan_metrics_weights : String → String → String → Op S (List (Map Any))
  pub get_optimizer_config : String → Op S (Option (Map Any))
  pub save_optimizer_config : String → Map Any → Op S (Unit {0})
  pub find_routes_by_stop : String → String → Op S (List String)
  pub list_active_routes_for_driver : String → String → Op S (List String)
  pub list_webhook_dlq :
      String → String → ℕ → ℤ → ℤ → String → String → ℤ → Op S (List (Map Any) × String)
  pub requeue_webhook_dlq : String → String → Op S (Unit {0})
  pub requeue_webhook_dlq_bulk : String → List String → Op S (Unit {0})
  pub ping : Option (Op S (Unit {0}))  -- Ping, where the store has it
  pub delete_webhook_dlq_bulk : String → List String → ℕ → Op S (Unit {0})
