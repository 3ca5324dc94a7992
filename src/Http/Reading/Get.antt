-- ===== src/Http/Reading/Get.antt =====
-- The handlers of internal/api/handlers.go on a GET, over the in-memory store.
use usps_main.Common.{◌≡◌, refl, String, Bool, true, false, List, [], ◌∷◌, All, arith, not, str_eq}
use usps_main.Http.Act.{Request, Response, Server, Web, Act}
use usps_main.Http.InMemory.{World, in_memory}
use usps_main.Http.Reading.{IsReading, reading, give-IsReading, bind-IsReading, other_method}
use usps_main.Common.{◌&&◌}
use usps_main.Common.Maps.{Map}
use usps_main.Model.{Any}
use usps_main.Http.Handlers.Orders.{orders_handler, orders_get}
use usps_main.Http.Handlers.Plans.{
  optimize_handler, optimizer_config_handler, admin_optimizer_config_handler,
}
use usps_main.Http.Handlers.Routes.{
  routes_index_handler, route_by_id_handler, route_parts, stream_route, flush_or_refuse,
  open_stream, assign_by_id, advance_by_id, get_by_id,
}
use usps_main.Http.Handlers.Events.{eta_stream_handler, driver_events_handler, pod_handler}
use usps_main.Http.Handlers.Subscriptions.{
  subscriptions_handler, subscriptions_get, subscription_by_id_handler,
}
use usps_main.Http.Handlers.Geofences.{
  geofences_handler, geofences_get, geofence_by_id_handler, geofence_by_id, geofence_get,
}
use usps_main.Http.Handlers.Misc.{
  media_presign_handler, health_handler, ready_with, ready_handler, graphql_http_handler,
}
use usps_main.Http.Handlers.Admin.{
  webhook_deliveries_handler, webhook_delivery_retry_handler, route_stats_handler,
  plan_metrics_handler, plan_metrics_weights_handler, webhook_metrics_handler, recorded_of,
  attach_to, attach_weights,
}
use usps_main.Http.Handlers.Dlq.{webhook_dlq_handler, dlq_get}

-- A test that another test fails.
and_fails : (a b : Bool) → b ≡ false → (a && b) ≡ false
and_fails a b e = ground (arith, e)

attach_to-IsReading :
    (web : Web) (tenant plan_date : String) (item : Map Any)
    → IsReading (attach_to in_memory web tenant plan_date item)
unfolding attach_to
attach_to-IsReading web tenant plan_date item = search reading depth 12

attach_weights-IsReading :
    (web : Web) (tenant plan_date : String) (xs : List (Map Any))
    → IsReading (attach_weights in_memory web tenant plan_date xs)
unfolding attach_weights
attach_weights-IsReading web tenant plan_date [] = give-IsReading []
attach_weights-IsReading web tenant plan_date (x ∷ xs) =
    bind-IsReading _ _ (attach_to-IsReading web tenant plan_date x) λ one.
      bind-IsReading _ _ (attach_weights-IsReading web tenant plan_date xs)
        λ later. give-IsReading (one ∷ later)

recorded_of-IsReading :
    (web : Web) (tenant plan_date algo : String)
    → IsReading (recorded_of in_memory web tenant plan_date algo)
unfolding recorded_of
recorded_of-IsReading web tenant plan_date algo = record { keeps = λ s. refl }

open_stream-IsReading : (web : Web) (id : String) → IsReading (open_stream in_memory web id)
unfolding open_stream
open_stream-IsReading web id = record { keeps = λ s. refl }

-- Every handler of handlers.go and graphql_http.go but the drivers'.
abbrev pub other_handlers : Web → List (Request → Act World Response)
other_handlers web =
    orders_handler in_memory web
    ∷ optimize_handler in_memory web
    ∷ optimizer_config_handler in_memory web
    ∷ admin_optimizer_config_handler in_memory web
    ∷ routes_index_handler in_memory web
    ∷ route_by_id_handler in_memory web
    ∷ eta_stream_handler in_memory web
    ∷ driver_events_handler in_memory web
    ∷ pod_handler in_memory web
    ∷ subscriptions_handler in_memory web
    ∷ subscription_by_id_handler in_memory web
    ∷ geofences_handler in_memory web
    ∷ geofence_by_id_handler in_memory web
    ∷ media_presign_handler in_memory web
    ∷ health_handler in_memory web
    ∷ ready_handler in_memory web
    ∷ webhook_deliveries_handler in_memory web
    ∷ webhook_delivery_retry_handler in_memory web
    ∷ route_stats_handler in_memory web
    ∷ plan_metrics_handler in_memory web
    ∷ plan_metrics_weights_handler in_memory web
    ∷ webhook_metrics_handler in_memory web
    ∷ webhook_dlq_handler in_memory web
    ∷ graphql_http_handler in_memory web
    ∷ []

module _ (web : Web) (r : Request) (get : str_eq r.method "GET" ≡ true) where
  post : str_eq r.method "POST" ≡ false
  post = other_method r "POST" refl get

  gone : str_eq r.method "DELETE" ≡ false
  gone = other_method r "DELETE" refl get

  not_post : not (str_eq r.method "POST") ≡ true
  not_post = ground (arith, post)

  not_gone : not (str_eq r.method "DELETE") ≡ true
  not_gone = ground (arith, gone)

  orders_handler-IsReading : IsReading (orders_handler in_memory web r)
  unfolding orders_handler orders_get
  orders_handler-IsReading = search (reading, post) depth 14

  optimize_handler-IsReading : IsReading (optimize_handler in_memory web r)
  unfolding optimize_handler
  optimize_handler-IsReading = search (reading, not_post) depth 14

  optimizer_config_handler-IsReading : IsReading (optimizer_config_handler in_memory web r)
  unfolding optimizer_config_handler
  optimizer_config_handler-IsReading = search reading depth 14

  admin_optimizer_config_handler-IsReading :
      IsReading (admin_optimizer_config_handler in_memory web r)
  unfolding admin_optimizer_config_handler
  admin_optimizer_config_handler-IsReading = search reading depth 14

  routes_index_handler-IsReading : IsReading (routes_index_handler in_memory web r)
  unfolding routes_index_handler
  routes_index_handler-IsReading = search reading depth 14

  stream_route-IsReading : (id : String) → IsReading (stream_route in_memory web r id)
  unfolding stream_route flush_or_refuse
  stream_route-IsReading id = search (reading, open_stream-IsReading) depth 14

  route_by_id_handler-IsReading : IsReading (route_by_id_handler in_memory web r)
  unfolding route_by_id_handler route_parts assign_by_id advance_by_id get_by_id
  route_by_id_handler-IsReading = search (reading, stream_route-IsReading, not_post) depth 14

  eta_stream_handler-IsReading : IsReading (eta_stream_handler in_memory web r)
  unfolding eta_stream_handler
  eta_stream_handler-IsReading = search reading depth 14

  driver_events_handler-IsReading : IsReading (driver_events_handler in_memory web r)
  unfolding driver_events_handler
  driver_events_handler-IsReading = search (reading, not_post) depth 14

  pod_handler-IsReading : IsReading (pod_handler in_memory web r)
  unfolding pod_handler
  pod_handler-IsReading = search (reading, not_post) depth 14

  subscriptions_handler-IsReading : IsReading (subscriptions_handler in_memory web r)
  unfolding subscriptions_handler subscriptions_get
  subscriptions_handler-IsReading = search (reading, post) depth 14

  subscription_by_id_handler-IsReading : IsReading (subscription_by_id_handler in_memory web r)
  unfolding subscription_by_id_handler
  subscription_by_id_handler-IsReading = search (reading, not_gone) depth 14

  geofences_handler-IsReading : IsReading (geofences_handler in_memory web r)
  unfolding geofences_handler geofences_get
  geofences_handler-IsReading = search reading depth 14

  geofence_by_id_handler-IsReading : IsReading (geofence_by_id_handler in_memory web r)
  unfolding geofence_by_id_handler geofence_by_id geofence_get
  geofence_by_id_handler-IsReading = search reading depth 14

  media_presign_handler-IsReading : IsReading (media_presign_handler in_memory web r)
  unfolding media_presign_handler
  media_presign_handler-IsReading = search (reading, not_post) depth 14

  health_handler-IsReading : IsReading (health_handler in_memory web r)
  unfolding health_handler
  health_handler-IsReading = search reading depth 14

  ready_handler-IsReading : IsReading (ready_handler in_memory web r)
  unfolding ready_handler ready_with
  ready_handler-IsReading = search reading depth 14

  webhook_deliveries_handler-IsReading : IsReading (webhook_deliveries_handler in_memory web r)
  unfolding webhook_deliveries_handler
  webhook_deliveries_handler-IsReading = search reading depth 14

  webhook_delivery_retry_handler-IsReading :
      IsReading (webhook_delivery_retry_handler in_memory web r)
  unfolding webhook_delivery_retry_handler
  webhook_delivery_retry_handler-IsReading = search (reading, not_post) depth 14

  route_stats_handler-IsReading : IsReading (route_stats_handler in_memory web r)
  unfolding route_stats_handler
  route_stats_handler-IsReading = search reading depth 14

  plan_metrics_handler-IsReading : IsReading (plan_metrics_handler in_memory web r)
  unfolding plan_metrics_handler
  plan_metrics_handler-IsReading =
      search (reading, recorded_of-IsReading, attach_weights-IsReading) depth 14

  plan_metrics_weights_handler-IsReading : IsReading (plan_metrics_weights_handler in_memory web r)
  unfolding plan_metrics_weights_handler
  plan_metrics_weights_handler-IsReading = search reading depth 14

  webhook_metrics_handler-IsReading : IsReading (webhook_metrics_handler in_memory web r)
  unfolding webhook_metrics_handler
  webhook_metrics_handler-IsReading = search reading depth 14

  webhook_dlq_handler-IsReading : IsReading (webhook_dlq_handler in_memory web r)
  unfolding webhook_dlq_handler dlq_get
  webhook_dlq_handler-IsReading = search (reading, and_fails, post, gone) depth 14

  graphql_http_handler-IsReading : IsReading (graphql_http_handler in_memory web r)
  unfolding graphql_http_handler
  graphql_http_handler-IsReading = search (reading, not_post) depth 14

  -- A GET leaves the contents of the in-memory store as they are, through every handler of handlers.go and
  -- graphql_http.go but the drivers'.
  pub other_handlers-memory :
      (s : Server World) → All (λ h. (h r s).0.store.memory ≡ s.store.memory) (other_handlers web)
  other_handlers-memory s = (
    orders_handler-IsReading.keeps s,
    (
      optimize_handler-IsReading.keeps s,
      (
        optimizer_config_handler-IsReading.keeps s,
        (
          admin_optimizer_config_handler-IsReading.keeps s,
          (
            routes_index_handler-IsReading.keeps s,
            (
              route_by_id_handler-IsReading.keeps s,
              (
                eta_stream_handler-IsReading.keeps s,
                (
                  driver_events_handler-IsReading.keeps s,
                  (
                    pod_handler-IsReading.keeps s,
                    (
                      subscriptions_handler-IsReading.keeps s,
                      (
                        subscription_by_id_handler-IsReading.keeps s,
                        (
                          geofences_handler-IsReading.keeps s,
                          (
                            geofence_by_id_handler-IsReading.keeps s,
                            (
                              media_presign_handler-IsReading.keeps s,
                              (
                                health_handler-IsReading.keeps s,
                                (
                                  ready_handler-IsReading.keeps s,
                                  (
                                    webhook_deliveries_handler-IsReading.keeps s,
                                    (
                                      webhook_delivery_retry_handler-IsReading.keeps s,
                                      (
                                        route_stats_handler-IsReading.keeps s,
                                        (
                                          plan_metrics_handler-IsReading.keeps s,
                                          (
                                            plan_metrics_weights_handler-IsReading.keeps s,
                                            (
                                              webhook_metrics_handler-IsReading.keeps s,
                                              (
                                                webhook_dlq_handler-IsReading.keeps s,
                                                (graphql_http_handler-IsReading.keeps s, tt),
                                              ),
                                            ),
                                          ),
                                        ),
                                      ),
                                    ),
                                  ),
                                ),
                              ),
                            ),
                          ),
                        ),
                      ),
                    ),
                  ),
                ),
              ),
            ),
          ),
        ),
      ),
    ),
  )
