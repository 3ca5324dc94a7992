-- ===== src/Http/Mux.antt =====
-- The mux of cmd/api/main.go: which handler serves which path, with the small handlers that stand there and
-- in internal/api/docs.go.
use Prim.Native.String.{◌++◌ as text_append}
use usps_main.Common.{String, ℕ, Option, none, some, List, [], ◌∷◌, map, not, str_eq, if◌then◌else◌}
use usps_main.Common.Maps.{Map, index}
use usps_main.Http.Backend.{Backend, Try, ok, err}
use usps_main.Http.Act.{
  Request, Response, Web, Act, give, reply, write_problem, plain, page_of, document,
}
use usps_main.Http.Handlers.Orders.{orders_handler}
use usps_main.Http.Handlers.Plans.{
  optimize_handler, optimizer_config_handler, admin_optimizer_config_handler,
}
use usps_main.Http.Handlers.Routes.{routes_index_handler, route_by_id_handler}
use usps_main.Http.Handlers.Events.{
  eta_stream_handler, driver_events_handler, pod_handler, drivers_handler,
}
use usps_main.Http.Handlers.Subscriptions.{subscriptions_handler, subscription_by_id_handler}
use usps_main.Http.Handlers.Geofences.{geofences_handler, geofence_by_id_handler}
use usps_main.Http.Handlers.Misc.{
  media_presign_handler, health_handler, ready_handler, graphql_http_handler,
}
use usps_main.Http.Handlers.Admin.{
  webhook_deliveries_handler, webhook_delivery_retry_handler, route_stats_handler,
  plan_metrics_handler, plan_metrics_weights_handler, webhook_metrics_handler,
}
use usps_main.Http.Handlers.Dlq.{webhook_dlq_handler}

-- What the mux calls that is not the repository's.
pub record Packages : Type 0 where
  pub pick : List String → String → Option String  -- the pattern that http.ServeMux chooses for a path
  pub open_api : Try (List ℕ)  -- the specification, from the binary or from a file
  pub metrics_page : Request → Response  -- promhttp

module _ {S : Type 0} (api : Backend S) (web : Web) (out : Packages) where
  unfoldable pub open_api_handler : Request → Act S Response
  open_api_handler r = elim out.open_api [
    | ok b ↦ reply 200 (document b)
    | err e ↦ write_problem 500 "OpenAPI not available" e r
  ]

  unfoldable pub docs_handler : Request → Act S Response
  docs_handler r = reply 200 (page_of "API Docs")

  unfoldable pub index_page : Request → Act S Response
  index_page r =
      if not (str_eq r.path "/")
      then reply 404 (plain "404 page not found")
      else reply 200 (page_of "GPSNav API")

  unfoldable pub metrics_handler : Request → Act S Response
  metrics_handler r = give (out.metrics_page r)

  -- The path of a route's event stream.
  abbrev pub stream_path : String → String
  stream_path id = text_append "/v1/routes/" (text_append id "/events/stream")

  unfoldable pub bridge : Request → Act S Response
  unfolding route_by_id_handler
  bridge r =
      if str_eq (r.query "routeId") ""
      then reply 400 (plain "routeId required")
      else route_by_id_handler api web (record r { path = stream_path (r.query "routeId") })

  -- The patterns that main registers; /graphql/ws stands apart.
  abbrev pub endpoints : Map (Request → Act S Response)
  endpoints =
      ("/v1/orders", orders_handler api web)
      ∷ ("/v1/optimize", optimize_handler api web)
      ∷ ("/v1/optimizer/config", optimizer_config_handler api web)
      ∷ ("/v1/admin/optimizer/config", admin_optimizer_config_handler api web)
      ∷ ("/v1/routes", routes_index_handler api web)
      ∷ ("/v1/routes/", route_by_id_handler api web)
      ∷ ("/v1/eta/stream", eta_stream_handler api web)
      ∷ ("/v1/driver-events", driver_events_handler api web)
      ∷ ("/v1/pod", pod_handler api web)
      ∷ ("/v1/subscriptions", subscriptions_handler api web)
      ∷ ("/v1/subscriptions/", subscription_by_id_handler api web)
      ∷ ("/v1/drivers/", drivers_handler api web)
      ∷ ("/v1/geofences", geofences_handler api web)
      ∷ ("/v1/geofences/", geofence_by_id_handler api web)
      ∷ ("/v1/media/presign", media_presign_handler api web)
      ∷ ("/healthz", health_handler api web)
      ∷ ("/readyz", ready_handler api web)
      ∷ ("/openapi.yaml", open_api_handler)
      ∷ ("/docs", docs_handler)
      ∷ ("/", index_page)
      ∷ ("/metrics", metrics_handler)
      ∷ ("/v1/admin/webhook-deliveries", webhook_deliveries_handler api web)
      ∷ ("/v1/admin/webhook-deliveries/", webhook_delivery_retry_handler api web)
      ∷ ("/v1/admin/routes/stats", route_stats_handler api web)
      ∷ ("/v1/admin/plan-metrics", plan_metrics_handler api web)
      ∷ ("/v1/admin/plan-metrics/weights", plan_metrics_weights_handler api web)
      ∷ ("/v1/admin/webhook-metrics", webhook_metrics_handler api web)
      ∷ ("/v1/admin/webhook-dlq", webhook_dlq_handler api web)
      ∷ ("/v1/admin/webhook-dlq/", webhook_dlq_handler api web)
      ∷ ("/graphql/subscriptions/route-events", bridge)
      ∷ ("/graphql", graphql_http_handler api web)
      ∷ []

  abbrev pub not_registered : Request → Act S Response
  not_registered r = reply 404 (plain "404 page not found")

  unfoldable pub serve_mux : Request → Act S Response
  serve_mux r = elim (out.pick (map (λ e. e.0) endpoints) r.path) [
    | none ↦ not_registered r
    | some pattern ↦ index not_registered pattern endpoints r
  ]
