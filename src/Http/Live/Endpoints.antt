-- ===== src/Http/Live/Endpoints.antt =====
-- The endpoints that cmd/api/main.go registers, and the mux over them: each of them answers wherever the page
-- of subscriptions that the request asks for can be cut.
use usps_main.Common.{subst, String, [], ◌∷◌, All, arith, map, Bool-cases, inl, inr, str_eq}
use usps_main.Common.Maps.{Map, index, lookup}
use usps_main.Api.Broker.Safety.{IsRange}
use usps_main.Http.Backend.{Backend}
use usps_main.Http.Act.{Request, Web}
use usps_main.Http.Mux.{
  Packages, endpoints, not_registered, serve_mux, open_api_handler, docs_handler, index_page,
  metrics_handler, bridge,
}
use usps_main.Http.Live.{
  IsLive, give-IsLive, reply-IsLive, if-IsLive, try-IsLive, write_problem-IsLive,
}
use usps_main.Http.Live.Fine.{
  IsPaged, IsFine, live-IsFine, option-IsFine, subscriptions_handler-IsFine,
}
use usps_main.Http.Live.Laws.{IsLawful}
use usps_main.Http.Live.Rules.{live}
use usps_main.Http.Live.Admin.{
  admin_optimizer_config_handler-IsLive, subscription_by_id_handler-IsLive,
  webhook_deliveries_handler-IsLive, webhook_delivery_retry_handler-IsLive,
  webhook_metrics_handler-IsLive, route_stats_handler-IsLive, plan_metrics_weights_handler-IsLive,
  webhook_dlq_handler-IsLive, plan_metrics_handler-IsLive,
}
use usps_main.Http.Live.Planner.{
  optimize_handler-IsLive, optimizer_config_handler-IsLive, geofences_handler-IsLive,
  geofence_by_id_handler-IsLive,
}
use usps_main.Http.Live.Routes.{route_by_id_handler-IsLive, routes_index_handler-IsLive}
use usps_main.Http.Live.Events.{
  driver_events_handler-IsLive, pod_handler-IsLive, eta_stream_handler-IsLive,
  drivers_handler-IsLive,
}
use usps_main.Http.Live.Misc.{
  orders_handler-IsLive, media_presign_handler-IsLive, health_handler-IsLive, ready_handler-IsLive,
  graphql_http_handler-IsLive,
}

All-index :
    {V : Type 0} (Q : V → Type 0) (z : V) (k : String) (m : Map V)
    → Q z
    → All (λ e. Q e.1) m
    → Q (index z k m)
unfolding index lookup
All-index Q z k [] q qs = q
All-index Q z k ((j, v) ∷ m) q (q', qs) = elim (Bool-cases (str_eq j k)) [
  | inl e ↦ subst Q (ground (arith, e)) q'
  | inr e ↦ subst Q (ground (arith, e)) (All-index Q z k m q qs)
]

module _ {S : Type 0} (P : S → Type 0) (api : Backend S) (web : Web) (out : Packages)
    (laws : IsLawful P api) (range : IsRange web.order_channels) where
  open_api_handler-IsLive : (r : Request) → IsLive P (open_api_handler api web out r)
  unfolding open_api_handler
  open_api_handler-IsLive r =
      try-IsLive out.open_api _ _ (λ b. reply-IsLive _ _) (λ e. write_problem-IsLive _ _ _ r)

  bridge-IsLive : (r : Request) → IsLive P (bridge api web out r)
  unfolding bridge
  bridge-IsLive r = search (live, route_by_id_handler-IsLive P api web laws range)

  plain-IsLive :
      (r : Request)
      → IsLive P (docs_handler api web out r)
        × IsLive P (index_page api web out r)
        × IsLive P (metrics_handler api web out r)
  unfolding docs_handler index_page metrics_handler
  plain-IsLive r =
      (reply-IsLive _ _, if-IsLive _ _ _ (reply-IsLive _ _) (reply-IsLive _ _), give-IsLive _)

  endpoints-IsFine :
      (r : Request) → All (λ e. IsFine P (IsPaged api web r) (e.1 r)) (endpoints api web out)
  endpoints-IsFine r = (
    live-IsFine _ (orders_handler-IsLive P api web laws r),
    (
      live-IsFine _ (optimize_handler-IsLive P api web laws range r),
      (
        live-IsFine _ (optimizer_config_handler-IsLive P api web laws r),
        (
          live-IsFine _ (admin_optimizer_config_handler-IsLive P api web laws r),
          (
            live-IsFine _ (routes_index_handler-IsLive P api web laws range r),
            (
              live-IsFine _ (route_by_id_handler-IsLive P api web laws range r),
              (
                live-IsFine _ (eta_stream_handler-IsLive P api web laws range r),
                (
                  live-IsFine _ (driver_events_handler-IsLive P api web laws range r),
                  (
                    live-IsFine _ (pod_handler-IsLive P api web laws range r),
                    (
                      subscriptions_handler-IsFine P api web laws r,
                      (
                        live-IsFine _ (subscription_by_id_handler-IsLive P api web laws r),
                        (
                          live-IsFine _ (drivers_handler-IsLive P api web laws range r),
                          (
                            live-IsFine _ (geofences_handler-IsLive P api web laws r),
                            (
                              live-IsFine _ (geofence_by_id_handler-IsLive P api web laws r),
                              (
                                live-IsFine _ (media_presign_handler-IsLive P api web laws r),
                                (
                                  live-IsFine _ (health_handler-IsLive P api web laws r),
                                  (
                                    live-IsFine _ (ready_handler-IsLive P api web laws r),
                                    (
                                      live-IsFine _ (open_api_handler-IsLive r),
                                      (
                                        live-IsFine _ (plain-IsLive r).0,
                                        (
                                          live-IsFine _ (plain-IsLive r).1,
                                          (
                                            live-IsFine _ (plain-IsLive r).2,
                                            (
                                              live-IsFine _ (
                                                  webhook_deliveries_handler-IsLive P api web laws
                                                    r),
                                              (
                                                live-IsFine _ (
                                                    webhook_delivery_retry_handler-IsLive P api web
                                                      laws r),
                                                (
                                                  live-IsFine _
                                                      (route_stats_handler-IsLive P api web laws r),
                                                  (
                                                    live-IsFine _ (
                                                        plan_metrics_handler-IsLive P api web laws
                                                          r),
                                                    (
                                                      live-IsFine _ (
                                                          plan_metrics_weights_handler-IsLive P api
                                                            web laws r),
                                                      (
                                                        live-IsFine _ (
                                                            webhook_metrics_handler-IsLive P api web
                                                            laws r),
                                                        (
                                                          live-IsFine _ (
                                                            webhook_dlq_handler-IsLive P api web
                                                            laws r),
                                                          (
                                                            live-IsFine _ (
                                                            webhook_dlq_handler-IsLive P api web
                                                            laws r),
                                                            (
                                                            live-IsFine _ (bridge-IsLive r),
                                                            (
                                                            live-IsFine _ (
                                                            graphql_http_handler-IsLive P api web
                                                            laws r),
                                                            tt,
                                                            ),
                                                            ),
                                                          ),
                                                        ),
                                                      ),
                                                    ),
                                                  ),
                                                ),
                                              ),
                                            ),
                                          ),
                                        ),
                                      ),
                                    ),
                                  ),
                                ),
                              ),
                            ),
                          ),
                        ),
                      ),
                    ),
                  ),
                ),
              ),
            ),
          ),
        ),
      ),
    ),
  )

  pub serve_mux-IsFine : (r : Request) → IsFine P (IsPaged api web r) (serve_mux api web out r)
  unfolding serve_mux
  serve_mux-IsFine r =
      option-IsFine (out.pick (map (λ e. e.0) (endpoints api web out)) r.path) _ _
        (live-IsFine _ (reply-IsLive _ _))
        (λ pattern.
          All-index (λ h. IsFine P (IsPaged api web r) (h r)) (not_registered api web out) pattern
            (endpoints api web out) (live-IsFine _ (reply-IsLive _ _)) (endpoints-IsFine r))
