-- ===== src/Http/Live/Routes.antt =====
-- The handlers of the routes answer.
use usps_main.Common.{String, refl, List, [], ◌∷◌}
use usps_main.Model.{AdvanceResult, PolicyAlert}
use usps_main.Api.Broker.Safety.{IsRange, subscribe-IsSafe}
use usps_main.Http.Backend.{Backend}
use usps_main.Http.Act.{Request, Web}
use usps_main.Http.Live.{IsLive, give-IsLive, then-IsLive, send-IsLive}
use usps_main.Http.Live.Laws.{IsLawful}
use usps_main.Http.Live.Rules.{live, emit_event-IsLive}
use usps_main.Http.Handlers.Routes.{
  open_stream, flush_or_refuse, stream_route, assign_by_id, send_alerts, announce, advance_by_id,
  get_by_id, patch_by_id, route_parts, route_by_id_handler, routes_index_handler, alert_event,
  advance_data,
}

module _ {S : Type 0} (P : S → Type 0) (api : Backend S) (web : Web) (laws : IsLawful P api)
    (range : IsRange web.order_channels) where
  open_stream-IsLive : (id : String) → IsLive P (open_stream api web id)
  unfolding open_stream
  open_stream-IsLive id = record {
    answers = λ s p. ((_, refl), (subscribe-IsSafe id s.broker p.0, p.1));
  }

  stream_route-IsLive : (r : Request) (id : String) → IsLive P (stream_route api web r id)
  unfolding stream_route flush_or_refuse
  stream_route-IsLive r id = search (live, laws.get_route, open_stream-IsLive) depth 14

  assign_by_id-IsLive : (r : Request) (id : String) → IsLive P (assign_by_id api web r id)
  unfolding assign_by_id
  assign_by_id-IsLive r id = search (live, laws.assign_route) depth 14

  send_alerts-IsLive :
      (id : String) (alerts : List PolicyAlert) → IsLive P (send_alerts api web id alerts)
  unfolding send_alerts
  send_alerts-IsLive id [] = give-IsLive tt
  send_alerts-IsLive id (a ∷ alerts) =
      then-IsLive _ _ (send-IsLive P web id (alert_event id a) range) (send_alerts-IsLive id alerts)

  announce-IsLive :
      (tenant id : String) (res : AdvanceResult) → IsLive P (announce api web tenant id res)
  unfolding announce
  announce-IsLive tenant id res =
      then-IsLive _ _ (emit_event-IsLive P api web laws tenant "stop.advanced" (advance_data res))
        (send-IsLive P web id _ range)

  advance_by_id-IsLive : (r : Request) (id : String) → IsLive P (advance_by_id api web r id)
  unfolding advance_by_id
  advance_by_id-IsLive r id =
      search (live, laws.advance_route, announce-IsLive, send_alerts-IsLive) depth 14

  get_by_id-IsLive : (r : Request) (id : String) → IsLive P (get_by_id api web r id)
  unfolding get_by_id
  get_by_id-IsLive r id = search (live, laws.get_route) depth 14

  patch_by_id-IsLive : (r : Request) (id : String) → IsLive P (patch_by_id api web r id)
  unfolding patch_by_id
  patch_by_id-IsLive r id = search (live, laws.patch_route) depth 14

  pub route_by_id_handler-IsLive : (r : Request) → IsLive P (route_by_id_handler api web r)
  unfolding route_by_id_handler route_parts
  route_by_id_handler-IsLive r =
      search
        (
          live, stream_route-IsLive, assign_by_id-IsLive, advance_by_id-IsLive, get_by_id-IsLive,
          patch_by_id-IsLive,
        )
        depth 14

  pub routes_index_handler-IsLive : (r : Request) → IsLive P (routes_index_handler api web r)
  unfolding routes_index_handler
  routes_index_handler-IsLive r = search (live, laws.list_routes) depth 14
