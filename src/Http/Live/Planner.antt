-- ===== src/Http/Live/Planner.antt =====
-- The handlers of the planner, and of the geofences, answer.
use usps_main.Common.{List, [], ◌∷◌, Option, some, none}
use usps_main.Model.{Route, Leg, OptimizeRequest}
use usps_main.Api.Broker.Safety.{IsRange}
use usps_main.Api.Validate.{Invalid}
use usps_main.Http.Backend.{Backend}
use usps_main.Http.Act.{Request, Web}
use usps_main.Http.Live.{
  IsLive, give-IsLive, then-IsLive, bind-IsLive, if-IsLive, send-IsLive, write_problem-IsLive,
}
use usps_main.Http.Live.Laws.{IsLawful}
use usps_main.Http.Live.Rules.{live}
use usps_main.Http.Handlers.Plans.{
  send_breaks, send_routes, plan_checked, optimize_handler, optimizer_config_handler, break_event,
}
use usps_main.Http.Handlers.Geofences.{
  geofences_handler, geofences_get, geofences_post, geofence_by_id_handler, geofence_by_id,
  geofence_get, geofence_patch, geofence_delete,
}

module _ {S : Type 0} (P : S → Type 0) (api : Backend S) (web : Web) (laws : IsLawful P api)
    (range : IsRange web.order_channels) where
  send_breaks-IsLive : (rt : Route) (legs : List Leg) → IsLive P (send_breaks api web rt legs)
  unfolding send_breaks
  send_breaks-IsLive rt [] = give-IsLive tt
  send_breaks-IsLive rt (lg ∷ legs) =
      then-IsLive _ _
        (if-IsLive _ _ _ (send-IsLive P web rt.id (break_event rt lg) range) (give-IsLive tt))
        (send_breaks-IsLive rt legs)

  send_routes-IsLive : (rts : List Route) → IsLive P (send_routes api web rts)
  unfolding send_routes
  send_routes-IsLive [] = give-IsLive tt
  send_routes-IsLive (rt ∷ rts) =
      then-IsLive _ _ (send_breaks-IsLive rt rt.legs) (send_routes-IsLive rts)

  plan_checked-IsLive :
      (r : Request) (req : OptimizeRequest) (e : Option Invalid)
      → IsLive P (plan_checked api web r req e)
  unfolding plan_checked
  plan_checked-IsLive r req (some e) = write_problem-IsLive _ _ _ r
  plan_checked-IsLive r req none =
      bind-IsLive _ _ (search (live, laws.plan_routes))
        λ made. search (live, send_routes-IsLive) depth 14

  pub optimize_handler-IsLive : (r : Request) → IsLive P (optimize_handler api web r)
  unfolding optimize_handler
  optimize_handler-IsLive r = search (live, plan_checked-IsLive) depth 14

module _ {S : Type 0} (P : S → Type 0) (api : Backend S) (web : Web) (laws : IsLawful P api) where
  pub optimizer_config_handler-IsLive :
      (r : Request) → IsLive P (optimizer_config_handler api web r)
  unfolding optimizer_config_handler
  optimizer_config_handler-IsLive r = search (live, laws.get_optimizer_config) depth 14

  pub geofences_handler-IsLive : (r : Request) → IsLive P (geofences_handler api web r)
  unfolding geofences_handler geofences_get geofences_post
  geofences_handler-IsLive r = search (live, laws.list_geofences, laws.create_geofence) depth 14

  pub geofence_by_id_handler-IsLive : (r : Request) → IsLive P (geofence_by_id_handler api web r)
  unfolding geofence_by_id_handler geofence_by_id geofence_get geofence_patch geofence_delete
  geofence_by_id_handler-IsLive r =
      search (live, laws.get_geofence, laws.patch_geofence, laws.delete_geofence) depth 14
