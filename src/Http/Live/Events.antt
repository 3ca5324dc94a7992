-- ===== src/Http/Live/Events.antt =====
-- The handlers of the drivers' events answer.
use usps_main.Common.{String, List, [], ◌∷◌, Option, some, none}
use usps_main.Model.{AdvanceResult, AdvanceResponse, DriverEvent, HosUpdate}
use usps_main.Api.Broker.Safety.{IsRange}
use usps_main.Http.Backend.{Backend, Try, ok, err}
use usps_main.Http.Act.{Request, Web, Act}
use usps_main.Http.Live.{
  IsLive, give-IsLive, then-IsLive, bind-IsLive, if-IsLive, send-IsLive, send_all-IsLive,
  write_problem-IsLive,
}
use usps_main.Http.Live.Laws.{IsLawful}
use usps_main.Http.Live.Rules.{live, emit_event-IsLive}
use usps_main.Http.Handlers.Events.{
  after_advance, auto_advance, driver_events_handler, pod_handler, eta_stream_handler,
  broadcast_break, announce_break, drive_action, driver_parts, drivers_handler,
}
use usps_main.Http.Handlers.Routes.{advance_data}

module _ {S : Type 0} (P : S → Type 0) (api : Backend S) (web : Web) (laws : IsLawful P api)
    (range : IsRange web.order_channels) where
  after_advance-IsLive :
      (tenant : String) (rest : Act S (Option AdvanceResult)) (got : Try AdvanceResponse)
      → IsLive P rest
      → IsLive P (after_advance api web tenant rest got)
  unfolding after_advance
  after_advance-IsLive tenant rest (err e) l = l
  after_advance-IsLive tenant rest (ok res) l = if-IsLive _ _ _ l (
      then-IsLive _ _
        (emit_event-IsLive P api web laws tenant "stop.advanced" (advance_data res.result))
        (give-IsLive (some res.result)))

  auto_advance-IsLive :
      (tenant : String) (events : List DriverEvent) → IsLive P (auto_advance api web tenant events)
  unfolding auto_advance
  auto_advance-IsLive tenant [] = give-IsLive none
  auto_advance-IsLive tenant (e ∷ events) =
      let rest = auto_advance-IsLive tenant events in
      if-IsLive _ _ _ rest (
        bind-IsLive _ _ (search (live, laws.advance_route))
          λ got. after_advance-IsLive tenant (auto_advance api web tenant events) got rest)

  pub driver_events_handler-IsLive : (r : Request) → IsLive P (driver_events_handler api web r)
  unfolding driver_events_handler
  driver_events_handler-IsLive r =
      search (live, laws.insert_driver_events, auto_advance-IsLive) depth 14

  pub pod_handler-IsLive : (r : Request) → IsLive P (pod_handler api web r)
  unfolding pod_handler
  pod_handler-IsLive r =
      search (live, laws.create_pod, laws.find_routes_by_stop, send_all-IsLive, range) depth 14

  pub eta_stream_handler-IsLive : (r : Request) → IsLive P (eta_stream_handler api web r)
  unfolding eta_stream_handler
  eta_stream_handler-IsLive r = search live

  broadcast_break-IsLive :
      (tenant kind driver : String) (upd : HosUpdate) (ids : List String)
      → IsLive P (broadcast_break api web tenant kind driver upd ids)
  unfolding broadcast_break
  broadcast_break-IsLive tenant kind driver upd [] = give-IsLive tt
  broadcast_break-IsLive tenant kind driver upd (id ∷ ids) =
      then-IsLive _ _
        (then-IsLive _ _ (send-IsLive P web id _ range)
          (emit_event-IsLive P api web laws tenant kind _))
        (broadcast_break-IsLive tenant kind driver upd ids)

  announce_break-IsLive :
      (tenant driver : String) (upd : HosUpdate)
      → IsLive P (announce_break api web tenant driver upd)
  unfolding announce_break
  announce_break-IsLive tenant driver upd =
      search (live, laws.list_active_routes_for_driver, broadcast_break-IsLive) depth 14

  drive_action-IsLive :
      (r : Request) (driver : String) (upd : HosUpdate)
      → IsLive P (drive_action api web r driver upd)
  unfolding drive_action
  drive_action-IsLive r driver upd = search (live, laws.update_hos, announce_break-IsLive) depth 14

  driver_parts-IsLive :
      (r : Request) (parts : List String) → IsLive P (driver_parts api web r parts)
  unfolding driver_parts
  driver_parts-IsLive r [] = write_problem-IsLive _ _ _ r
  driver_parts-IsLive r (driver ∷ []) = write_problem-IsLive _ _ _ r
  driver_parts-IsLive r (driver ∷ part ∷ parts) = drive_action-IsLive r driver _

  pub drivers_handler-IsLive : (r : Request) → IsLive P (drivers_handler api web r)
  unfolding drivers_handler
  drivers_handler-IsLive r = search (live, driver_parts-IsLive) depth 14
