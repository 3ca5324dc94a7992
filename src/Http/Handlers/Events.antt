-- ===== src/Http/Handlers/Events.antt =====
-- DriverEventsHandler, PoDHandler, ETAStreamHandler and DriversHandler of internal/api/handlers.go.
use usps_main.Common.{
  String, Bool, false, ℕ, ◌+◌, ◌*◌, Option, none, some, List, [], ◌∷◌, ◌||◌, not, str_eq, ◌==◌,
  if◌then◌else◌,
}
use usps_main.Common.Maps.{Map, lookup}
use usps_main.Common.Text.{has_prefix, trim_prefix, split_slash, split_on, join_slash}
use usps_main.Model.{Any, text, DriverEvent, AdvanceResult, AdvanceResponse, HosUpdate}
use usps_main.Api.Principal.{is_admin}
use usps_main.Http.Backend.{Backend, Try, ok, err}
use usps_main.Http.Act.{
  Request, Response, Web, Act, ◌>>=◌, ◌>>◌, give, reply, write_problem, require, call, or_problem,
  tenant_of, or_tenant, principal, send, send_all, accepted, pod, eta, hos, empty,
}
use usps_main.Http.Publish.{emit_event}
use usps_main.Http.Handlers.Routes.{advance_data}

abbrev pub is_trigger : DriverEvent → Bool
is_trigger e = str_eq e.kind "pod" || str_eq e.kind "depart" || str_eq e.kind "arrive"

abbrev pub reason_of : DriverEvent → String
reason_of e =
    let acked = if str_eq e.kind "pod" then "pod_ack" else e.kind in
    if str_eq acked "arrive" then "geofence_arrive" else acked

unfoldable pub action_to_hos_action : String → String
action_to_hos_action path =
    if str_eq path "shift/start"
    then "shift_start"
    else if str_eq path "shift/end"
    then "shift_end"
    else if str_eq path "breaks/start"
    then "break_start"
    else if str_eq path "breaks/end"
    then "break_end"
    else path

-- `v, ok := body[k].(string)`.
abbrev pub text_at : String → Map Any → Option String
text_at k m = elim (lookup k m) [ none ↦ none | some v ↦ elim v [ text s ↦ some s | _ ↦ none ] ]

abbrev pub or_default {ℓ} : {A : Type ℓ} → A → Option A → A
or_default d none = d
or_default d (some a) = a

module _ {S : Type 0} (api : Backend S) (web : Web) where
  -- Behind AdvanceRoute: a route that changed ends the loop.
  unfoldable pub after_advance :
      String → Act S (Option AdvanceResult) → Try AdvanceResponse → Act S (Option AdvanceResult)
  unfolding emit_event advance_data
  after_advance tenant rest (err _) = rest
  after_advance tenant rest (ok res) = if not res.result.changed then rest else do
    emit_event api web tenant "stop.advanced" (advance_data res.result)
    give (some res.result)

  unfoldable pub auto_advance : String → List DriverEvent → Act S (Option AdvanceResult)
  unfolding after_advance
  auto_advance tenant [] = give none
  auto_advance tenant (e ∷ events) =
      let rest = auto_advance tenant events in
      if not (is_trigger e) then rest else do
        got ←
            call
              (api.advance_route tenant e.route_id (record { reason = reason_of e; force = false }))
        after_advance tenant rest got

  unfoldable pub driver_events_handler : Request → Act S Response
  unfolding principal auto_advance
  driver_events_handler r = if not (str_eq r.method "POST") then reply 405 empty else do
    pr ← principal web r
    require (is_admin pr || str_eq pr.role "driver" || str_eq pr.role "dispatcher")
        (write_problem 403 "Forbidden" "driver, dispatcher or admin required" r)
        (or_problem 400 "Invalid JSON" r (web.decode_events r.body) λ req. do
          stored ← call (api.insert_driver_events (or_tenant req.0 r) req.1)
          or_problem 500 "Insert events failed" r stored
              λ n. do adv ← auto_advance (or_tenant req.0 r) req.1; reply 202 (accepted n adv))

  unfoldable pub pod_handler : Request → Act S Response
  unfolding send_all
  pod_handler r =
      if not (str_eq r.method "POST")
      then reply 405 empty
      else (or_problem 400 "Invalid JSON" r (web.decode_pod r.body) λ req. do
        made ← call (api.create_pod req)
        or_problem 500 "Create PoD failed" r made λ out. do
          found ← call (api.find_routes_by_stop req.tenant_id req.stop_id)
          send_all web
              (record {
                kind = "pod.captured";
                payload =
                    ("orderId", text req.order_id)
                    ∷ ("stopId", text req.stop_id)
                    ∷ ("podId", text out.0)
                    ∷ ("ts", text (web.format web.now))
                    ∷ [];
              })
              (elim found [ ok ids ↦ ids | err _ ↦ [] ])
          reply 201 (pod out.0 out.1))

  -- Five minutes, in nanoseconds.
  abbrev pub eta_shift : ℕ
  eta_shift = 5 * 60 * 1_000_000_000

  unfoldable pub eta_stream_handler : Request → Act S Response
  eta_stream_handler r =
      if not (str_eq r.method "GET")
      then reply 405 empty
      else if str_eq (r.query "routeId") ""
      then write_problem 400 "Missing routeId" "" r
      else reply 200 (eta (r.query "routeId") (web.format (web.now + eta_shift)))

  -- The body is read for a POST, and passed over where it cannot be decoded.
  abbrev pub hos_fields : Request → Map Any
  hos_fields r = elim (web.decode_fields r.body) [
    | ok m ↦ if str_eq r.method "POST" then m else []
    | err _ ↦ []
  ]

  unfoldable pub hos_time : Map Any → ℕ
  hos_time m =
      let given : ℕ = elim (text_at "ts" m) [ none ↦ 0 | some v ↦ web.parse_time v ] in
      if given == 0 then web.now else given

  unfoldable pub hos_update_of : Map Any → String → HosUpdate
  unfolding action_to_hos_action hos_time
  hos_update_of m action = record {
    action = action_to_hos_action action;
    ts = web.format (hos_time m);
    kind = or_default "" (text_at "type" m);
    note = or_default "" (text_at "note" m);
  }

  abbrev pub is_break : HosUpdate → Bool
  is_break upd = str_eq upd.action "break_start" || str_eq upd.action "break_end"

  unfoldable pub break_data : String → String → HosUpdate → Map Any
  break_data id driver upd =
      ("routeId", text id) ∷ ("driverId", text driver) ∷ ("ts", text upd.ts) ∷ []

  -- Each active route's streams and the subscriptions to the event.
  unfoldable pub broadcast_break :
      String → String → String → HosUpdate → List String → Act S (Unit {0})
  unfolding emit_event send break_data
  broadcast_break tenant kind driver upd [] = give tt
  broadcast_break tenant kind driver upd (id ∷ ids) =
      send web id (record { kind = kind; payload = break_data id driver upd })
      >> emit_event api web tenant kind (break_data id driver upd)
      >> broadcast_break tenant kind driver upd ids

  unfoldable pub announce_break : String → String → HosUpdate → Act S (Unit {0})
  unfolding broadcast_break
  announce_break tenant driver upd = do
    found ← call (api.list_active_routes_for_driver tenant driver)
    broadcast_break tenant
        (if str_eq upd.action "break_end" then "hos.break.ended" else "hos.break.started") driver
        upd (elim found [ ok ids ↦ ids | err _ ↦ [] ])

  unfoldable pub drive_action : Request → String → HosUpdate → Act S Response
  unfolding announce_break
  drive_action r driver upd = do
    got ← call (api.update_hos (tenant_of r) driver upd)
    or_problem 500 "HOS update failed" r got λ out. do
      if is_break upd then announce_break (tenant_of r) driver upd else give tt
      reply 200 (hos driver out.0 out.1)

  unfoldable pub driver_parts : Request → List String → Act S Response
  unfolding drive_action hos_update_of join_slash
  driver_parts r [] = write_problem 404 "Not Found" "" r
  driver_parts r (driver ∷ []) = write_problem 404 "Not Found" "" r
  driver_parts r (driver ∷ part ∷ parts) =
      drive_action r driver (hos_update_of (hos_fields r) (join_slash (part ∷ parts)))

  unfoldable pub drivers_handler : Request → Act S Response
  unfolding has_prefix trim_prefix split_on driver_parts
  drivers_handler r =
      if not (has_prefix r.path "/v1/drivers/")
      then write_problem 404 "Not Found" "" r
      else driver_parts r (split_slash (trim_prefix r.path "/v1/drivers/"))
