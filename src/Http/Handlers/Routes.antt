-- ===== src/Http/Handlers/Routes.antt =====
-- RouteByIDHandler and RoutesIndexHandler of internal/api/handlers.go. The event stream is opened by the
-- handler and closed by close_stream; between the two the broker's events go to its channel.
use usps_main.Common.{
  String, Bool, ℕ, none, some, List, [], ◌∷◌, ◌&&◌, ◌||◌, not, pos, str_eq, ltb, if◌then◌else◌,
  length, get_or, keep,
}
use usps_main.Common.Maps.{Map}
use usps_main.Common.Text.{trim_prefix, split_slash, split_on}
use usps_main.Model.{Any, text, Route, Leg, AdvanceResult, PolicyAlert}
use usps_main.Api.Broker.{SseEvent, subscribe, unsubscribe}
use usps_main.Api.Principal.{Principal}
use usps_main.Http.Backend.{Backend}
use usps_main.Http.Act.{
  Request, Response, Web, Act, ◌>>=◌, ◌>>◌, give, reply, write_problem, require, call, or_problem,
  tenant_of, int_param, principal, send, route, routes, advanced, stream, empty,
}
use usps_main.Http.Publish.{emit_event}
use usps_main.Http.Handlers.Plans.{is_planner}

-- `len(parts) > i && parts[i] == name`.
abbrev pub has_part : ℕ → String → List String → Bool
has_part i name parts = ltb i (length parts) && str_eq (get_or parts i "") name

unfoldable pub advance_data : AdvanceResult → Map Any
advance_data res =
    ("routeId", text res.route_id)
    ∷ ("fromStopId", text res.from_stop_id)
    ∷ ("toStopId", text res.to_stop_id)
    ∷ ("ts", text res.ts)
    ∷ []

abbrev pub alert_event : String → PolicyAlert → SseEvent
alert_event id a = record {
  kind = "policy.alert";
  payload = ("routeId", text id) ∷ ("reason", text a.reason) ∷ ("ts", text a.ts) ∷ [];
}

-- A driver may see the events of the route that the driver is assigned to.
unfoldable pub is_assigned_driver : Principal → Route → Bool
is_assigned_driver pr rt =
    str_eq pr.role "driver"
    && not (str_eq pr.driver_id "")
    && not (str_eq rt.driver_id "")
    && str_eq pr.driver_id rt.driver_id

module _ {S : Type 0} (api : Backend S) (web : Web) where
  -- Subscribe; the stream's first event, a heartbeat, and the later ones are not state.
  unfoldable pub open_stream : String → Act S Response
  open_stream id s =
      let got = subscribe id s.broker in
      (record s { broker = got.0 }, some (record { status = 200; body = stream id got.1 }))

  -- `defer s.Broker.Unsubscribe(id, ch)`, when the client has gone.
  unfoldable pub close_stream : String → ℕ → Act S (Unit {0})
  close_stream id ch s = elim (unsubscribe id ch s.broker) [
    | none ↦ (s, none)
    | some b ↦ (record s { broker = b }, some tt)
  ]

  unfoldable pub flush_or_refuse : Request → String → Act S Response
  unfolding open_stream
  flush_or_refuse r id =
      if r.flushes then open_stream id else write_problem 500 "Streaming unsupported" "" r

  unfoldable pub stream_route : Request → String → Act S Response
  unfolding principal flush_or_refuse is_assigned_driver
  stream_route r id = if not (str_eq r.method "GET") then reply 405 empty else do
    pr ← principal web r
    if is_planner pr then flush_or_refuse r id else do
      got ← call (api.get_route (tenant_of r) id)
      or_problem 404 "Route not found" r got λ rt.
          require (is_assigned_driver pr rt)
            (write_problem 403 "Forbidden" "not authorized for route events" r)
            (flush_or_refuse r id)

  unfoldable pub assign_by_id : Request → String → Act S Response
  unfolding principal
  assign_by_id r id =
      if not (str_eq r.method "POST")
      then reply 405 empty
      else (or_problem 400 "Invalid JSON" r (web.decode_assignment r.body) λ req. do
        pr ← principal web r
        require (is_planner pr) (write_problem 403 "Forbidden" "dispatcher or admin required" r) do
          made ← call (api.assign_route (tenant_of r) id req.driver_id req.vehicle_id)
          or_problem 500 "Assign route failed" r made λ rt. reply 200 (route rt))

  unfoldable pub send_alerts : String → List PolicyAlert → Act S (Unit {0})
  unfolding send
  send_alerts id [] = give tt
  send_alerts id (a ∷ alerts) = send web id (alert_event id a) >> send_alerts id alerts

  -- Emit, and Publish to the route's streams.
  unfoldable pub announce : String → String → AdvanceResult → Act S (Unit {0})
  unfolding emit_event send advance_data
  announce tenant id res =
      emit_event api web tenant "stop.advanced" (advance_data res)
      >> send web id (record { kind = "stop.advanced"; payload = advance_data res })

  unfoldable pub advance_by_id : Request → String → Act S Response
  unfolding announce send_alerts
  advance_by_id r id = if not (str_eq r.method "POST") then reply 405 empty else do
    got ← call (api.advance_route (tenant_of r) id (web.decode_advance r.body))
    or_problem 500 "Advance route failed" r got λ resp. do
      if resp.result.changed then announce (tenant_of r) id resp.result else give tt
      send_alerts id resp.alerts
      reply 200 (advanced resp)

  unfoldable pub without_breaks : List Leg → List Leg
  without_breaks legs = keep (λ l. not (str_eq (web.to_lower l.kind) "break")) legs

  unfoldable pub get_by_id : Request → String → Act S Response
  unfolding without_breaks
  get_by_id r id = do
    got ← call (api.get_route (tenant_of r) id)
    or_problem 404 "Route not found" r got λ rt.
        if web.equal_fold (r.query "includeBreaks") "false" || str_eq (r.query "includeBreaks") "0"
        then reply 200 (route (record rt { legs = without_breaks rt.legs }))
        else reply 200 (route rt)

  -- The body is read and not used.
  unfoldable pub patch_by_id : Request → String → Act S Response
  patch_by_id r id = do
    made ← call (
        api.patch_route (tenant_of r) id
          (record { status = "updated"; locked_until = ""; auto_advance = none }))
    or_problem 500 "Update route failed" r made λ rt. reply 200 (route rt)

  unfoldable pub route_parts : Request → List String → Act S Response
  unfolding stream_route assign_by_id advance_by_id get_by_id patch_by_id
  route_parts r parts =
      let id = get_or parts 0 "" in
      if has_part 1 "events" parts && has_part 2 "stream" parts
      then stream_route r id
      else if has_part 1 "assign" parts
      then assign_by_id r id
      else if has_part 1 "advance" parts
      then advance_by_id r id
      else if str_eq r.method "GET"
      then get_by_id r id
      else if str_eq r.method "PATCH"
      then patch_by_id r id
      else reply 405 empty

  unfoldable pub route_by_id_handler : Request → Act S Response
  unfolding trim_prefix split_on route_parts
  route_by_id_handler r =
      let rest = trim_prefix r.path "/v1/routes/" in
      if str_eq rest r.path || str_eq rest ""
      then write_problem 404 "Not Found" "missing id" r
      else route_parts r (split_slash rest)

  unfoldable pub routes_index_handler : Request → Act S Response
  routes_index_handler r =
      if not (str_eq r.path "/v1/routes")
      then write_problem 404 "Not Found" "" r
      else if not (str_eq r.method "GET")
      then reply 405 empty
      else (do
        listed ←
            call
              (api.list_routes (tenant_of r) (r.query "cursor") (int_param web "limit" (pos 100) r))
        or_problem 500 "List routes failed" r listed λ out. reply 200 (routes out.0 out.1))
