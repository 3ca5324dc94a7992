-- ===== src/Http/Session.antt =====
-- The WebSocket session of internal/api/graphql_ws.go: what each message does, and the end. The keepalive and
-- the deadlines of gorilla/websocket are not state; a message that cannot be read ends the session.
pub mod Leak
use usps_main.Common.{
  String, ℕ, Bool, true, false, Option, none, some, List, [], ◌∷◌, ◌++◌, ◌&&◌, not, str_eq,
  if◌then◌else◌, keep,
}
use usps_main.Common.Maps.{Map, lookup, insert, delete}
use usps_main.Common.Text.{has_prefix, contains}
use usps_main.Model.{Any, Route}
use usps_main.Api.Broker.{SseEvent, subscribe}
use usps_main.Api.Principal.{Principal}
use usps_main.Http.Backend.{Backend, Try, ok, err}
use usps_main.Http.Act.{Request, Web, Act, ◌>>=◌, ◌>>◌, give, call, tenant_of, principal}
use usps_main.Http.Handlers.Plans.{is_planner}
use usps_main.Http.Handlers.Routes.{is_assigned_driver, close_stream}
use usps_main.Http.Handlers.Misc.{variable}

-- A message read: its type, and of a subscription the query and the variables.
pub data Message : Type 0 where
  connection_init : Message
  ping : Message
  subscribe_to : String → String → Map Any → Message
  complete : String → Message
  ignored : Message

-- A message written.
pub data Sent : Type 0 where
  connection_ack : Sent
  pong : Sent
  forbidden : String → Sent  -- "error" with its id
  completed : String → Sent  -- "complete"
  next : String → String → Map Any → Sent  -- id, field and data

-- `subs`: the route and the channel of each id.
abbrev pub Subs : Type 0
Subs = Map (String × ℕ)

-- The field that a query asks for.
unfoldable pub field_of : String → String
field_of query =
    if contains query "breakevents"
    then "breakEvents"
    else if contains query "podcaptured"
    then "podCaptured"
    else if contains query "policyalerts"
    then "policyAlerts"
    else "routeEvents"

-- The events that the fan-out passes on.
unfoldable pub passes : String → SseEvent → Bool
passes field evt =
    if str_eq field "policyAlerts"
    then str_eq evt.kind "policy.alert"
    else if str_eq field "podCaptured"
    then str_eq evt.kind "pod.captured"
    else if str_eq field "breakEvents"
    then has_prefix evt.kind "hos.break."
    else true

-- The fan-out of a channel: what it writes for the events, and for the close.
unfoldable pub fan_out : String → String → List SseEvent → List Sent
unfolding passes
fan_out id field [] = completed id ∷ []
fan_out id field (evt ∷ events) =
    let rest = fan_out id field events in
    if passes field evt then next id field evt.payload ∷ rest else rest

module _ {S : Type 0} (api : Backend S) (web : Web) where
  -- Subscribe, and the entry under the id; an entry that stood there is overwritten.
  unfoldable pub follow : String → String → Subs → Act S (Subs × List Sent)
  follow id rid subs s =
      let got = subscribe rid s.broker in
      (record s { broker = got.0 }, some (insert id (rid, got.1) subs, []))

  abbrev pub refuse : String → Subs → Subs × List Sent
  refuse id subs = (subs, forbidden id ∷ completed id ∷ [])

  unfoldable pub follow_assigned :
      Principal → String → String → Subs → Try Route → Act S (Subs × List Sent)
  unfolding follow is_assigned_driver
  follow_assigned pr id rid subs (err e) = give (refuse id subs)
  follow_assigned pr id rid subs (ok rt) =
      if is_assigned_driver pr rt then follow id rid subs else give (refuse id subs)

  unfoldable pub on_subscribe : Request → String → String → Subs → Act S (Subs × List Sent)
  unfolding follow follow_assigned principal
  on_subscribe r id rid subs = do
    pr ← principal web r
    if is_planner pr
        then follow id rid subs
        else do got ← call (api.get_route (tenant_of r) rid); follow_assigned pr id rid subs got

  unfoldable pub on_complete : String → Subs → Act S (Subs × List Sent)
  unfolding close_stream
  on_complete id subs = elim (lookup id subs) [
    | none ↦ give (subs, [])
    | some (rid, ch) ↦ do close_stream api web rid ch; give (delete id subs, [])
  ]

  unfoldable pub on_message : Request → Message → Subs → Act S (Subs × List Sent)
  unfolding on_subscribe on_complete variable
  on_message r connection_init subs = give (subs, connection_ack ∷ [])
  on_message r ping subs = give (subs, pong ∷ [])
  on_message r (subscribe_to id query vars) subs =
      on_subscribe r id (variable api web "routeId" vars) subs
  on_message r (complete id) subs = on_complete id subs
  on_message r ignored subs = give (subs, [])

  -- The clean-up behind the loop, in the order in which Go ranges over the map.
  unfoldable pub clean_up : Subs → Act S (Unit {0})
  unfolding close_stream
  clean_up [] = give tt
  clean_up ((id, (rid, ch)) ∷ subs) = close_stream api web rid ch >> clean_up subs

  -- The session: the messages read, then the clean-up.
  unfoldable pub session : Request → List Message → Subs → Act S (Unit {0})
  unfolding on_message clean_up
  session r [] subs = clean_up subs
  session r (msg ∷ msgs) subs = do done ← on_message r msg subs; session r msgs done.0
