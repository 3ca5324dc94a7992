-- ===== src/Http/Act.antt =====
-- What the handlers of internal/api are made of: requests, responses, the server's state, and steps that
-- change the state and may panic. internal/api/json.go and server.go.
use usps_main.Common.{
  String, Bool, true, false, ℕ, Option, none, some, List, [], ◌∷◌, ℤ, str_eq, if◌then◌else◌,
}
use usps_main.Common.Maps.{Map}
use usps_main.Model.{
  Any, OrderIn, OrderOut, Route, Geofence, GeofenceInput, Subscription, SubscriptionRequest,
  AdvanceRequest, AdvanceResult, AdvanceResponse, AssignmentRequest, DriverEvent, PodRequest,
  PresignRequest, OptimizeRequest, Float64Bits,
}
use usps_main.Api.Broker.{Broker, SseEvent, publish}
use usps_main.Api.Principal.{Principal, Packages, Verifier, Headers, get_principal}
use usps_main.Api.Validate.{Invalid, Tests}
use usps_main.Opt.Recorded.{Recorded}
use usps_main.Http.Backend.{Try, ok, err, Op}

pub record Request : Type 0 where
  pub method : String
  pub path : String
  pub headers : Headers
  pub query : String → String  -- r.URL.Query().Get
  pub body : List ℕ
  pub flushes : Bool  -- whether the response writer is an http.Flusher

-- The bodies that the handlers write.
pub data Body : Type 0 where
  empty : Body
  problem : String → String → String → Body  -- title, detail, instance
  imported : String → ℕ → ℕ → Body
  orders : List OrderOut → String → Body
  planned : String → List Route → Body
  fields : Map Any → Body
  config : Map Any → Body
  done : Body  -- {"ok": true}
  route : Route → Body
  routes : List Route → String → Body
  advanced : AdvanceResponse → Body
  accepted : ℕ → Option AdvanceResult → Body
  pod : String → String → Body
  subscription : Subscription → Body
  subscriptions : List Subscription → String → Body
  eta : String → String → Body
  hos : String → String → Map Any → Body
  geofence : Geofence → Body
  geofences : List Geofence → String → Body
  upload : String → String → String → Body
  status_is : String → Body
  items : List (Map Any) → Body
  weighed : List (Map Any × List (Map Any)) → Body  -- items, each with its "weights" if there are any
  page : List (Map Any) → String → Body
  plain : String → Body  -- http.Error and http.NotFound
  page_of : String → Body  -- a page whose text stands in the source
  document : List ℕ → Body
  stream : String → ℕ → Body  -- the event stream of a route, from a channel

pub record Response : Type 0 where
  pub status : ℕ
  pub body : Body

pub record Server (S : Type 0) : Type 0 where
  pub store : S
  pub broker : Broker
  pub auth : Verifier
  pub recorded : Recorded Float64Bits  -- opt.store

-- What the handlers call that is not the repository's: encoding/json, strings, fmt, time, and the order
-- in which Go ranges over a map. A decoder gives the value or the text of the error.
pub record Web : Type 0 where
  pub auth : Packages
  pub tests : Tests
  pub to_lower : String → String
  pub equal_fold : String → String → Bool
  pub scan_int : String → ℤ → ℤ  -- fmt.Sscanf of "%d" into a variable with this value
  pub float_to_int : Float64Bits → ℤ
  pub now : ℕ
  pub format : ℕ → String  -- RFC 3339
  pub parse_time : String → ℕ  -- RFC 3339; the zero time on an error
  pub order_channels : List ℕ → List ℕ
  pub order_objectives : Map Float64Bits → Map Float64Bits
  pub marshal_event : String → String → Map Any → List ℕ  -- the event's payload with its id and time
  pub invalid_text : Invalid → String
  pub decode_orders : List ℕ → Try (String × List OrderIn)
  pub decode_optimize : List ℕ → Try OptimizeRequest
  pub decode_config : List ℕ → Try (Option (Map Any))
  pub decode_assignment : List ℕ → Try AssignmentRequest
  pub decode_advance : List ℕ → AdvanceRequest  -- with what was decoded before an error
  pub decode_events : List ℕ → Try (String × List DriverEvent)
  pub decode_pod : List ℕ → Try PodRequest
  pub decode_subscription : List ℕ → Try SubscriptionRequest
  pub decode_fields : List ℕ → Try (Map Any)
  pub decode_geofence : List ℕ → Try GeofenceInput
  pub decode_presign : List ℕ → Try PresignRequest
  pub decode_ids : List ℕ → Try (List String × ℤ)  -- ids and olderThanHours
  pub decode_query : List ℕ → Try (String × Map Any)

-- A step: the state is kept also where the step panics (`none`), since net/http recovers.
abbrev pub Act : Type 0 → Type 0 → Type 0
Act S A = Server S → Server S × Option A

infixl 5 ◌>>=◌ ◌>>◌
unfoldable pub ◌>>=◌ : {S A B : Type 0} → Act S A → (A → Act S B) → Act S B
◌>>=◌ m f s = elim ((m s).1) [ none ↦ ((m s).0, none) | some a ↦ f a (m s).0 ]

unfoldable pub ◌>>◌ : {S A B : Type 0} → Act S A → Act S B → Act S B
◌>>◌ m k s = elim ((m s).1) [ none ↦ ((m s).0, none) | some a ↦ k (m s).0 ]

unfoldable pub give : {S A : Type 0} → A → Act S A
give a s = (s, some a)

-- writeJSON, and `w.WriteHeader` alone.
unfoldable pub reply : {S : Type 0} → ℕ → Body → Act S Response
reply code body = give (record { status = code; body = body })

-- writeProblem.
unfoldable pub write_problem : {S : Type 0} → ℕ → String → String → Request → Act S Response
write_problem code title detail r = reply code (problem title detail r.path)

-- `if !cond { writeProblem(…); return }`.
unfoldable pub require : {S : Type 0} → Bool → Act S Response → Act S Response → Act S Response
require true refuse k = k
require false refuse k = refuse

-- A call of the store.
unfoldable pub call : {S A : Type 0} → Op S A → Act S (Try A)
call op s = (record s { store = (op s.store).0 }, (op s.store).1)

-- `v, err := …; if err != nil { writeProblem(w, code, title, err.Error(), …); return }`.
unfoldable pub or_problem :
    {S A : Type 0} → ℕ → String → Request → Try A → (A → Act S Response) → Act S Response
or_problem code title r (ok a) k = k a
or_problem code title r (err e) k = write_problem code title e r

-- withTenant.
unfoldable pub tenant_of : Request → String
tenant_of r = if str_eq r.headers.tenant "" then "t_demo" else r.headers.tenant

abbrev pub or_tenant : String → Request → String
or_tenant given r = if str_eq given "" then tenant_of r else given

-- `limit := 100; if v := …Get("limit"); v != "" { fmt.Sscanf(v, "%d", &limit) }`, for any parameter.
unfoldable pub int_param : Web → String → ℤ → Request → ℤ
int_param web name default r =
    if str_eq (r.query name) "" then default else web.scan_int (r.query name) default

module _ {S : Type 0} where
  unfoldable pub principal : Web → Request → Act S Principal
  principal web r s =
      let got = get_principal web.auth s.auth r.headers in (record s { auth = got.0 }, some got.1)

  -- s.Broker.Publish.
  unfoldable pub send : Web → String → SseEvent → Act S (Unit {0})
  send web route_id evt s = elim (publish web.order_channels route_id evt s.broker) [
    | none ↦ (s, none)
    | some b ↦ (record s { broker = b }, some tt)
  ]

  unfoldable pub send_all : Web → SseEvent → List String → Act S (Unit {0})
  unfolding send
  send_all web evt [] = give tt
  send_all web evt (id ∷ ids) = send web id evt >> send_all web evt ids
