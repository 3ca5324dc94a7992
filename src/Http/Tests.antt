-- ===== src/Http/Tests.antt =====
-- The theorems on the HTTP side, at small values.
use usps_main.Common.{
  ℕ, ◌≡◌, refl, true, false, some, none, List, [], ◌∷◌, All, String, str_eq, ◌==◌, any, arith, pos,
  ◌-◌, ltb,
}
use usps_main.Common.Maps.{lookup, index}
use usps_main.Common.Text.{trim_prefix, split_on}
use usps_main.Store.{new_memory}
use usps_main.Store.Page.{limit_or_100}
use usps_main.Api.Broker.{new_broker}
use usps_main.Api.Broker.Safety.{IsRange}
use usps_main.Api.Principal.{Packages, Verifier, Headers, get_principal, from_headers}
use usps_main.Http.Backend.{ok, err}
use usps_main.Http.Act.{Request, Response, Server, Web, Body, empty, int_param}
use usps_main.Http.InMemory.{World, in_memory}
use usps_main.Http.Mux.{serve_mux}
use usps_main.Http.Mux
use usps_main.Http.Middleware.{
  Incoming, Outgoing, Limits, Front, handler, log_middleware, request_id_middleware,
  cors_middleware, allowed_origin, origins_of, limiter, client_ip,
}
use usps_main.Http.Live.Served.{start, IsShort, serve_mux-answers}
use usps_main.Http.Access.{
  IsRefused, admin_handlers, admin_handlers-IsRefused, planner_handlers, planner_handlers-IsRefused,
}
use usps_main.Http.Pipeline.{IsAllowed, handler-IsAllowed, handler-preflight, handler-limited}
use usps_main.Http.Handlers.Events.{drivers_handler, drive_action, hos_update_of, hos_fields}
use usps_main.Http.Paths.{lacks, drivers_handler-drive_action}
use usps_main.Model.{text}
use usps_main.Api.Broker.Sets.{Holds}
use usps_main.Http.Handlers.Misc.{variable}
use usps_main.Http.Session.{session, subscribe_to}
use usps_main.Http.Session.Leak.{session-Holds}
use usps_main.Http.Reading.Get.{other_handlers, other_handlers-memory}
use usps_main.Store.Plans.{planned_route}
use usps_main.Model.{DriverEvent}
use usps_main.Http.Handlers.Events.{auto_advance}
use usps_main.Http.Once.{first_change, auto_advance-first_change}
use usps_main.Http.Streams.{handler-unsupported}

-- Packages that know no token.
abbrev packages : Packages
packages = record {
  split = λ s sep. [];
  to_lower = λ s. s;
  equal_fold = λ s t. str_eq s t;
  b64url_decode = λ s. none;
  unmarshal = λ b. none;
  bytes = λ s. [];
  trim_space = λ s. s;
  hmac_equal = λ secret input sig. false;
  rsa_verify = λ key input sig. false;
  parses = λ url. true;
  fetch = λ url. none;
  now = 0;
}

abbrev web : Web
web = record {
  auth = packages;
  tests = record {
    is_zero = λ f. f == 0;
    at_most_zero = λ f. f == 0;
    below_zero = λ f. false;
    at_least_one = λ f. true;
    to_lower = λ s. s;
  };
  to_lower = λ s. s;
  equal_fold = λ s t. str_eq s t;
  scan_int = λ s n. n;
  float_to_int = λ f. pos f;
  now = 10;
  format = λ t. "2024-01-01T00:00:00Z";
  parse_time = λ s. 0;
  order_channels = λ chs. chs;
  order_objectives = λ m. m;
  marshal_event = λ tenant kind m. [];
  invalid_text = λ e. "invalid";
  decode_orders = λ b. err "EOF";
  decode_optimize = λ b. err "EOF";
  decode_config = λ b. ok none;
  decode_assignment = λ b. ok (record { driver_id = "d1"; vehicle_id = "v1"; start_at = "" });
  decode_advance = λ b. record { reason = ""; force = false };
  decode_events = λ b. ok ("", []);
  decode_pod = λ b. err "EOF";
  decode_subscription = λ b. err "EOF";
  decode_fields = λ b. ok [];
  decode_geofence = λ b. err "EOF";
  decode_presign = λ b. err "EOF";
  decode_ids = λ b. err "EOF";
  decode_query = λ b. ok ("routes", []);
}

abbrev out : Mux.Packages
out = record {
  pick = λ patterns path. some "/v1/routes/";
  open_api = err "no such file";
  metrics_page = λ r. record { status = 200; body = empty };
}

abbrev verifier : Verifier
verifier = record {
  mode = "dev";
  hmac_secret = [];
  jwks_url = "";
  tenant_claim = "tenant";
  role_claim = "role";
  driver_claim = "sub";
  jwks = [];
  last_fetch = 0;
  cache_ttl = 600;
}

abbrev world : World
world = record {
  memory = new_memory;
  uuid = λ n. "u";
  drawn = 0;
  now = 10;
  format = λ t. "2024-01-01T00:00:00Z";
  order_ids = λ m. m;
  order_rows = λ m. m;
  order_routes = λ m. m;
  row_fields = λ row. [];
}

abbrev server : Server World
server = record { store = world; broker = new_broker; auth = verifier; recorded = [] }

abbrev headers_of : String → Headers
headers_of role = record { authorization = ""; tenant = "t1"; role = role; driver_id = "d1" }

abbrev request_of : String → String → String → Request
request_of role method path = record {
  method = method;
  path = path;
  headers = headers_of role;
  query = λ k. "";
  body = [];
  flushes = true;
}

-- A limiter that counts what is left.
abbrev limits : Limits ℕ
limits = record {
  fresh = 1;
  allow = λ n. (n - 1, ltb 0 n);
  split_host = λ s. none;
  trim = λ s. s;
  new_id = "rid";
}

abbrev front : Front ℕ World
front = record { server = server; limiters = ("10.0.0.1", 0) ∷ []; log = [] }

abbrev incoming : String → String → String → Incoming
incoming method path addr = record {
  request = request_of "dispatcher" method path;
  origin = "https://a.example";
  request_id = "";
  forwarded_for = "";
  remote_addr = addr;
}

named_in :
    (xs all : List ℕ)
    → ((ch : ℕ) → any (λ c. c == ch) xs ≡ true → any (λ c. c == ch) all ≡ true)
    → All (λ ch. any (λ c. c == ch) all ≡ true) xs
named_in [] all h = tt
named_in (x ∷ xs) all h = (h x (ground arith), named_in xs all (λ ch k. h ch (ground (arith, k))))

in_order-IsRange : IsRange web.order_channels
in_order-IsRange chs = named_in chs chs (λ ch h. h)

no_subscriptions-IsShort :
    (role : String) → IsShort web (request_of role "GET" "/v1/routes/r1") server
unfolding new_memory index lookup int_param limit_or_100
no_subscriptions-IsShort role tenant = omega arith

serve_mux-answers_example :
    (resp : Response) × ((serve_mux in_memory web out
        (request_of "admin" "GET" "/v1/routes/r1")
        server).1
      ≡ some resp)
serve_mux-answers_example =
    serve_mux-answers web out server (request_of "admin" "GET" "/v1/routes/r1") in_order-IsRange
      (start server refl refl refl) (no_subscriptions-IsShort "admin")

admin_handlers-IsRefused_example :
    All
      (λ h. IsRefused server (h (request_of "driver" "GET" "/v1/admin/webhook-dlq")))
      (admin_handlers in_memory web)
unfolding get_principal from_headers
admin_handlers-IsRefused_example =
    admin_handlers-IsRefused in_memory web server
      (request_of "driver" "GET" "/v1/admin/webhook-dlq") refl

planner_handlers-IsRefused_example :
    All
      (λ h. IsRefused server (h (request_of "driver" "POST" "/v1/optimize")))
      (planner_handlers in_memory web "r1")
unfolding get_principal from_headers
planner_handlers-IsRefused_example =
    planner_handlers-IsRefused in_memory web server (request_of "driver" "POST" "/v1/optimize") "r1"
      refl

abbrev preflighted : Outgoing
preflighted = record {
  response = record { status = 204; body = empty };
  allow_origin = some "https://a.example";
  preflight = true;
  request_id = "rid";
}

handler-IsAllowed_example :
    ((incoming "OPTIONS" "/v1/orders" "10.0.0.2").origin ≡ "https://a.example")
    × IsAllowed (origins_of limits "https://a.example") "https://a.example"
unfolding handler log_middleware request_id_middleware cors_middleware allowed_origin origins_of
    split_on
handler-IsAllowed_example =
    handler-IsAllowed limits in_memory web out "https://a.example"
      (incoming "OPTIONS" "/v1/orders" "10.0.0.2") front preflighted "https://a.example" refl refl

handler-preflight_example :
    let i = incoming "OPTIONS" "/v1/orders" "10.0.0.1" in
    (o : Outgoing) × ((handler limits in_memory web out "" i front).1 ≡ some o)
    × (o.response.status ≡ 204)
    × ((handler limits in_memory web out "" i front).0.server ≡ server)
    × ((handler limits in_memory web out "" i front).0.limiters ≡ ("10.0.0.1", 0) ∷ [])
handler-preflight_example =
    handler-preflight limits in_memory web out "" (incoming "OPTIONS" "/v1/orders" "10.0.0.1") front
      refl

handler-limited_example :
    let i = incoming "GET" "/v1/orders" "10.0.0.1" in
    (o : Outgoing) × ((handler limits in_memory web out "" i front).1 ≡ some o)
    × (o.response.status ≡ 429)
    × ((handler limits in_memory web out "" i front).0.server ≡ server)
    × (lookup "10.0.0.2" (handler limits in_memory web out "" i front).0.limiters
        ≡ lookup "10.0.0.2" front.limiters)
unfolding limiter client_ip lookup
handler-limited_example =
    handler-limited limits in_memory web out "" (incoming "GET" "/v1/orders" "10.0.0.1") front
      "10.0.0.2" refl refl refl

handler-unsupported_example :
    let i = incoming "GET" "/v1/routes/r1/events/stream" "10.0.0.2" in
    (o : Outgoing) × ((handler limits in_memory web out "" i front).1 ≡ some o)
    × (o.response ≡ record {
      status = 500;
      body = Body.problem "Streaming unsupported" "" "/v1/routes/r1/events/stream";
    })
    × ((handler limits in_memory web out "" i front).0.server.broker ≡ new_broker)
unfolding limiter client_ip lookup trim_prefix split_on get_principal from_headers
handler-unsupported_example =
    handler-unsupported in_memory web limits out ""
      (incoming "GET" "/v1/routes/r1/events/stream" "10.0.0.2") front "r1" [] refl refl refl refl
      refl refl

drivers_handler-drive_action_example :
    let r = request_of "driver" "POST" "/v1/drivers/d1/breaks/start" in
    drivers_handler in_memory web r
    ≡ drive_action in_memory web r "d1"
        (hos_update_of in_memory web (hos_fields in_memory web r) "breaks/start")
unfolding lacks
drivers_handler-drive_action_example =
    drivers_handler-drive_action in_memory web
      (request_of "driver" "POST" "/v1/drivers/d1/breaks/start") "d1" "breaks/start" refl refl

session-Holds_example :
    let r = request_of "admin" "GET" "/graphql/ws" in
    let done =
      session in_memory web r
        (subscribe_to "1" "" (("routeId", text "r1") ∷ [])
          ∷ subscribe_to "1" "" (("routeId", text "r2") ∷ [])
          ∷ [])
        []
        server in
    (done.1 ≡ some tt) × Holds done.0.broker.subs "r1" 0
unfolding get_principal from_headers variable lookup new_broker
session-Holds_example =
    session-Holds in_memory web (request_of "admin" "GET" "/graphql/ws") "1" "" ""
      (("routeId", text "r1") ∷ []) (("routeId", text "r2") ∷ []) server refl refl

other_handlers-memory_example :
    All
      (λ h. (h (request_of "admin" "GET" "/v1/orders") server).0.store.memory ≡ new_memory)
      (other_handlers web)
other_handlers-memory_example =
    other_handlers-memory web (request_of "admin" "GET" "/v1/orders") refl server

-- A route under way, and two events of its driver.
abbrev on_road : World
on_road = record world {
  memory = record new_memory { routes = ("r1", planned_route "r1" "l1" "l2" "2024-01-01") ∷ [] };
}

abbrev event_of : String → DriverEvent
event_of kind = record {
  driver_id = "d1";
  kind = kind;
  ts = "2024-01-01T00:00:00Z";
  route_id = "r1";
  leg_id = "l1";
  stop_id = "";
  payload = [];
}

auto_advance-first_change_example :
    (auto_advance in_memory web "t1"
      (event_of "note" ∷ event_of "depart" ∷ [])
      (record server { store = on_road })).1
    ≡ some (
        first_change on_road.memory "t1" "2024-01-01T00:00:00Z"
          (event_of "note" ∷ event_of "depart" ∷ []))
auto_advance-first_change_example =
    auto_advance-first_change web "t1" (event_of "note" ∷ event_of "depart" ∷ [])
      (record server { store = on_road })
