-- ===== src/Lib.antt =====
-- Verification of the delivery platform's Go code (cmd/api and internal/): the in-memory store, the
-- webhook worker, the event broker, the HTTP handlers with the mux and the middlewares before them, the
-- identity and validation code of the API, and the route optimiser.
--
-- How the parts interact. A request passes the middlewares of cmd/api/main.go (log, request id, CORS, rate
-- limit) and the mux. The HTTP handlers of internal/api take a principal (auth.go), validate the
-- request, and call the store (internal/store/memory.go) and, for plans, the optimiser (internal/opt).
-- Events go out in two ways: the broker hands them to the server-sent event streams of a route, and
-- the publisher of internal/webhooks stores a delivery for each subscription, which the worker fetches
-- when it is due, posts, and marks as delivered, to be retried, or failed.
--
-- Which file models what:
--   Common      lists, maps and texts; Common/Maps is Go's map[string]V, Common/Count counts elements,
--               Common/Text is what the code uses of the package strings
--   Model       the types of internal/model/types.go
--   Store       Memory, the state of internal/store/memory.go, and NewMemory; its children are the methods:
--     Page          the cursor paging of ListOrders, ListRoutes and ListGeofences
--     Orders        CreateOrders, ListOrders
--     Routes        GetRoute, AssignRoute, PatchRoute, ListRoutes, ListActiveRoutesForDriver
--     Advance       AdvanceRoute
--     Hos           UpdateHOS
--     Subscriptions CreateSubscription, ListSubscriptions, DeleteSubscription, GetSubscriptionsForEvent
--     Geofences     CreateGeofence, ListGeofences, GetGeofence, PatchGeofence, DeleteGeofence
--     Deliveries    EnqueueWebhook, FetchDue…, Mark…, Fail…, Retry…, ListWebhookDeliveries, ListWebhookDLQ
--     Plans         the plan metrics and the optimiser's configuration
--     Metrics       WebhookMetrics
--     Constant      the methods that return a constant
--   Webhooks    Emit (internal/webhooks/publisher.go), and nextBackoff and processOnce (worker.go)
--   Api/Broker, Api/Principal, Api/Validate
--               internal/api/broker.go, auth.go with internal/auth/verifier.go, validate.go
--   Http        the HTTP side:
--     Backend       the interface Store of internal/store/store.go
--     Act           requests, responses, the server's state, writeJSON and writeProblem, withTenant
--     Publish       Emit over the interface
--     Handlers      internal/api/handlers.go and graphql_http.go, a file for each group of endpoints
--     InMemory      the in-memory store as a Backend
--     Mux           the patterns of main, and the handlers of docs.go
--     Middleware    the chain of middlewares of main, from log to rate limit
--     Session       internal/api/graphql_ws.go: the messages of a WebSocket session and its end
--     Live, Access, Reading, Pipeline, Streams, Paths, Once
--                   proofs: that the handlers answer, who may use them, what a GET changes, what the
--                   chain does, how the drivers' paths are read, and which event advances a route
--   Opt         internal/opt: Recorded (metrics_store.go), Float, Problem, Cost, Feasible
--               (evaluation of a plan), Seed (greedySeed),
--               Remove (the removal operators), Insert (greedyInsert, regretInsert), OrOpt, TwoOpt,
--               TwoOptStar, Cross (the local searches), Setup, Rebuild, Solve (the ALNS loop) and
--               Heuristics (heuristics.go)
-- Opt/X.antt models a function of the code; the files below Opt/X/, Store/X/ and Webhooks/ hold proofs.
--
-- How state is modelled. A method of the store is a function from the store and its arguments to the new
-- store and its result; the mutex makes each method one step (WebhookMetrics takes none: it is
-- modelled as a call during which no other one writes). What a method draws from outside (UUIDs, the
-- clock, the order in which Go ranges over a map, the HTTP client, the HMAC function, the key set's URL)
-- is an argument. A route that the code changes through a pointer is stored anew under its id. A slice
-- that `append` writes through is modelled with the write (Opt/TwoOptStar). A panic is `none`.
--
-- Panics of the optimiser. An index out of range makes `cost` panic, with which each of the functions ends:
-- `priced` (Opt/Cost) is `none` there, and the theorems that a function returns suppose the indices in
-- range. The worker panics on a URL that cannot be parsed, and ListSubscriptions where an index wraps.
--
-- Numbers. Go's int is an unbounded integer, but for the sum in ListSubscriptions, which wraps; a time is
-- a natural number of nanoseconds. The float64 operations and the random source of internal/opt are the
-- parameters Float64 and Rand (Opt/Float), so that the theorems hold for every rounding; a theorem that
-- needs a law of the floats names it.
--
-- Fuel. The loops of the optimiser that have no bound in the code (orOptLocalImprove, twoOptImprove) run
-- on fuel and give `none` when it is used up. For twoOptImprove enough is a number above the rank of the
-- longest plan; for orOptLocalImprove no amount is enough once a plan has two nodes. The insertion loops
-- run as often as there are nodes to insert. All other loops are structural.
--
-- The handlers are steps on the server's state, which may panic: net/http recovers a panic, so the state is
-- kept. They take the store as a record of operations and what they call of encoding/json, strings, fmt and
-- time as another. The header fields that a handler reads are fields of the request; the loop of an event
-- stream is its opening, the broker's sends to its channel, its receives, and its closing.
--
-- Not modelled: internal/store/postgres.go, whose methods issue SQL, the Redis broker, the calls of
-- gorilla/websocket, the start of the process, the Prometheus registry, the SDKs, the deployment files
-- and the web client: they are input and output, or calls of other systems. Nor is an AUTH_JWKS_URL that
-- cannot be parsed, with which fetchJWKS panics.
pub mod Api
pub mod Common
pub mod Http
pub mod Model
pub mod Opt
pub mod Store
pub mod Webhooks
