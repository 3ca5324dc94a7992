-- ===== src/Http/Middleware.antt =====
-- The middlewares of cmd/api/main.go, from the outermost: log, request id, CORS, rate limit, mux.
use usps_main.Common.{
  String, ℕ, Bool, true, false, Option, none, some, List, [], ◌∷◌, ◌++◌, map, not, any, keep,
  str_eq, if◌then◌else◌, get_or,
}
use usps_main.Common.Maps.{Map, lookup, insert}
use usps_main.Common.Text.{split_on}
use usps_main.Http.Backend.{Backend}
use usps_main.Http.Act.{Request, Response, Server, Web, plain, empty}
use usps_main.Http.Mux.{Packages, serve_mux}

-- A request with the headers and the address that the middlewares read.
pub record Incoming : Type 0 where
  pub request : Request
  pub origin : String
  pub request_id : String
  pub forwarded_for : String
  pub remote_addr : String

-- A response with the headers that the middlewares set.
pub record Outgoing : Type 0 where
  pub response : Response
  pub allow_origin : Option String  -- Access-Control-Allow-Origin
  pub preflight : Bool  -- Access-Control-Allow-Methods and Access-Control-Allow-Headers
  pub request_id : String  -- X-Request-Id

pub record Entry : Type 0 where
  pub method : String
  pub client : String
  pub status : ℕ
  pub request_id : String

-- The limiter of golang.org/x/time/rate, and what net, strings and uuid give.
pub record Limits (L : Type 0) : Type 0 where
  pub fresh : L  -- rate.NewLimiter of the configured rate and burst
  pub allow : L → L × Bool  -- Allow, now
  pub split_host : String → Option String  -- net.SplitHostPort
  pub trim : String → String  -- strings.TrimSpace
  pub new_id : String  -- uuid.New

pub record Front (L S : Type 0) : Type 0 where
  pub server : Server S
  pub limiters : Map L  -- rlStore
  pub log : List Entry

abbrev pub Handler : Type 0 → Type 0 → Type 0
Handler L S = Incoming → Front L S → Front L S × Option Outgoing

unfoldable pub allowed_origin : List String → String → Option String
allowed_origin origins origin =
    if str_eq origin ""
    then none
    else if any (λ o. str_eq o "*") origins
    then some origin
    else if any (λ o. str_eq o origin) origins
    then some origin
    else none

abbrev pub bare : Response → Outgoing
bare resp = record { response = resp; allow_origin = none; preflight = false; request_id = "" }

abbrev pub preflight_answer : Option String → Outgoing
preflight_answer allowed = record {
  response = record { status = 204; body = empty };
  allow_origin = allowed;
  preflight = true;
  request_id = "";
}

abbrev pub too_many : Response
too_many = record { status = 429; body = plain "Too Many Requests" }

module _ {L : Type 0} (lim : Limits L) where
  unfoldable pub client_ip : Incoming → String
  client_ip i =
      if not (str_eq i.forwarded_for "")
      then lim.trim (get_or (split_on b',' i.forwarded_for) 0 "")
      else elim (lim.split_host i.remote_addr) [ some host ↦ host | none ↦ i.remote_addr ]

  -- ALLOW_ORIGINS, split and trimmed.
  unfoldable pub origins_of : String → List String
  unfolding split_on
  origins_of env = keep (λ o. not (str_eq o "")) (map lim.trim (split_on b',' (lim.trim env)))

  -- rlStore.limiter.
  unfoldable pub limiter : String → Map L → L
  limiter key limiters = elim (lookup key limiters) [ none ↦ lim.fresh | some l ↦ l ]

module _ {L S : Type 0} (lim : Limits L) where
  -- statusWriter has the methods of http.ResponseWriter only, so the writer behind it is no http.Flusher.
  -- A panic leaves no entry.
  unfoldable pub log_middleware : Handler L S → Handler L S
  log_middleware next i f =
      let got = next (record i { request = record i.request { flushes = false } }) f in
      elim got.1 [
        | none ↦ (got.0, none)
        | some o ↦
            let entry : Entry = record {
              method = i.request.method;
              client = client_ip lim i;
              status = o.response.status;
              request_id = o.request_id;
            } in
            (record got.0 { log = got.0.log ++ entry ∷ [] }, some o)
      ]

  unfoldable pub request_id_middleware : Handler L S → Handler L S
  request_id_middleware next i f =
      let rid = if str_eq i.request_id "" then lim.new_id else i.request_id in
      let got = next (record i { request_id = rid }) f in
      elim got.1 [ none ↦ (got.0, none) | some o ↦ (got.0, some (record o { request_id = rid })) ]

  unfoldable pub cors_middleware : String → Handler L S → Handler L S
  cors_middleware env next i f =
      let allowed = allowed_origin (origins_of lim env) i.origin in
      if str_eq i.request.method "OPTIONS"
      then (f, some (preflight_answer allowed))
      else let got = next i f in
        elim got.1 [
          | none ↦ (got.0, none)
          | some o ↦ (got.0, some (record o { allow_origin = allowed }))
        ]

  unfoldable pub rate_limit_middleware : Handler L S → Handler L S
  rate_limit_middleware next i f =
      let ip = client_ip lim i in
      let tried = lim.allow (limiter lim ip f.limiters) in
      let f' = record f { limiters = insert ip tried.0 f.limiters } in
      if tried.1 then next i f' else (f', some (bare too_many))

  module _ (api : Backend S) (web : Web) (out : Packages) where
    unfoldable pub mux_handler : Handler L S
    mux_handler i f =
        let got = serve_mux api web out i.request f.server in
        (record f { server = got.0 }, elim got.1 [ none ↦ none | some resp ↦ some (bare resp) ])

    unfoldable pub handler : String → Handler L S
    handler env =
        log_middleware
          (request_id_middleware (cors_middleware env (rate_limit_middleware mux_handler)))
