-- ===== src/Http/Streams.antt =====
-- The event streams of internal/api/handlers.go behind the log middleware of cmd/api/main.go.
use usps_main.Common.{
  ◌≡◌, refl, sym, ap, ◌∙◌, subst, String, true, false, List, ◌∷◌, Option, some, none, arith, ◌||◌,
  str_eq, str_eq_iff, map, if◌then◌else◌,
}
use usps_main.Common.Text.{trim_prefix, split_slash}
use usps_main.Api.Principal.{get_principal}
use usps_main.Http.Backend.{Backend}
use usps_main.Http.Act.{
  Request, Response, Body, Server, Web, Act, ◌>>=◌, give, reply, write_problem, principal,
}
use usps_main.Http.Handlers.Plans.{is_planner}
use usps_main.Http.Handlers.Routes.{route_by_id_handler, route_parts, stream_route, flush_or_refuse}
use usps_main.Common.Maps.{index, lookup, insert}
use usps_main.Http.Pipeline.{outer_run}
use usps_main.Http.Mux.{Packages, endpoints, serve_mux, not_registered}
use usps_main.Http.Middleware.{
  Incoming, Outgoing, Limits, Front, client_ip, cors_middleware, limiter, rate_limit_middleware,
  mux_handler, handler, bare, allowed_origin, origins_of,
}

not_options :
    (q r : Request)
    → q.method ≡ r.method
    → str_eq r.method "GET" ≡ true
    → str_eq q.method "OPTIONS" ≡ false
not_options q r e m =
    subst (λ t. str_eq t "OPTIONS" ≡ false) (sym (e ∙ (str_eq_iff r.method "GET").0 m)) refl

module _ {S : Type 0} (api : Backend S) (web : Web) where
  -- The server with the key set that the verification of the request's token leaves.
  abbrev with_keys : Server S → Request → Server S
  with_keys s r = record s { auth = (get_principal web.auth s.auth r.headers).0 }

  abbrev unsupported : Request → Response
  unsupported r = record { status = 500; body = Body.problem "Streaming unsupported" "" r.path }

  flush_or_refuse-unsupported :
      (r : Request) (id : String) (s : Server S)
      → r.flushes ≡ false
      → flush_or_refuse api web r id s ≡ (s, some (unsupported r))
  unfolding flush_or_refuse write_problem reply give
  flush_or_refuse-unsupported r id s e = ground (arith, e)

  stream_route-unsupported :
      (r : Request) (id : String) (s : Server S)
      → r.flushes ≡ false
      → str_eq r.method "GET" ≡ true
      → is_planner (get_principal web.auth s.auth r.headers).1 ≡ true
      → stream_route api web r id s ≡ (with_keys s r, some (unsupported r))
  unfolding stream_route ◌>>=◌ principal
  stream_route-unsupported r id s e m p =
      ground (arith, m, p, flush_or_refuse-unsupported r id (with_keys s r) e)

  route_parts-stream :
      (r : Request) (id : String) (more : List String)
      → route_parts api web r (id ∷ "events" ∷ "stream" ∷ more) ≡ stream_route api web r id
  unfolding route_parts
  route_parts-stream r id more = ground arith

  route_by_id-unsupported :
      (r : Request) (id : String) (more : List String) (s : Server S)
      → r.flushes ≡ false
      → str_eq r.method "GET" ≡ true
      → is_planner (get_principal web.auth s.auth r.headers).1 ≡ true
      → (str_eq (trim_prefix r.path "/v1/routes/") r.path
          || str_eq (trim_prefix r.path "/v1/routes/") "")
        ≡ false
      → split_slash (trim_prefix r.path "/v1/routes/") ≡ id ∷ "events" ∷ "stream" ∷ more
      → route_by_id_handler api web r s ≡ (with_keys s r, some (unsupported r))
  unfolding route_by_id_handler
  route_by_id-unsupported r id more s e m p named parts =
      let run : route_by_id_handler api web r ≡ stream_route api web r id =
        ap
          (λ b.
            if b
            then write_problem 404 "Not Found" "missing id" r
            else route_parts api web r (split_slash (trim_prefix r.path "/v1/routes/")))
          named
        ∙ ap (route_parts api web r) parts
        ∙ route_parts-stream r id more in
      ap (λ h. h s) run ∙ stream_route-unsupported r id s e m p

  abbrev routed : Packages → Request → Option String → Act S Response
  routed out r o = elim o [
    | none ↦ not_registered api web out r
    | some pattern ↦ index (not_registered api web out) pattern (endpoints api web out) r
  ]

  serve_mux-routes :
      (out : Packages) (r : Request) (s : Server S)
      → out.pick (map (λ e. e.0) (endpoints api web out)) r.path ≡ some "/v1/routes/"
      → serve_mux api web out r s ≡ route_by_id_handler api web r s
  unfolding serve_mux index lookup
  serve_mux-routes out r s e = ap (λ o. (routed out r o) s) e

  -- The two inner middlewares, for a request that is let pass.
  inner_run :
      {L : Type 0} (lim : Limits L) (out : Packages) (env : String) (j : Incoming) (f : Front L S)
      (ip : String) (s : Server S) (resp : Response)
      → str_eq j.request.method "OPTIONS" ≡ false
      → client_ip lim j ≡ ip
      → (lim.allow (limiter lim ip f.limiters)).1 ≡ true
      → serve_mux api web out j.request f.server ≡ (s, some resp)
      → cors_middleware lim env (rate_limit_middleware lim (mux_handler lim api web out)) j f ≡ (
        record f {
          server = s;
          limiters = insert ip (lim.allow (limiter lim ip f.limiters)).0 f.limiters;
        },
        some (record (bare resp) { allow_origin = allowed_origin (origins_of lim env) j.origin }),
      )
  unfolding cors_middleware rate_limit_middleware mux_handler
  inner_run lim out env j f ip s resp m c allowed served = ground (arith, m, c, allowed, served)

  -- A GET of a route's event stream by an administrator or a dispatcher, which the limiter lets pass and
  -- for which the mux chooses the routes' pattern, is answered by 500 through the middlewares, and no
  -- channel is made.
  pub handler-unsupported :
      {L : Type 0} (lim : Limits L) (out : Packages) (env : String) (i : Incoming) (f : Front L S)
      (id : String) (more : List String)
      → str_eq i.request.method "GET" ≡ true
      → is_planner (get_principal web.auth f.server.auth i.request.headers).1 ≡ true
      → (str_eq (trim_prefix i.request.path "/v1/routes/") i.request.path
          || str_eq (trim_prefix i.request.path "/v1/routes/") "")
        ≡ false
      → split_slash (trim_prefix i.request.path "/v1/routes/") ≡ id ∷ "events" ∷ "stream" ∷ more
      → (lim.allow (limiter lim (client_ip lim i) f.limiters)).1 ≡ true
      → out.pick (map (λ e. e.0) (endpoints api web out)) i.request.path ≡ some "/v1/routes/"
      → (o : Outgoing) × ((handler lim api web out env i f).1 ≡ some o)
        × (o.response ≡ unsupported i.request)
        × ((handler lim api web out env i f).0.server.broker ≡ f.server.broker)
  unfolding handler
  handler-unsupported lim out env i f id more m p named parts allowed picked =
      let r = record i.request { flushes = false } in
      let limiters =
        insert (client_ip lim i) (lim.allow (limiter lim (client_ip lim i) f.limiters)).0
          f.limiters in
      let served =
        serve_mux-routes out r f.server picked
        ∙ route_by_id-unsupported r id more f.server refl m p named parts in
      let (o, e, same, kept, _) =
        outer_run lim _ i f (record f { server = with_keys f.server r; limiters = limiters })
          (record (bare (unsupported r)) {
            allow_origin = allowed_origin (origins_of lim env) i.origin;
          })
          (λ j k c og.
            let inner =
              inner_run lim out env j f (client_ip lim i) (with_keys f.server r) (unsupported r)
                (not_options j.request r (ap (λ q. q.method) k) m) c allowed
                (ap (λ q. serve_mux api web out q f.server) k ∙ served) in
            inner
            ∙ ap
                (λ origin. (
                  record f { server = with_keys f.server r; limiters = limiters },
                  some (record (bare (unsupported r)) {
                    allow_origin = allowed_origin (origins_of lim env) origin;
                  }),
                ))
                og) in
      (o, e, same, ap (λ t. t.broker) kept)
