-- ===== src/Http/Pipeline.antt =====
-- What the chain of middlewares of cmd/api/main.go does around the mux.
use usps_main.Common.{
  ◌≡◌, refl, sym, ap, ◌∙◌, subst, String, true, false, List, some, arith, if◌then◌else◌, any,
  str_eq, ◌⊎◌, inl, inr, Option-cases, Bool-cases,
}
use usps_main.Common.Maps.{lookup, insert, lookup-insert}
use usps_main.Http.Backend.{Backend}
use usps_main.Http.Act.{Request, Server, Web}
use usps_main.Http.Mux.{Packages}
use usps_main.Http.Middleware.{
  Incoming, Outgoing, Entry, Limits, Front, Handler, client_ip, log_middleware,
  request_id_middleware, origins_of, allowed_origin, cors_middleware, limiter,
  rate_limit_middleware, mux_handler, handler, preflight_answer, too_many, bare,
}

-- A handler that answers wherever the request and the server have a property, and leaves the log alone.
abbrev pub IsQuiet : {L S : Type 0} → (Request → Server S → Type 0) → Handler L S → Type 0
IsQuiet {L} {S} Q next =
    (i : Incoming) (f : Front L S)
    → Q i.request f.server
    → ((o : Outgoing) × ((next i f).1 ≡ some o)) × ((next i f).0.log ≡ f.log)

-- The entry that the log has of a request and its answer.
abbrev pub entry_of : {L : Type 0} → Limits L → Incoming → Outgoing → Entry
entry_of lim i o = record {
  method = i.request.method;
  client = client_ip lim i;
  status = o.response.status;
  request_id = o.request_id;
}

-- `*` or the origin itself stands in ALLOW_ORIGINS.
abbrev pub IsAllowed : List String → String → Type 0
IsAllowed origins x =
    (any (λ o. str_eq o "*") origins ≡ true) ⊎ (any (λ o. str_eq o x) origins ≡ true)

allowed_origin-IsAllowed :
    (origins : List String) (origin x : String)
    → allowed_origin origins origin ≡ some x
    → (origin ≡ x) × IsAllowed origins x
unfolding allowed_origin
allowed_origin-IsAllowed origins origin x e = elim (Bool-cases (any (λ o. str_eq o "*") origins)) [
  | inl star ↦ (ground (arith, e, star), inl star)
  | inr plain ↦ elim (Bool-cases (any (λ o. str_eq o origin) origins)) [
    | inl named ↦
        let same : origin ≡ x = ground (arith, e, plain, named) in
        (same, inr (subst (λ y. any (λ o. str_eq o y) origins ≡ true) same named))
    | inr unnamed ↦ absurd (ground (arith, e, plain, unnamed))
  ]
]

module _ {L S : Type 0} (lim : Limits L) where
  log-allow_origin :
      (next : Handler L S) (i : Incoming) (f : Front L S) (o : Outgoing)
      → (log_middleware lim next i f).1 ≡ some o
      → (next (record i { request = record i.request { flushes = false } }) f).1 ≡ some o
  unfolding log_middleware
  log-allow_origin next i f o e = ground (arith, e)

  request_id-allow_origin :
      (next : Handler L S) (i : Incoming) (f : Front L S) (o : Outgoing)
      → (request_id_middleware lim next i f).1 ≡ some o
      → (i' : Incoming) × (o' : Outgoing) × ((next i' f).1 ≡ some o')
        × (i'.origin ≡ i.origin)
        × (o'.allow_origin ≡ o.allow_origin)
  unfolding request_id_middleware
  request_id-allow_origin next i f o e =
      let i' : Incoming = record i {
        request_id = if str_eq i.request_id "" then lim.new_id else i.request_id;
      } in
      elim (Option-cases (next i' f).1) [
        | inl none_e ↦ absurd (ground (arith, e, none_e))
        | inr (o', some_e) ↦ (i', o', some_e, refl, ground (arith, e, some_e))
      ]

  cors-allow_origin :
      (env : String) (next : Handler L S) (i : Incoming) (f : Front L S) (o : Outgoing)
      → (cors_middleware lim env next i f).1 ≡ some o
      → o.allow_origin ≡ allowed_origin (origins_of lim env) i.origin
  unfolding cors_middleware
  cors-allow_origin env next i f o e = ground (arith, e)

  -- Where an answer of the whole chain carries Access-Control-Allow-Origin, the header names the
  -- request's own origin, and ALLOW_ORIGINS lists that origin or `*`.
  pub handler-IsAllowed :
      (api : Backend S) (web : Web) (out : Packages) (env : String) (i : Incoming) (f : Front L S)
      (o : Outgoing) (x : String)
      → (handler lim api web out env i f).1 ≡ some o
      → o.allow_origin ≡ some x
      → (i.origin ≡ x) × IsAllowed (origins_of lim env) x
  unfolding handler
  handler-IsAllowed api web out env i f o x e allowed =
      let (i', o', e', same, kept) = request_id-allow_origin _ _ f o (log-allow_origin _ i f o e) in
      let from_cors = cors-allow_origin env _ i' f o' e' in
      allowed_origin-IsAllowed (origins_of lim env) i.origin x (
        subst (λ y. allowed_origin (origins_of lim env) y ≡ some x) same
          (sym from_cors ∙ kept ∙ allowed))

  -- The two outer middlewares around an answer.
  pub outer_run :
      (next : Handler L S) (i : Incoming) (f f' : Front L S) (o : Outgoing)
      → ((j : Incoming)
          → j.request ≡ record i.request { flushes = false }
          → client_ip lim j ≡ client_ip lim i
          → j.origin ≡ i.origin
          → next j f ≡ (f', some o))
      → (o' : Outgoing) × ((log_middleware lim (request_id_middleware lim next) i f).1 ≡ some o')
        × (o'.response ≡ o.response)
        × ((log_middleware lim (request_id_middleware lim next) i f).0.server ≡ f'.server)
        × ((log_middleware lim (request_id_middleware lim next) i f).0.limiters ≡ f'.limiters)
  unfolding log_middleware request_id_middleware client_ip
  outer_run next i f f' o run =
      let rid = if str_eq i.request_id "" then lim.new_id else i.request_id in
      let e =
        run (record i { request = record i.request { flushes = false }; request_id = rid }) refl
          refl refl in
      (record o { request_id = rid }, ground (arith, e), refl, ground (arith, e), ground (arith, e))

  -- An OPTIONS request is answered by 204 before any limiter is asked and before the mux: the server and
  -- the limiters are as they were.
  pub handler-preflight :
      (api : Backend S) (web : Web) (out : Packages) (env : String) (i : Incoming) (f : Front L S)
      → str_eq i.request.method "OPTIONS" ≡ true
      → (o : Outgoing) × ((handler lim api web out env i f).1 ≡ some o)
        × (o.response.status ≡ 204)
        × ((handler lim api web out env i f).0.server ≡ f.server)
        × ((handler lim api web out env i f).0.limiters ≡ f.limiters)
  unfolding handler cors_middleware
  handler-preflight api web out env i f m =
      let (o, e, same, server, limiters) =
        outer_run
          (cors_middleware lim env (rate_limit_middleware lim (mux_handler lim api web out))) i f f
          (preflight_answer (allowed_origin (origins_of lim env) i.origin))
          (λ j k c og. ground (arith, m, ap (λ r. r.method) k, og)) in
      (o, e, ap (λ r. r.status) same, server, limiters)

  -- A request, no OPTIONS, that its client's limiter refuses is answered by 429: the server is as it was,
  -- and so is the limiter of any other client.
  pub handler-limited :
      (api : Backend S) (web : Web) (out : Packages) (env : String) (i : Incoming) (f : Front L S)
      (key : String)
      → str_eq i.request.method "OPTIONS" ≡ false
      → (lim.allow (limiter lim (client_ip lim i) f.limiters)).1 ≡ false
      → str_eq (client_ip lim i) key ≡ false
      → (o : Outgoing) × ((handler lim api web out env i f).1 ≡ some o)
        × (o.response.status ≡ 429)
        × ((handler lim api web out env i f).0.server ≡ f.server)
        × (lookup key (handler lim api web out env i f).0.limiters ≡ lookup key f.limiters)
  unfolding handler cors_middleware rate_limit_middleware
  handler-limited api web out env i f key m refused other =
      let ip = client_ip lim i in
      let tried = lim.allow (limiter lim ip f.limiters) in
      let f' : Front L S = record f { limiters = insert ip tried.0 f.limiters } in
      let answer = record (bare too_many) {
        allow_origin = allowed_origin (origins_of lim env) i.origin;
      } in
      let (o, e, same, server, limiters) =
        outer_run
          (cors_middleware lim env (rate_limit_middleware lim (mux_handler lim api web out))) i f f'
          answer (λ j k c og. ground (arith, m, refused, ap (λ r. r.method) k, c, og)) in
      (
        o,
        e,
        ap (λ r. r.status) same,
        server,
        ap (lookup key) limiters
            ∙ lookup-insert ip key tried.0 f.limiters
            ∙ ap (λ b. if b then some tried.0 else lookup key f.limiters) other,
      )
