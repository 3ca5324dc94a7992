-- ===== src/Http/Handlers/Plans.antt =====
-- OptimizeHandler, OptimizerConfigHandler and AdminOptimizerConfigHandler of internal/api/handlers.go.
use usps_main.Common.{
  Bool, Option, none, some, List, [], ◌∷◌, ◌&&◌, ◌||◌, not, pos, is_pos, str_eq, if◌then◌else◌,
}
use usps_main.Common.Maps.{Map, insert}
use usps_main.Model.{Any, text, int, float, floats, weights, ints, Route, Leg, OptimizeRequest}
use usps_main.Api.Broker.{SseEvent}
use usps_main.Api.Principal.{Principal, is_admin}
use usps_main.Api.Validate.{Invalid, validate_optimize_request}
use usps_main.Http.Backend.{Backend, Try, ok, err}
use usps_main.Http.Act.{
  Request, Response, Web, Act, ◌>>=◌, ◌>>◌, give, reply, write_problem, require, call, or_problem,
  or_tenant, principal, send, planned, fields, config, empty, done,
}

-- `p.IsAdmin() || p.Role == "dispatcher"`.
abbrev pub is_planner : Principal → Bool
is_planner p = is_admin p || str_eq p.role "dispatcher"

unfoldable pub break_event : Route → Leg → SseEvent
break_event rt lg = record {
  kind = "hos.break.planned";
  payload =
      ("routeId", text rt.id)
      ∷ ("breakSec", int lg.break_sec)
      ∷ ("etaStart", text lg.eta_arrival)
      ∷ ("etaEnd", text lg.eta_departure)
      ∷ [];
}

-- The defaults of OptimizerConfigHandler; the floats are 1, 0.995, 4, 50 and 0.1.
abbrev pub default_config : Map Any
default_config =
    ("algorithm", text "alns")
    ∷ ("timeBudgetMs", int (pos 300))
    ∷ ("maxIterations", int (pos 0))
    ∷ ("initTemp", float 0x3ff0000000000000)
    ∷ ("cooling", float 0x3fefd70a3d70a3d7)
    ∷ ("removalWeights", floats (0x3ff0000000000000 ∷ 0x3ff0000000000000 ∷ []))
    ∷ ("insertionWeights", floats (0x3ff0000000000000 ∷ 0x3ff0000000000000 ∷ []))
    ∷ (
      "objectives",
      weights (
          ("driveTime", 0x3ff0000000000000)
          ∷ ("lateness", 0x4010000000000000)
          ∷ ("failed", 0x4049000000000000)
          ∷ ("distance", 0x3fb999999999999a)
          ∷ []),
    )
    ∷ ("latencyBuckets", ints (pos 100 ∷ pos 500 ∷ pos 1000 ∷ []))
    ∷ []

-- `for k, v := range cfg { defaults[k] = v }`.
unfoldable pub overlay : Map Any → Map Any → Map Any
overlay defaults [] = defaults
overlay defaults ((k, v) ∷ cfg) = overlay (insert k v defaults) cfg

-- `cfg, _ := s.Store.GetOptimizerConfig(…)`, with nil for an error.
abbrev pub config_or_nil : Try (Option (Map Any)) → Option (Map Any)
config_or_nil (ok cfg) = cfg
config_or_nil (err e) = none

abbrev pub or_empty : Option (Map Any) → Map Any
or_empty none = []
or_empty (some cfg) = cfg

module _ {S : Type 0} (api : Backend S) (web : Web) where
  unfoldable pub send_breaks : Route → List Leg → Act S (Unit {0})
  unfolding send break_event
  send_breaks rt [] = give tt
  send_breaks rt (lg ∷ legs) =
      (if str_eq (web.to_lower lg.kind) "break" && is_pos lg.break_sec
        then send web rt.id (break_event rt lg)
        else give tt)
      >> send_breaks rt legs

  unfoldable pub send_routes : List Route → Act S (Unit {0})
  unfolding send_breaks
  send_routes [] = give tt
  send_routes (rt ∷ routes) = send_breaks rt rt.legs >> send_routes routes

  unfoldable pub plan_checked : Request → OptimizeRequest → Option Invalid → Act S Response
  unfolding send_routes
  plan_checked r req (some e) = write_problem 400 "Invalid optimize request" (web.invalid_text e) r
  plan_checked r req none = do
    made ← call (api.plan_routes (record req { tenant_id = or_tenant req.tenant_id r }))
    or_problem 500 "Plan routes failed" r made
        λ out. do send_routes out.0; reply 200 (planned out.1 out.0)

  unfoldable pub optimize_handler : Request → Act S Response
  unfolding principal validate_optimize_request plan_checked
  optimize_handler r = if not (str_eq r.method "POST") then reply 405 empty else do
    p ← principal web r
    require (is_planner p) (write_problem 403 "Forbidden" "dispatcher or admin required" r) (
        or_problem 400 "Invalid JSON" r (web.decode_optimize r.body)
          λ req. plan_checked r req (validate_optimize_request web.tests web.order_objectives req))

  unfoldable pub optimizer_config_handler : Request → Act S Response
  unfolding principal overlay
  optimizer_config_handler r =
      if not (str_eq r.path "/v1/optimizer/config") || not (str_eq r.method "GET")
      then write_problem 404 "Not Found" "" r
      else do
        p ← principal web r
        got ← call (api.get_optimizer_config p.tenant)
        reply 200 (fields (overlay default_config (or_empty (config_or_nil got))))

  unfoldable pub save_given : Request → Principal → Option (Map Any) → Act S Response
  save_given r p none = write_problem 400 "Missing config" "" r
  save_given r p (some cfg) = do
    saved ← call (api.save_optimizer_config p.tenant cfg)
    or_problem 500 "Save failed" r saved λ _. reply 200 done

  unfoldable pub admin_optimizer_config_handler : Request → Act S Response
  unfolding principal save_given
  admin_optimizer_config_handler r =
      if not (str_eq r.path "/v1/admin/optimizer/config")
      then write_problem 404 "Not Found" "" r
      else do
        p ← principal web r
        require (is_admin p) (write_problem 403 "Forbidden" "admin required" r) (
            if str_eq r.method "GET"
            then (do
              got ← call (api.get_optimizer_config p.tenant)
              reply 200 (config (or_empty (config_or_nil got))))
            else if str_eq r.method "PUT"
            then or_problem 400 "Invalid JSON" r (web.decode_config r.body) (save_given r p)
            else reply 405 empty)
