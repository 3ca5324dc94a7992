-- ===== src/Http/Handlers/Admin.antt =====
-- The handlers under /v1/admin of internal/api/handlers.go, but for those of the dead-letter queue and
-- the optimizer's configuration.
use usps_main.Common.{
  String, Bool, true, false, ℕ, suc, ◌+◌, ◌*◌, ◌-◌, Option, none, some, List, [], ◌∷◌, ◌&&◌, ◌||◌,
  not, ℤ, pos, negsuc, str_eq, ◌==◌, if◌then◌else◌,
}
use usps_main.Common.Maps.{Map, lookup}
use usps_main.Common.Text.{has_prefix, trim_prefix, has_suffix, trim_suffix}
use usps_main.Model.{Any, text, int, ints, array, float, Float64Bits}
use usps_main.Opt.Problem.{Metrics}
use usps_main.Opt.Recorded.{get_metrics}
use usps_main.Api.Principal.{Principal, is_admin}
use usps_main.Http.Backend.{Backend, Try, ok, err}
use usps_main.Http.Act.{
  Request, Response, Web, Act, ◌>>=◌, give, reply, write_problem, require, call, or_problem,
  int_param, principal, fields, items, weighed, page, accepted, empty,
}
use usps_main.Http.Handlers.Plans.{config_or_nil}

-- An hour, in nanoseconds.
abbrev pub hour : ℕ
hour = 3600 * 1_000_000_000

-- `time.Now().Add(-hours * time.Hour)`; a time before the zero time is the zero time.
abbrev pub hours_before : ℕ → ℤ → ℕ
hours_before now (pos h) = now - h * hour
hours_before now (negsuc h) = now + suc h * hour

abbrev is_zero : ℤ → Bool
is_zero (pos n) = n == 0
is_zero (negsuc n) = false

-- The shorthand codeClass, which counts only where neither bound is given.
unfoldable pub code_class : String → ℤ × ℤ → ℤ × ℤ
code_class v (lo, hi) =
    if not (is_zero lo && is_zero hi)
    then (lo, hi)
    else if str_eq v "2xx"
    then (pos 200, pos 299)
    else if str_eq v "3xx"
    then (pos 300, pos 399)
    else if str_eq v "4xx"
    then (pos 400, pos 499)
    else if str_eq v "5xx"
    then (pos 500, pos 599)
    else (lo, hi)

abbrev pub pair_of : ℕ × ℕ → Any
pair_of (a, b) = ints (pos a ∷ pos b ∷ [])

unfoldable pub metrics_item : String → Metrics Float64Bits → Map Any
metrics_item a m =
    ("algo", text a)
    ∷ ("iterations", int (pos m.iterations))
    ∷ ("improvements", int (pos m.improvements))
    ∷ ("acceptedWorse", int (pos m.accepted_worse))
    ∷ ("bestCost", float m.best_cost)
    ∷ ("finalCost", float m.final_cost)
    ∷ ("removalSelects", pair_of m.removal_selects)
    ∷ ("insertSelects", pair_of m.insert_selects)
    ∷ []

-- The items for the recorded metrics, of one algorithm or of all.
unfoldable pub recorded_items : String → Map (Metrics Float64Bits) → List (Map Any)
unfolding metrics_item
recorded_items algo [] = []
recorded_items algo ((a, m) ∷ ms) =
    let rest = recorded_items algo ms in
    if not (str_eq algo "") && not (str_eq a algo) then rest else metrics_item a m ∷ rest

-- `items, err := …`, with nil for an error.
abbrev pub items_or_nil : Try (List (Map Any)) → List (Map Any)
items_or_nil (ok xs) = xs
items_or_nil (err _) = []

abbrev pub is_nil : List (Map Any) → Bool
is_nil [] = true
is_nil (x ∷ xs) = false

module _ {S : Type 0} (api : Backend S) (web : Web) where
  abbrev pub for_admin : Request → (Principal → Act S Response) → Act S Response
  unfolding principal
  for_admin r k = do
    p ← principal web r
    require (is_admin p) (write_problem 403 "Forbidden" "admin required" r) (k p)

  unfoldable pub webhook_deliveries_handler : Request → Act S Response
  unfolding principal
  webhook_deliveries_handler r =
      if not (str_eq r.path "/v1/admin/webhook-deliveries")
      then write_problem 404 "Not Found" "" r
      else for_admin r λ p. if not (str_eq r.method "GET") then reply 405 empty else do
        listed ← call (
            api.list_webhook_deliveries p.tenant (r.query "status") (r.query "cursor")
              (int_param web "limit" (pos 100) r))
        or_problem 500 "List deliveries failed" r listed λ out. reply 200 (page out.0 out.1)

  unfoldable pub webhook_delivery_retry_handler : Request → Act S Response
  unfolding principal has_prefix has_suffix trim_prefix trim_suffix
  webhook_delivery_retry_handler r =
      if not (has_prefix r.path "/v1/admin/webhook-deliveries/") || not (has_suffix r.path "/retry")
      then write_problem 404 "Not Found" "" r
      else if not (str_eq r.method "POST")
      then reply 405 empty
      else for_admin r λ p. do
        again ← call (
            api.retry_webhook_delivery p.tenant
              (trim_suffix (trim_prefix r.path "/v1/admin/webhook-deliveries/") "/retry"))
        or_problem 500 "Retry delivery failed" r again λ _. reply 202 (accepted 1 none)

  -- The numbers among the elements of the configured list.
  unfoldable pub bucket_list : List (Option Float64Bits) → List ℤ
  bucket_list [] = []
  bucket_list (none ∷ xs) = bucket_list xs
  bucket_list (some f ∷ xs) = web.float_to_int f ∷ bucket_list xs

  unfoldable pub buckets_of : Option (Map Any) → List ℤ
  unfolding bucket_list
  buckets_of none = []
  buckets_of (some cfg) = elim (lookup "latencyBuckets" cfg) [
    | none ↦ []
    | some v ↦ elim v [ array xs ↦ bucket_list xs | _ ↦ [] ]
  ]

  abbrev pub code_bounds : Request → ℤ × ℤ
  unfolding code_class
  code_bounds r =
      code_class (r.query "codeClass")
        (int_param web "responseCodeMin" (pos 0) r, int_param web "responseCodeMax" (pos 0) r)

  unfoldable pub webhook_metrics_handler : Request → Act S Response
  unfolding principal code_class buckets_of int_param
  webhook_metrics_handler r =
      if not (str_eq r.path "/v1/admin/webhook-metrics") || not (str_eq r.method "GET")
      then write_problem 404 "Not Found" "" r
      else for_admin r λ p. do
        got ← call (api.get_optimizer_config p.tenant)
        found ← call (
            api.webhook_metrics p.tenant
              (hours_before web.now (int_param web "sinceHours" (pos 24) r)) (r.query "eventType")
              (r.query "status") (code_bounds r).0 (code_bounds r).1
              (buckets_of (config_or_nil got)))
        or_problem 500 "Metrics failed" r found λ out. reply 200 (items out)

  unfoldable pub route_stats_handler : Request → Act S Response
  unfolding principal
  route_stats_handler r =
      if not (str_eq r.path "/v1/admin/routes/stats") || not (str_eq r.method "GET")
      then write_problem 404 "Not Found" "" r
      else for_admin r λ p.
        if str_eq (r.query "planDate") "" then write_problem 400 "Missing planDate" "" r else do
          got ← call (api.route_stats p.tenant (r.query "planDate"))
          or_problem 500 "Stats failed" r got λ stats. reply 200 (fields stats)

  -- The metrics that the planner recorded in this process.
  unfoldable pub recorded_of : String → String → String → Act S (List (Map Any))
  unfolding get_metrics recorded_items
  recorded_of tenant plan_date algo s =
      (s, some (recorded_items algo (get_metrics tenant plan_date s.recorded)))

  -- `a, _ := items[i]["algo"].(string)`.
  abbrev pub algo_of : Map Any → String
  algo_of item = elim (lookup "algo" item) [ none ↦ "" | some v ↦ elim v [ text a ↦ a | _ ↦ "" ] ]

  -- `if err == nil && len(wsnaps) > 0 { items[i]["weights"] = wsnaps }`: no snapshots, no entry.
  -- The entry is paired with the item instead of written into it: the in-memory store, the only one here,
  -- whose items these maps could be, has no snapshots, so that the code writes none.
  unfoldable pub attach_to : String → String → Map Any → Act S (Map Any × List (Map Any))
  attach_to tenant plan_date item = if str_eq (algo_of item) "" then give (item, []) else do
    got ← call (api.list_plan_metrics_weights tenant plan_date (algo_of item))
    give (item, items_or_nil got)

  unfoldable pub attach_weights :
      String → String → List (Map Any) → Act S (List (Map Any × List (Map Any)))
  unfolding attach_to
  attach_weights tenant plan_date [] = give []
  attach_weights tenant plan_date (item ∷ rest) = do
    weighed_item ← attach_to tenant plan_date item
    later ← attach_weights tenant plan_date rest
    give (weighed_item ∷ later)

  unfoldable pub plan_metrics_handler : Request → Act S Response
  unfolding principal recorded_of attach_weights
  plan_metrics_handler r =
      if not (str_eq r.path "/v1/admin/plan-metrics") || not (str_eq r.method "GET")
      then write_problem 404 "Not Found" "" r
      else for_admin r λ p.
        if str_eq (r.query "planDate") "" then write_problem 400 "Missing planDate" "" r else do
          got ← call (api.list_plan_metrics p.tenant (r.query "planDate") (r.query "algo"))
          found ←
              if is_nil (items_or_nil got)
              then recorded_of p.tenant (r.query "planDate") (r.query "algo")
              else give (items_or_nil got)
          if web.equal_fold (r.query "includeWeights") "true"
                || str_eq (r.query "includeWeights") "1"
              then (do
                found_weights ← attach_weights p.tenant (r.query "planDate") found
                reply 200 (weighed found_weights))
              else reply 200 (items found)

  unfoldable pub plan_metrics_weights_handler : Request → Act S Response
  unfolding principal
  plan_metrics_weights_handler r =
      if not (str_eq r.path "/v1/admin/plan-metrics/weights") || not (str_eq r.method "GET")
      then write_problem 404 "Not Found" "" r
      else for_admin r λ p.
        if str_eq (r.query "planDate") "" || str_eq (r.query "algo") ""
        then write_problem 400 "Missing parameters" "planDate and algo required" r
        else do
          got ← call (api.list_plan_metrics_weights p.tenant (r.query "planDate") (r.query "algo"))
          or_problem 500 "Metrics weights failed" r got λ out. reply 200 (items out)
