-- ===== src/Http/Access.antt =====
-- Who may use which handler of internal/api/handlers.go.
use usps_main.Common.{
  ◌≡◌, refl, sym, ap, ◌∙◌, subst, String, Bool, true, false, ℕ, List, [], ◌∷◌, some, All,
  if◌then◌else◌, ◌&&◌, leb, ltb,
}
use usps_main.Api.Principal.{Principal, get_principal, is_admin}
use usps_main.Http.Backend.{Backend, Try, ok, err}
use usps_main.Http.Act.{
  Request, Response, Body, Server, Web, Act, ◌>>=◌, give, reply, write_problem, require, or_problem,
  principal,
}
use usps_main.Http.Live.{bind_run}
use usps_main.Http.Handlers.Plans.{is_planner, optimize_handler, admin_optimizer_config_handler}
use usps_main.Http.Handlers.Routes.{assign_by_id}
use usps_main.Http.Handlers.Subscriptions.{
  subscriptions_handler, subscriptions_post, subscriptions_get, subscription_by_id_handler,
}
use usps_main.Http.Handlers.Geofences.{geofences_handler, geofence_by_id_handler, geofence_by_id}
use usps_main.Http.Handlers.Admin.{
  webhook_deliveries_handler, webhook_delivery_retry_handler, webhook_metrics_handler,
  route_stats_handler, plan_metrics_handler, plan_metrics_weights_handler,
}
use usps_main.Http.Handlers.Dlq.{webhook_dlq_handler}

-- A client error, with the store, the streams and the recorded metrics as they were. The key set of the
-- token verifier may have been fetched.
pub record IsRefused {S : Type 0} (s : Server S) (m : Act S Response) : Type 0 where
  pub answer : Response
  pub answers : (m s).1 ≡ some answer
  pub is_client_error : (leb 400 answer.status && ltb answer.status 500) ≡ true
  pub same_store : (m s).0.store ≡ s.store
  pub same_broker : (m s).0.broker ≡ s.broker
  pub same_recorded : (m s).0.recorded ≡ s.recorded

module _ {S : Type 0} where
  reply-IsRefused :
      (s : Server S) (code : ℕ) (body : Body)
      → (leb 400 code && ltb code 500) ≡ true
      → IsRefused s (reply code body)
  unfolding reply give
  reply-IsRefused s code body e = record {
    answer = record { status = code; body = body };
    answers = refl;
    is_client_error = e;
    same_store = refl;
    same_broker = refl;
    same_recorded = refl;
  }

  problem-IsRefused :
      (s : Server S) (code : ℕ) (title detail : String) (r : Request)
      → (leb 400 code && ltb code 500) ≡ true
      → IsRefused s (write_problem code title detail r)
  unfolding write_problem
  problem-IsRefused s code title detail r e =
      reply-IsRefused s code (Body.problem title detail r.path) e

  if-IsRefused :
      (s : Server S) (c : Bool) (m k : Act S Response)
      → IsRefused s m
      → IsRefused s k
      → IsRefused s (if c then m else k)
  if-IsRefused s true m k l l' = l
  if-IsRefused s false m k l l' = l'

  or_problem-IsRefused :
      {A : Type 0} (s : Server S) (code : ℕ) (title : String) (r : Request) (got : Try A)
      (k : A → Act S Response)
      → (leb 400 code && ltb code 500) ≡ true
      → ((a : A) → IsRefused s (k a))
      → IsRefused s (or_problem code title r got k)
  unfolding or_problem
  or_problem-IsRefused s code title r (ok a) k e l = l a
  or_problem-IsRefused s code title r (err t) k e l = problem-IsRefused s code title t r e

  principal-IsRefused :
      (web : Web) (s : Server S) (r : Request) (k : Principal → Act S Response)
      → IsRefused (principal web r s).0 (k (get_principal web.auth s.auth r.headers).1)
      → IsRefused s (principal web r >>= k)
  unfolding principal
  principal-IsRefused web s r k l =
      let e = bind_run (principal web r) k s (get_principal web.auth s.auth r.headers).1 refl in
      record {
        answer = l.answer;
        answers = ap (λ o. o.1) e ∙ l.answers;
        is_client_error = l.is_client_error;
        same_store = ap (λ o. o.0.store) e ∙ l.same_store;
        same_broker = ap (λ o. o.0.broker) e ∙ l.same_broker;
        same_recorded = ap (λ o. o.0.recorded) e ∙ l.same_recorded;
      }

  require-IsRefused :
      (s : Server S) (c : Bool) (m k : Act S Response)
      → c ≡ false
      → IsRefused s m
      → IsRefused s (require c m k)
  unfolding require
  require-IsRefused s c m k e l = subst (λ b. IsRefused s (require b m k)) (sym e) l

ruleset refusals = (
  reply-IsRefused, problem-IsRefused, if-IsRefused, or_problem-IsRefused, principal-IsRefused,
  require-IsRefused, refl,
)

module _ {S : Type 0} (api : Backend S) (web : Web) where
  -- The handlers whose every operation is an administrator's.
  abbrev pub admin_handlers : List (Request → Act S Response)
  admin_handlers =
      admin_optimizer_config_handler api web
      ∷ subscriptions_handler api web
      ∷ subscription_by_id_handler api web
      ∷ webhook_deliveries_handler api web
      ∷ webhook_delivery_retry_handler api web
      ∷ webhook_metrics_handler api web
      ∷ route_stats_handler api web
      ∷ plan_metrics_handler api web
      ∷ plan_metrics_weights_handler api web
      ∷ webhook_dlq_handler api web
      ∷ []

  -- A caller who is no administrator is refused by each of the administrators' handlers with a client
  -- error, whatever the request, and nothing is changed in the store, the streams and the recorded
  -- metrics.
  pub admin_handlers-IsRefused :
      (s : Server S) (r : Request)
      → is_admin (get_principal web.auth s.auth r.headers).1 ≡ false
      → All (λ h. IsRefused s (h r)) admin_handlers
  unfolding admin_optimizer_config_handler subscriptions_handler subscriptions_post
      subscriptions_get subscription_by_id_handler webhook_deliveries_handler
      webhook_delivery_retry_handler webhook_metrics_handler route_stats_handler
      plan_metrics_handler plan_metrics_weights_handler webhook_dlq_handler
  admin_handlers-IsRefused s r e = (
    search refusals depth 12,
    (
      search refusals depth 12,
      (
        search refusals depth 12,
        (
          search refusals depth 12,
          (
            search refusals depth 12,
            (
              search refusals depth 12,
              (
                search refusals depth 12,
                (
                  search refusals depth 12,
                  (search refusals depth 12, (search refusals depth 12, tt)),
                ),
              ),
            ),
          ),
        ),
      ),
    ),
  )

  -- The handlers of administrators and dispatchers, on a route that a path names.
  abbrev pub planner_handlers : String → List (Request → Act S Response)
  planner_handlers id =
      optimize_handler api web
      ∷ (λ r. assign_by_id api web r id)
      ∷ geofences_handler api web
      ∷ geofence_by_id_handler api web
      ∷ []

  -- A caller who is neither administrator nor dispatcher is refused by the planner, by the assignment of
  -- any route and by both geofence handlers with a client error, whatever the request, and nothing is
  -- changed in the store, the streams and the recorded metrics.
  pub planner_handlers-IsRefused :
      (s : Server S) (r : Request) (id : String)
      → is_planner (get_principal web.auth s.auth r.headers).1 ≡ false
      → All (λ h. IsRefused s (h r)) (planner_handlers id)
  unfolding optimize_handler assign_by_id geofences_handler geofence_by_id_handler geofence_by_id
  planner_handlers-IsRefused s r id e = (
    search refusals depth 12,
    (search refusals depth 12, (search refusals depth 12, (search refusals depth 12, tt))),
  )
