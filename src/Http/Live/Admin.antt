-- ===== src/Http/Live/Admin.antt =====
-- The handlers for administrators answer.
use usps_main.Api.Principal.{Principal}
use usps_main.Common.{Option, some, none, String, refl, List, [], ◌∷◌}
use usps_main.Common.Maps.{Map}
use usps_main.Model.{Any}
use usps_main.Http.Backend.{Backend}
use usps_main.Http.Act.{Request, Web}
use usps_main.Http.Live.{IsLive, give-IsLive, bind-IsLive, write_problem-IsLive}
use usps_main.Http.Live.Laws.{IsLawful}
use usps_main.Http.Live.Rules.{live}
use usps_main.Http.Handlers.Plans.{admin_optimizer_config_handler, save_given}
use usps_main.Http.Handlers.Subscriptions.{subscriptions_post, subscription_by_id_handler}
use usps_main.Http.Handlers.Admin.{
  webhook_deliveries_handler, webhook_delivery_retry_handler, webhook_metrics_handler,
  route_stats_handler, plan_metrics_weights_handler, plan_metrics_handler, recorded_of,
  attach_weights, attach_to,
}
use usps_main.Http.Handlers.Dlq.{webhook_dlq_handler, dlq_get, dlq_post, dlq_delete, dlq_requeue}

module _ {S : Type 0} (P : S → Type 0) (api : Backend S) (web : Web) (laws : IsLawful P api) where
  save_given-IsLive :
      (r : Request) (p : Principal) (given : Option (Map Any))
      → IsLive P (save_given api web r p given)
  unfolding save_given
  save_given-IsLive r p none = write_problem-IsLive 400 "Missing config" "" r
  save_given-IsLive r p (some cfg) =
      bind-IsLive _ _ (search (live, laws.save_optimizer_config)) λ saved. search live

  pub admin_optimizer_config_handler-IsLive :
      (r : Request) → IsLive P (admin_optimizer_config_handler api web r)
  unfolding admin_optimizer_config_handler
  admin_optimizer_config_handler-IsLive r =
      search (live, laws.get_optimizer_config, save_given-IsLive) depth 14

  pub subscriptions_post-IsLive : (r : Request) → IsLive P (subscriptions_post api web r)
  unfolding subscriptions_post
  subscriptions_post-IsLive r = search (live, laws.create_subscription) depth 14

  pub subscription_by_id_handler-IsLive :
      (r : Request) → IsLive P (subscription_by_id_handler api web r)
  unfolding subscription_by_id_handler
  subscription_by_id_handler-IsLive r = search (live, laws.delete_subscription) depth 14

  pub webhook_deliveries_handler-IsLive :
      (r : Request) → IsLive P (webhook_deliveries_handler api web r)
  unfolding webhook_deliveries_handler
  webhook_deliveries_handler-IsLive r = search (live, laws.list_webhook_deliveries) depth 14

  pub webhook_delivery_retry_handler-IsLive :
      (r : Request) → IsLive P (webhook_delivery_retry_handler api web r)
  unfolding webhook_delivery_retry_handler
  webhook_delivery_retry_handler-IsLive r = search (live, laws.retry_webhook_delivery) depth 14

  pub webhook_metrics_handler-IsLive : (r : Request) → IsLive P (webhook_metrics_handler api web r)
  unfolding webhook_metrics_handler
  webhook_metrics_handler-IsLive r =
      search (live, laws.get_optimizer_config, laws.webhook_metrics) depth 14

  pub route_stats_handler-IsLive : (r : Request) → IsLive P (route_stats_handler api web r)
  unfolding route_stats_handler
  route_stats_handler-IsLive r = search (live, laws.route_stats) depth 14

  pub plan_metrics_weights_handler-IsLive :
      (r : Request) → IsLive P (plan_metrics_weights_handler api web r)
  unfolding plan_metrics_weights_handler
  plan_metrics_weights_handler-IsLive r = search (live, laws.list_plan_metrics_weights) depth 14

  pub webhook_dlq_handler-IsLive : (r : Request) → IsLive P (webhook_dlq_handler api web r)
  unfolding webhook_dlq_handler dlq_get dlq_post dlq_delete dlq_requeue
  webhook_dlq_handler-IsLive r =
      search
        (
          live, laws.list_webhook_dlq, laws.requeue_webhook_dlq_bulk, laws.delete_webhook_dlq_bulk,
          laws.requeue_webhook_dlq,
        )
        depth 14

  recorded_of-IsLive :
      (tenant plan_date algo : String) → IsLive P (recorded_of api web tenant plan_date algo)
  unfolding recorded_of
  recorded_of-IsLive tenant plan_date algo = record { answers = λ s p. ((_, refl), p) }

  attach_to-IsLive :
      (tenant plan_date : String) (item : Map Any)
      → IsLive P (attach_to api web tenant plan_date item)
  unfolding attach_to
  attach_to-IsLive tenant plan_date item = search (live, laws.list_plan_metrics_weights) depth 14

  attach_weights-IsLive :
      (tenant plan_date : String) (xs : List (Map Any))
      → IsLive P (attach_weights api web tenant plan_date xs)
  unfolding attach_weights
  attach_weights-IsLive tenant plan_date [] = give-IsLive []
  attach_weights-IsLive tenant plan_date (x ∷ xs) =
      bind-IsLive _ _ (attach_to-IsLive tenant plan_date x) λ one.
        bind-IsLive _ _ (attach_weights-IsLive tenant plan_date xs)
          λ later. give-IsLive (one ∷ later)

  pub plan_metrics_handler-IsLive : (r : Request) → IsLive P (plan_metrics_handler api web r)
  unfolding plan_metrics_handler
  plan_metrics_handler-IsLive r =
      search (live, laws.list_plan_metrics, recorded_of-IsLive, attach_weights-IsLive) depth 14
