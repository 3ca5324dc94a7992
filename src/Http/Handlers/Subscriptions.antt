-- ===== src/Http/Handlers/Subscriptions.antt =====
-- SubscriptionsHandler and SubscriptionByIDHandler of internal/api/handlers.go.
use usps_main.Common.{not, pos, str_eq, if◌then◌else◌}
use usps_main.Common.Text.{has_prefix, trim_prefix}
use usps_main.Api.Principal.{is_admin}
use usps_main.Http.Backend.{Backend}
use usps_main.Http.Act.{
  Request, Response, Web, Act, ◌>>=◌, reply, write_problem, require, call, or_problem, int_param,
  principal, subscription, subscriptions, empty,
}

module _ {S : Type 0} (api : Backend S) (web : Web) where
  unfoldable pub subscriptions_post : Request → Act S Response
  unfolding principal
  subscriptions_post r = do
    p ← principal web r
    require (is_admin p) (write_problem 403 "Forbidden" "admin required" r) (
        or_problem 400 "Invalid JSON" r (web.decode_subscription r.body) λ req. do
          made ← call (api.create_subscription req)
          or_problem 500 "Create subscription failed" r made λ sub. reply 201 (subscription sub))

  unfoldable pub subscriptions_get : Request → Act S Response
  unfolding principal
  subscriptions_get r = do
    p ← principal web r
    require (is_admin p) (write_problem 403 "Forbidden" "admin required" r) do
      listed ←
          call
            (api.list_subscriptions p.tenant (r.query "cursor") (int_param web "limit" (pos 100) r))
      or_problem 500 "List subscriptions failed" r listed
          λ out. reply 200 (subscriptions out.0 out.1)

  unfoldable pub subscriptions_handler : Request → Act S Response
  unfolding subscriptions_post subscriptions_get
  subscriptions_handler r =
      if str_eq r.method "POST"
      then subscriptions_post r
      else if str_eq r.method "GET"
      then subscriptions_get r
      else reply 405 empty

  unfoldable pub subscription_by_id_handler : Request → Act S Response
  unfolding principal has_prefix trim_prefix
  subscription_by_id_handler r =
      if not (has_prefix r.path "/v1/subscriptions/")
      then write_problem 404 "Not Found" "" r
      else if not (str_eq r.method "DELETE")
      then reply 405 empty
      else (do
        p ← principal web r
        require (is_admin p) (write_problem 403 "Forbidden" "admin required" r) do
          gone ← call (api.delete_subscription p.tenant (trim_prefix r.path "/v1/subscriptions/"))
          or_problem 500 "Delete subscription failed" r gone λ _. reply 204 empty)
