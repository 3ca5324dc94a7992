-- ===== src/Http/Handlers/Dlq.antt =====
-- WebhookDLQHandler of internal/api/handlers.go.
use usps_main.Common.{String, ℕ, none, ◌&&◌, ℤ, pos, is_pos, str_eq, ◌==◌, if◌then◌else◌, length}
use usps_main.Common.Text.{has_prefix, trim_prefix, has_suffix, trim_suffix}
use usps_main.Api.Principal.{Principal}
use usps_main.Http.Backend.{Backend}
use usps_main.Http.Act.{
  Request, Response, Web, Act, ◌>>=◌, reply, write_problem, call, or_problem, int_param, principal,
  page, accepted,
}
use usps_main.Http.Handlers.Admin.{for_admin, hours_before}

abbrev pub dlq_path : String
dlq_path = "/v1/admin/webhook-dlq"

-- `if hours > 0 { older = time.Now().Add(-hours) }`.
abbrev pub older_than : ℕ → ℤ → ℕ
older_than now hours = if is_pos hours then hours_before now hours else 0

module _ {S : Type 0} (api : Backend S) (web : Web) where
  unfoldable pub dlq_get : Request → Principal → Act S Response
  unfolding int_param
  dlq_get r p = do
    listed ← call (
        api.list_webhook_dlq p.tenant (r.query "eventType")
          (older_than web.now (int_param web "olderThanHours" (pos 0) r))
          (int_param web "responseCodeMin" (pos 0) r) (int_param web "responseCodeMax" (pos 0) r)
          (r.query "errorQuery") (r.query "cursor") (int_param web "limit" (pos 100) r))
    or_problem 500 "List DLQ failed" r listed λ out. reply 200 (page out.0 out.1)

  unfoldable pub dlq_post : Request → Principal → Act S Response
  dlq_post r p = or_problem 400 "Invalid JSON" r (web.decode_ids r.body) λ req.
      if length req.0 == 0 then write_problem 400 "Missing ids" "" r else do
        queued ← call (api.requeue_webhook_dlq_bulk p.tenant req.0)
        or_problem 500 "Bulk requeue failed" r queued λ _. reply 202 (accepted (length req.0) none)

  unfoldable pub dlq_delete : Request → Principal → Act S Response
  dlq_delete r p = or_problem 400 "Invalid JSON" r (web.decode_ids r.body) λ req. do
    gone ← call (api.delete_webhook_dlq_bulk p.tenant req.0 (older_than web.now req.1))
    or_problem 500 "Bulk delete failed" r gone λ _. reply 202 (accepted 1 none)

  unfoldable pub dlq_requeue : Request → Principal → Act S Response
  unfolding trim_prefix trim_suffix
  dlq_requeue r p = do
    queued ← call (
        api.requeue_webhook_dlq p.tenant
          (trim_suffix (trim_prefix r.path "/v1/admin/webhook-dlq/") "/requeue"))
    or_problem 500 "Requeue failed" r queued λ _. reply 202 (accepted 1 none)

  unfoldable pub webhook_dlq_handler : Request → Act S Response
  unfolding principal dlq_get dlq_post dlq_delete dlq_requeue has_prefix has_suffix
  webhook_dlq_handler r = for_admin api web r λ p.
      if str_eq r.path dlq_path && str_eq r.method "GET"
      then dlq_get r p
      else if str_eq r.path dlq_path && str_eq r.method "POST"
      then dlq_post r p
      else if str_eq r.path dlq_path && str_eq r.method "DELETE"
      then dlq_delete r p
      else if has_prefix r.path "/v1/admin/webhook-dlq/"
          && has_suffix r.path "/requeue"
          && str_eq r.method "POST"
      then dlq_requeue r p
      else write_problem 404 "Not Found" "" r
