-- ===== src/Http/Handlers/Orders.antt =====
-- OrdersHandler of internal/api/handlers.go.
use usps_main.Common.{pos, str_eq, if◌then◌else◌}
use usps_main.Http.Backend.{Backend}
use usps_main.Http.Act.{
  Request, Response, Web, Act, ◌>>=◌, reply, call, or_problem, tenant_of, or_tenant, int_param,
  imported, empty, orders,
}

module _ {S : Type 0} (api : Backend S) (web : Web) where
  unfoldable pub orders_post : Request → Act S Response
  orders_post r = or_problem 400 "Invalid JSON" r (web.decode_orders r.body) λ req. do
    made ← call (api.create_orders (or_tenant req.0 r) req.1)
    or_problem 500 "Create orders failed" r made λ out. reply 202 (imported out.0 out.1 out.2)

  unfoldable pub orders_get : Request → Act S Response
  orders_get r = do
    listed ← call (
        api.list_orders (tenant_of r) (r.query "status") (r.query "cursor")
          (int_param web "limit" (pos 100) r))
    or_problem 500 "List orders failed" r listed λ out. reply 200 (orders out.0 out.1)

  unfoldable pub orders_handler : Request → Act S Response
  unfolding orders_post orders_get
  orders_handler r =
      if str_eq r.method "POST"
      then orders_post r
      else if str_eq r.method "GET"
      then orders_get r
      else reply 405 empty
