-- ===== src/Http/Live/Misc.antt =====
-- The other handlers answer.
use usps_main.Common.{◌≡◌, refl, Option, some, none}
use usps_main.Http.Backend.{Backend, Op}
use usps_main.Http.Act.{Request, Web}
use usps_main.Http.Live.{IsTotal, call-IsLive, IsLive, bind-IsLive, reply-IsLive}
use usps_main.Http.Live.Laws.{IsLawful}
use usps_main.Http.Live.Rules.{live}
use usps_main.Http.Handlers.Orders.{orders_handler, orders_post, orders_get}
use usps_main.Http.Handlers.Misc.{
  media_presign_handler, health_handler, ready_with, ready_handler, query_route, query_routes,
  graphql_http_handler,
}

module _ {S : Type 0} (P : S → Type 0) (api : Backend S) (web : Web) (laws : IsLawful P api) where
  pub orders_handler-IsLive : (r : Request) → IsLive P (orders_handler api web r)
  unfolding orders_handler orders_post orders_get
  orders_handler-IsLive r = search (live, laws.create_orders, laws.list_orders) depth 14

  pub media_presign_handler-IsLive : (r : Request) → IsLive P (media_presign_handler api web r)
  unfolding media_presign_handler
  media_presign_handler-IsLive r = search (live) depth 14

  pub health_handler-IsLive : (r : Request) → IsLive P (health_handler api web r)
  unfolding health_handler
  health_handler-IsLive r = search (live) depth 14

  ready_with-IsLive :
      (r : Request) (ping : Option (Op S (Unit {0})))
      → ((op : Op S (Unit {0})) → ping ≡ some op → IsTotal P op)
      → IsLive P (ready_with api web r ping)
  unfolding ready_with
  ready_with-IsLive r none total = reply-IsLive _ _
  ready_with-IsLive r (some ping) total =
      bind-IsLive _ _ (call-IsLive ping (total ping refl)) λ got. search live

  pub ready_handler-IsLive : (r : Request) → IsLive P (ready_handler api web r)
  unfolding ready_handler
  ready_handler-IsLive r = ready_with-IsLive r api.ping laws.ping

  pub graphql_http_handler-IsLive : (r : Request) → IsLive P (graphql_http_handler api web r)
  unfolding graphql_http_handler query_route query_routes
  graphql_http_handler-IsLive r = search (live, laws.get_route, laws.list_routes) depth 14
