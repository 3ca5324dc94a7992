-- ===== src/Store/Orders/Listing.antt =====
-- A tenant's orders, read page by page.
use usps_main.Common.{suc, ◌≡◌, String, some, List, [], ℤ, length}
use usps_main.Common.Maps.{index}
use usps_main.Store.{Memory}
use usps_main.Store.Page.Cursor.{Distinct, Named}
use usps_main.Store.Page.Walk.{follow, items, walk-items}
use usps_main.Store.Orders.{zero_order, status_matches, list_orders}

-- The ids of a tenant's orders.
abbrev pub order_ids : Memory → String → List String
order_ids m tenant = index [] tenant m.by_ten

-- Reading ListOrders from the first page on, cursor after cursor and with any limit, gives the
-- tenant's orders of the status, each once and in the order of creation, and ends: as many requests
-- as orders and one more are enough. The ids of the tenant's orders are distinct and not empty.
pub list_orders-follow :
    (m : Memory) (tenant status : String) (limit : ℤ)
    → Distinct (order_ids m tenant)
    → Named (order_ids m tenant)
    → follow (λ c. list_orders m tenant status c limit) (suc (length (order_ids m tenant))) ""
      ≡ some (
          items
            (λ id. index zero_order id m.orders)
            (λ o. status_matches status o.status)
            (order_ids m tenant))
unfolding list_orders
list_orders-follow m tenant status limit d n =
    walk-items (λ id. index zero_order id m.orders) (λ o. status_matches status o.status)
      (order_ids m tenant) limit d n
