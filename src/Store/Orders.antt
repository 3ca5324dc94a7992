-- ===== src/Store/Orders.antt =====
-- CreateOrders and ListOrders of internal/store/memory.go.
pub mod Listing
use usps_main.Common.{String, Bool, ℕ, ◌+◌, List, [], ◌∷◌, ◌++◌, ◌||◌, ℤ, pos, str_eq}
use usps_main.Common.Maps.{index, insert}
use usps_main.Model.{OrderIn, OrderOut}
use usps_main.Store.{Memory}
use usps_main.Store.Page.{page}

-- The zero value that a map of orders gives for a missing id.
abbrev pub zero_order : OrderOut
zero_order = record { id = ""; tenant_id = ""; external_ref = ""; priority = pos 0; status = "" }

abbrev pub order_of : String → String → OrderIn → OrderOut
order_of tenant id o = record {
  id = id;
  tenant_id = tenant;
  external_ref = o.external_ref;
  priority = o.priority;
  status = "pending";
}

-- The body of the loop of CreateOrders; `id` is the UUID that it draws.
unfoldable pub create_order : String → Memory → String → OrderIn → Memory
create_order tenant m id o = record m {
  orders = insert id (order_of tenant id o) m.orders;
  by_ten = insert tenant (index [] tenant m.by_ten ++ id ∷ []) m.by_ten;
}

unfoldable pub create_loop : String → List (String × OrderIn) → Memory → ℕ → Memory × ℕ
unfolding create_order
create_loop tenant [] m created = (m, created)
create_loop tenant ((id, o) ∷ rest) m created =
    create_loop tenant rest (create_order tenant m id o) (created + 1)

-- Each order comes with the UUID that the loop draws for it. Returns the import's id, the number
-- of orders created and the number skipped.
unfoldable pub create_orders : Memory → String → List (String × OrderIn) → Memory × String × ℕ × ℕ
unfolding create_loop
create_orders m tenant orders =
    let (m', created) = create_loop tenant orders m 0 in (m', "imp_mem", created, 0)

-- `status == "" || o.Status == status`.
abbrev pub status_matches : String → String → Bool
status_matches status s = str_eq status "" || str_eq s status

unfoldable pub list_orders : Memory → String → String → String → ℤ → List OrderOut × String
list_orders m tenant status cursor limit =
    page (λ id. index zero_order id m.orders) (λ o. status_matches status o.status)
      (index [] tenant m.by_ten) cursor limit
