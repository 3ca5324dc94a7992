-- ===== src/Store/Constant.antt =====
-- The methods of internal/store/memory.go that keep nothing: they answer with a constant.
use usps_main.Common.{String, ℕ, List, [], ◌∷◌, pos, length}
use usps_main.Common.Maps.{Map}
use usps_main.Model.{Any, int, float, DriverEvent, PodRequest}
use usps_main.Store.{Memory}

unfoldable pub insert_driver_events : Memory → String → List DriverEvent → ℕ
insert_driver_events m tenant events = length events

-- `id` is the UUID drawn.
unfoldable pub create_pod : Memory → String → PodRequest → String × String
create_pod m id req = (id, "processing")

unfoldable pub find_routes_by_stop : Memory → String → String → List String
find_routes_by_stop m tenant stop = []

unfoldable pub route_stats : Memory → String → String → Map Any
route_stats m tenant plan_date =
    ("routes", int (pos 0))
    ∷ ("legs", int (pos 0))
    ∷ ("totalDistM", int (pos 0))
    ∷ ("totalDriveSec", int (pos 0))
    ∷ ("avgLegsPerRoute", float 0)
    ∷ []

unfoldable pub list_plan_metrics_weights : Memory → String → String → String → List (Map Any)
list_plan_metrics_weights m tenant plan_date algo = []

unfoldable pub save_plan_metrics_weights :
    Memory → String → String → String → List (Map Any) → Memory
save_plan_metrics_weights m tenant plan_date algo snaps = m

unfoldable pub requeue_webhook_dlq : Memory → String → String → Memory
requeue_webhook_dlq m tenant id = m

unfoldable pub requeue_webhook_dlq_bulk : Memory → String → List String → Memory
requeue_webhook_dlq_bulk m tenant ids = m

unfoldable pub delete_webhook_dlq_bulk : Memory → String → List String → ℕ → Memory
delete_webhook_dlq_bulk m tenant ids older_than = m
