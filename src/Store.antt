-- ===== src/Store.antt =====
-- internal/store: the in-memory store (`Memory` of memory.go) and what it holds.
-- A method is a function from the store and its arguments to the new store and the result; a
-- method that only reads returns its result. What a method draws from outside, the UUIDs, the clock
-- and the order in which Go ranges over a map, is an argument. The mutex makes each method one step.
pub mod Page
pub mod Orders
pub mod Routes
pub mod Advance
pub mod Hos
pub mod Subscriptions
pub mod Geofences
pub mod Deliveries
pub mod Plans
pub mod Metrics
pub mod Constant
mod Tests
use usps_main.Common.{ℕ, String, Option, List, []}
use usps_main.Common.Maps.{Map}
use usps_main.Model.{OrderOut, Route, Geofence, Subscription, Any}

-- ErrNotFound.
pub data Error : Type 0 where
  not_found : Error

pub record WebhookDelivery : Type 0 where
  pub id : String
  pub tenant_id : String
  pub subscription_id : String
  pub event_type : String
  pub url : String
  pub secret : String
  pub payload : List ℕ  -- []byte
  pub status : String
  pub attempts : ℕ

-- memDelivery: a delivery with its schedule. A time is a number of nanoseconds, 0 the zero time.
pub record MemDelivery : Type 0 where
  pub delivery : WebhookDelivery
  pub next_attempt_at : ℕ
  pub last_error : String
  pub response_code : ℕ
  pub latency_ms : ℕ
  pub delivered_at : Option ℕ

pub record Memory : Type 0 where
  pub orders : Map OrderOut
  pub by_ten : Map (List String)
  pub routes : Map Route
  pub routes_ten : Map (List String)
  pub hos : Map (Map Any)
  pub gfs : Map Geofence
  pub gfs_ten : Map (List String)
  pub subs : Map (List Subscription)
  pub deliveries : Map MemDelivery
  pub deliveries_by_tenant : Map (List String)
  pub dlq : List (Map Any)
  pub plan_mx : Map (Map (List (Map Any)))
  pub opt_cfg : Map (Map Any)

-- NewMemory.
unfoldable pub new_memory : Memory
new_memory = record {
  orders = [];
  by_ten = [];
  routes = [];
  routes_ten = [];
  hos = [];
  gfs = [];
  gfs_ten = [];
  subs = [];
  deliveries = [];
  deliveries_by_tenant = [];
  dlq = [];
  plan_mx = [];
  opt_cfg = [];
}
