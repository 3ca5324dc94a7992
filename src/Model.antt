-- ===== src/Model.antt =====
-- The domain types of internal/model/types.go. A pointer or a nil-able map is an `Option`.
use usps_main.Common.{ℕ, String, Bool, Option, List}
use usps_main.Common.{ℤ}
use usps_main.Common.Maps.{Map}

-- The bit pattern of a float64: these types only carry floats.
abbrev pub Float64Bits : Type 0
Float64Bits = ℕ

-- A value of Go's `any`, as far as the program stores one in a map.
pub data Any : Type 0 where
  text : String → Any
  flag : Bool → Any
  int : ℤ → Any
  float : Float64Bits → Any
  ints : List ℤ → Any
  time : ℕ → Any
  floats : List Float64Bits → Any
  weights : Map Float64Bits → Any  -- map[string]float64
  array : List (Option Float64Bits) → Any  -- []any; an element that is no number is `none`

pub record GeoPoint : Type 0 where
  pub lat : Float64Bits
  pub lng : Float64Bits

pub record TimeWindow : Type 0 where
  pub start : String
  pub end : String

pub record StopIn : Type 0 where
  pub kind : String  -- Type
  pub address : String
  pub location : Option GeoPoint
  pub time_window : Option TimeWindow
  pub service_time_sec : ℤ
  pub required_skills : List String

pub record OrderIn : Type 0 where
  pub external_ref : String
  pub priority : ℤ
  pub attributes : Map Any
  pub stops : List StopIn

pub record OrderOut : Type 0 where
  pub id : String
  pub tenant_id : String
  pub external_ref : String
  pub priority : ℤ
  pub status : String

pub record FreezeSpec : Type 0 where
  pub routes : List String
  pub up_to_leg_id : String

pub record OptimizeRequest : Type 0 where
  pub tenant_id : String
  pub plan_date : String
  pub algorithm : String
  pub time_budget_ms : ℤ
  pub max_iterations : ℤ
  pub init_temp : Float64Bits
  pub cooling : Float64Bits
  pub removal_weights : List Float64Bits
  pub insertion_weights : List Float64Bits
  pub vehicle_pool : List String
  pub depots : List String
  pub include_orders : List String
  pub constraints : Map Any
  pub objectives : Option (Map Float64Bits)
  pub reoptimize : Bool
  pub freeze : Option FreezeSpec

-- Controls the automatic progression to the next stop.
pub record AutoAdvancePolicy : Type 0 where
  pub enabled : Bool
  pub trigger : String
  pub min_dwell_sec : ℤ
  pub require_pod : Bool
  pub grace_period_sec : ℤ
  pub moving_lock : Bool
  pub hos_max_drive_sec : ℤ

pub record Leg : Type 0 where
  pub id : String
  pub seq : ℕ
  pub kind : String
  pub break_sec : ℤ
  pub from_stop_id : String
  pub to_stop_id : String
  pub dist_m : ℤ
  pub drive_sec : ℤ
  pub eta_arrival : String
  pub eta_departure : String
  pub status : String

pub record Route : Type 0 where
  pub id : String
  pub version : ℕ
  pub plan_date : String
  pub status : String
  pub driver_id : String
  pub vehicle_id : String
  pub legs : List Leg
  pub cost_breakdown : Map Float64Bits
  pub auto_advance : Option AutoAdvancePolicy
  pub breaks_count : ℤ
  pub total_break_sec : ℤ

pub record RoutePatch : Type 0 where
  pub status : String
  pub locked_until : String
  pub auto_advance : Option AutoAdvancePolicy

pub record AssignmentRequest : Type 0 where
  pub driver_id : String
  pub vehicle_id : String
  pub start_at : String

pub record DriverEvent : Type 0 where
  pub kind : String  -- Type
  pub driver_id : String
  pub route_id : String
  pub leg_id : String
  pub stop_id : String
  pub ts : String
  pub payload : Map Any

pub record PodMedia : Type 0 where
  pub upload_url : String
  pub sha256 : String

pub record PodRequest : Type 0 where
  pub tenant_id : String
  pub order_id : String
  pub stop_id : String
  pub kind : String  -- Type
  pub media : Option PodMedia
  pub metadata : Map Any

pub record PresignRequest : Type 0 where
  pub tenant_id : String
  pub file_name : String
  pub content_type : String
  pub bytes : ℤ
  pub sha256 : String

pub record SubscriptionRequest : Type 0 where
  pub tenant_id : String
  pub url : String
  pub events : List String
  pub secret : String

pub record Subscription : Type 0 where
  pub id : String
  pub tenant_id : String
  pub url : String
  pub events : List String
  pub secret : String

pub record AdvanceRequest : Type 0 where
  pub reason : String
  pub force : Bool

pub record AdvanceResult : Type 0 where
  pub route_id : String
  pub from_leg_id : String
  pub from_stop_id : String
  pub to_leg_id : String
  pub to_stop_id : String
  pub ts : String
  pub changed : Bool

pub record PolicyAlert : Type 0 where
  pub reason : String
  pub ts : String

pub record AdvanceResponse : Type 0 where
  pub result : AdvanceResult
  pub route : Route
  pub alerts : List PolicyAlert

-- A driver's hours-of-service action: shift_start, shift_end, break_start, break_end.
pub record HosUpdate : Type 0 where
  pub action : String
  pub ts : String
  pub kind : String  -- Type: rest, meal, other
  pub note : String

pub record GeofenceInput : Type 0 where
  pub name : String
  pub kind : String  -- Type
  pub radius_m : ℤ
  pub center : Option GeoPoint
  pub rules : Option (Map Any)

pub record Geofence : Type 0 where
  pub id : String
  pub tenant_id : String
  pub name : String
  pub kind : String  -- Type
  pub radius_m : ℤ
  pub center : Option GeoPoint
  pub rules : Option (Map Any)
