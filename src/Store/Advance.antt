-- ===== src/Store/Advance.antt =====
-- AdvanceRoute of internal/store/memory.go: the policy checks and the step to the next leg.
pub mod Steps
pub mod Progress
use usps_main.Common.{
  String, Bool, true, false, ℕ, suc, ◌+◌, Option, none, some, List, [], ◌&&◌, not, str_eq,
  if◌then◌else◌, find_index, get_elem?, set,
}
use usps_main.Common.Maps.{lookup, insert}
use usps_main.Model.{Route, Leg, AutoAdvancePolicy, AdvanceRequest, AdvanceResult, AdvanceResponse}
use usps_main.Store.{Memory, not_found}
use usps_main.Store.Routes.{Result, ok, err}

-- `arrive` and `pod` are short for the names of two triggers.
unfoldable pub canonical_reason : String → String
canonical_reason reason =
    let arrived = if str_eq reason "arrive" then "geofence_arrive" else reason in
    if str_eq arrived "pod" then "pod_ack" else arrived

-- Whether one of the policy's three checks returns early.
unfoldable pub policy_blocks : AutoAdvancePolicy → String → Bool
unfolding canonical_reason
policy_blocks pol given =
    let reason = canonical_reason given in
    if not pol.enabled
    then true
    else if pol.require_pod && not (str_eq reason "pod_ack")
    then true
    else not (str_eq pol.trigger "") && not (str_eq reason "") && not (str_eq pol.trigger reason)

-- `!req.Force && r.AutoAdvance != nil` and the checks below it.
unfoldable pub is_blocked : Option AutoAdvancePolicy → AdvanceRequest → Bool
unfolding policy_blocks
is_blocked none req = false
is_blocked (some pol) req = if req.force then false else policy_blocks pol req.reason

abbrev pub unchanged : String → String → AdvanceResult
unchanged route_id ts = record {
  route_id = route_id;
  from_leg_id = "";
  from_stop_id = "";
  to_leg_id = "";
  to_stop_id = "";
  ts = ts;
  changed = false;
}

abbrev pub is_visited : Leg → Bool
is_visited l = str_eq l.status "visited"

-- The first leg that is not visited.
unfoldable pub current_leg : List Leg → Option ℕ
current_leg legs = find_index (λ l. not (is_visited l)) legs

-- The writes to `r.Legs` at the current leg and behind it, and what they set in `res`.
unfoldable pub move_legs : ℕ → AdvanceResult → List Leg → List Leg × AdvanceResult
move_legs idx res legs = elim (get_elem? legs idx) [
  | none ↦ (legs, res)
  | some cur ↦
      let visited = set legs idx (record cur { status = "visited" }) in
      let from = record res {
        from_leg_id = cur.id;
        from_stop_id = cur.to_stop_id;
        changed = true;
      } in
      elim (get_elem? legs (suc idx)) [
        | none ↦ (visited, from)
        | some nxt ↦ (
          set visited (suc idx) (record nxt { status = "in_progress" }),
          record from { to_leg_id = nxt.id; to_stop_id = nxt.to_stop_id },
        )
      ]
]

-- The route and the result behind the policy checks.
unfoldable pub advanced : Route → String → String → Route × AdvanceResult
unfolding current_leg move_legs
advanced r route_id ts = elim (current_leg r.legs) [
  | none ↦ (r, unchanged route_id ts)
  | some idx ↦
      let moved = move_legs idx (unchanged route_id ts) r.legs in
      (record r { legs = moved.0; version = r.version + 1 }, moved.1)
]

abbrev pub respond : AdvanceResult → Route → AdvanceResponse
respond res r = record { result = res; route = r; alerts = [] }

-- `ts` is the clock, formatted. The route is stored only where a leg was found.
unfoldable pub advance_route :
    Memory → String → String → AdvanceRequest → String → Memory × Result AdvanceResponse
unfolding is_blocked advanced
advance_route m tenant route_id req ts = elim (lookup route_id m.routes) [
  | none ↦ (m, err not_found)
  | some r ↦
      let moved = advanced r route_id ts in
      if is_blocked r.auto_advance req
      then (m, ok (respond (unchanged route_id ts) r))
      else if moved.1.changed
      then (record m { routes = insert route_id moved.0 m.routes }, ok (respond moved.1 moved.0))
      else (m, ok (respond moved.1 moved.0))
]
