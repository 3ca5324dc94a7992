-- ===== src/Store/Subscriptions.antt =====
-- CreateSubscription, GetSubscriptionsForEvent, ListSubscriptions and DeleteSubscription of
-- internal/store/memory.go.
use usps_main.Common.{
  String, Bool, ℕ, suc, ◌+◌, ◌-◌, none, some, List, [], ◌∷◌, ◌++◌, not, ℤ, str_eq, ltb, leb, Option,
  if◌then◌else◌, keep, any, take, drop, length, find_index, get_elem?,
}
use usps_main.Common.Maps.{index, insert}
use usps_main.Model.{Subscription, SubscriptionRequest}
use usps_main.Store.{Memory}
use usps_main.Store.Page.{limit_or_100}

abbrev pub subscription_of : String → SubscriptionRequest → Subscription
subscription_of id req = record {
  id = id;
  tenant_id = req.tenant_id;
  url = req.url;
  events = req.events;
  secret = req.secret;
}

unfoldable pub create_subscription : Memory → String → SubscriptionRequest → Memory × Subscription
create_subscription m id req =
    let s = subscription_of id req in
    (record m { subs = insert req.tenant_id (index [] req.tenant_id m.subs ++ s ∷ []) m.subs }, s)

-- The inner loop stops at the first event that fits, so a subscription is taken once.
abbrev pub wants : String → Subscription → Bool
wants event_type s = any (λ e. str_eq e event_type) s.events

unfoldable pub get_subscriptions_for_event : Memory → String → String → List Subscription
get_subscriptions_for_event m tenant event_type = keep (wants event_type) (index [] tenant m.subs)

-- The index behind the cursor's subscription.
unfoldable pub start_at : String → List Subscription → ℕ
start_at cursor list =
    if str_eq cursor ""
    then 0
    else elim (find_index (λ s. str_eq s.id cursor) list) [ none ↦ 0 | some i ↦ suc i ]

-- `list[i].ID`.
abbrev id_at : List Subscription → ℕ → String
id_at list i = elim (get_elem? list i) [ none ↦ "" | some s ↦ s.id ]

-- 2 ^ 63, the first number that an int does not hold.
abbrev pub int_bound : ℕ
int_bound = 9_223_372_036_854_775_808

-- `end := start + limit` is a sum of two ints that are not negative: from 2 ^ 63 on it wraps to a negative
-- number, which is not above `len(list)`, and `list[start:end]` panics, `none`.
unfoldable pub page_of : List Subscription → String → ℤ → Option (List Subscription × String)
unfolding start_at limit_or_100
page_of list cursor limit =
    let start = start_at cursor list in
    let wanted = start + limit_or_100 limit in
    let end = if ltb (length list) wanted then length list else wanted in
    if leb int_bound wanted
    then none
    else some (
      take (end - start) (drop start list),
      if ltb end (length list) then id_at list (end - 1) else "",
    )

unfoldable pub list_subscriptions :
    Memory → String → String → ℤ → Option (List Subscription × String)
unfolding page_of
list_subscriptions m tenant cursor limit = page_of (index [] tenant m.subs) cursor limit

unfoldable pub delete_subscription : Memory → String → String → Memory
delete_subscription m tenant id = record m {
  subs = insert tenant (keep (λ s. not (str_eq s.id id)) (index [] tenant m.subs)) m.subs;
}
