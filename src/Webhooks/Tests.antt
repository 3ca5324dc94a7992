-- ===== src/Webhooks/Tests.antt =====
-- The theorems on the worker, at small values.
use usps_main.Common.{
  zero, suc, ◌<◌, ◌++◌, false, not, any, some, str_eq, str_eq_iff, ap, Bool-cases, inl, inr, ℕ, ◌*◌,
  ◌≤◌, ◌≡◌, refl, String, List, [], ◌∷◌, pos, arith,
}
use usps_main.Common.Maps.{lookup, index}
use usps_main.Model.{Subscription}
use usps_main.Store.Subscriptions.{get_subscriptions_for_event}
use usps_main.Store.{Memory, MemDelivery}
use usps_main.Store.Deliveries.{pending_delivery, fetch_due_webhook_deliveries}
use usps_main.Webhooks.{
  WorkerState, Exchange, process_once, failed, is_success, emit, next_backoff, second,
}
use usps_main.Webhooks.Attempts.{try_times, GivenUp, try_times-GivenUp}
use usps_main.Webhooks.Crash.{is_panic, process_once-is_panic}
use usps_main.Webhooks.Emission.{Queued, drawn, emit-Queued}
use usps_main.Webhooks.Backoff.{next_backoff-bounds}

abbrev delivery : MemDelivery
delivery = pending_delivery "d" "t" "s" "order.created" "http://x" "" [] 5

abbrev worker : WorkerState
worker = record {
  store = record {
    orders = [];
    by_ten = [];
    routes = [];
    routes_ten = [];
    hos = [];
    gfs = [];
    gfs_ten = [];
    subs = [];
    deliveries = ("d", delivery) ∷ [];
    deliveries_by_tenant = ("t", "d" ∷ []) ∷ [];
    dlq = [];
    plan_mx = [];
    opt_cfg = [];
  };
  sent = [];
  samples = [];
}

-- The endpoint cannot be reached.
abbrev down : ℕ → Exchange
down i = record { now = 10; later = 11; outcome = failed "refused"; latency = 1 }

abbrev no_hmac : String → List ℕ → String
no_hmac secret body = ""

try_times-GivenUp_example :
    (s : WorkerState) × (try_times (λ url. not (str_eq url "")) no_hmac 3 down 3 "d" worker
      ≡ some s)
    × GivenUp "d" 2 worker s
unfolding lookup is_success
try_times-GivenUp_example =
    try_times-GivenUp (λ url. not (str_eq url "")) no_hmac 3 down 2 worker "d" delivery (λ i. refl)
      refl refl refl refl

next_backoff-bounds_example :
    (second ≤ next_backoff (pos 7))
    × (next_backoff (pos 7) ≤ 1_024 * second)
    × (next_backoff (pos 4) ≡ 2 * next_backoff (pos 3))
next_backoff-bounds_example = next_backoff-bounds (pos 7) 3 (omega arith)

-- Ids that are different: of different lengths.
abbrev unary : ℕ → String
unary zero = ""
unary (suc n) = String.◌∷◌ "a" (unary n)

abbrev text_length : String → ℕ
text_length String.[] = 0
text_length (String.◌∷◌ c s) = suc (text_length s)

length-unary : (n : ℕ) → text_length (unary n) ≡ n
length-unary zero = refl
length-unary (suc n) = ap suc (length-unary n)

unary_ne : (j k : ℕ) → j < k → str_eq (unary k) (unary j) ≡ false
unary_ne j k lt = elim (Bool-cases (str_eq (unary k) (unary j))) [
  | inl e ↦
      let same = ap text_length ((str_eq_iff (unary k) (unary j)).0 e) in
      absurd (omega (arith, same, length-unary k, length-unary j))
  | inr e ↦ e
]

abbrev subscription : Subscription
subscription = record {
  id = "s1";
  tenant_id = "t";
  url = "http://x";
  events = "order.created" ∷ [];
  secret = "";
}

abbrev subscribed : Memory
subscribed = record worker.store { subs = ("t", subscription ∷ []) ∷ [] }

emit-Queued_example :
    let subs = get_subscriptions_for_event subscribed "t" "order.created" in
    let m = emit unary 5 subscribed "t" "order.created" [] in
    (index [] "t" m.deliveries_by_tenant
      ≡ index [] "t" subscribed.deliveries_by_tenant ++ drawn unary 0 subs)
    × Queued unary 5 "t" "order.created" [] 0 subs m.deliveries
emit-Queued_example = emit-Queued unary 5 subscribed "t" "order.created" [] unary_ne

process_once-is_panic_example :
    is_panic (process_once (λ url. false) no_hmac 3 (λ m. m) 7 down worker)
    ≡ any
        (λ it. not ((λ (url : String). false) it.url))
        (fetch_due_webhook_deliveries (λ m. m) 7 worker.store (pos 50))
process_once-is_panic_example =
    process_once-is_panic (λ url. false) no_hmac 3 (λ m. m) 7 down worker
