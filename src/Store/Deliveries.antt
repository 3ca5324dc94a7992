-- ===== src/Store/Deliveries.antt =====
-- The webhook delivery queue of internal/store/memory.go.
pub mod Due
use usps_main.Common.{
  String, Bool, ℕ, ◌+◌, ◌*◌, Option, none, some, List, [], ◌∷◌, ◌++◌, ◌&&◌, ◌||◌, ℤ, pos, is_pos,
  to_nat, str_eq, leb, ◌==◌, if◌then◌else◌,
}
use usps_main.Common.Maps.{lookup, index, insert, Map}
use usps_main.Model.{Any, text, int, time}
use usps_main.Store.{Memory, MemDelivery, WebhookDelivery}

-- The delivery that EnqueueWebhook stores.
abbrev pub pending_delivery :
    String → String → String → String → String → String → List ℕ → ℕ → MemDelivery
pending_delivery id tenant subscription event_type url secret payload now = record {
  delivery = record {
    id = id;
    tenant_id = tenant;
    subscription_id = subscription;
    event_type = event_type;
    url = url;
    secret = secret;
    payload = payload;
    status = "pending";
    attempts = 0;
  };
  next_attempt_at = now;
  last_error = "";
  response_code = 0;
  latency_ms = 0;
  delivered_at = none;
}

-- `id` is the UUID drawn and `now` the clock.
unfoldable pub enqueue_webhook :
    String → ℕ → Memory → String → String → String → String → String → List ℕ → Memory
enqueue_webhook id now m tenant subscription event_type url secret payload = record m {
  deliveries =
      insert id (pending_delivery id tenant subscription event_type url secret payload now)
        m.deliveries;
  deliveries_by_tenant =
      insert tenant (index [] tenant m.deliveries_by_tenant ++ id ∷ []) m.deliveries_by_tenant;
}

-- Pending or to be retried, and not scheduled for later.
unfoldable pub is_due : ℕ → MemDelivery → Bool
is_due now d =
    (str_eq d.delivery.status "pending" || str_eq d.delivery.status "retry")
    && leb d.next_attempt_at now

-- iterDeliveryIDs, over the entries in the order in which Go ranges over the map.
unfoldable pub concat_ids : Map (List String) → List String
concat_ids [] = []
concat_ids ((_, ids) ∷ rest) = ids ++ concat_ids rest

-- The loop of FetchDueWebhookDeliveries; `taken` is `len(out)`.
unfoldable pub fetch_loop : Map MemDelivery → ℕ → ℤ → List String → ℕ → List WebhookDelivery
unfolding is_due
fetch_loop deliveries now limit [] taken = []
fetch_loop deliveries now limit (id ∷ ids) taken =
    let skip = fetch_loop deliveries now limit ids taken in
    let more = fetch_loop deliveries now limit ids (taken + 1) in
    elim (lookup id deliveries) [
      | none ↦ skip
      | some d ↦
          if is_due now d
          then d.delivery ∷ (if is_pos limit && leb (to_nat limit) (taken + 1) then [] else more)
          else skip
    ]

unfoldable pub fetch_due_webhook_deliveries :
    (Map (List String) → Map (List String)) → ℕ → Memory → ℤ → List WebhookDelivery
unfolding fetch_loop concat_ids
fetch_due_webhook_deliveries order now m limit =
    fetch_loop m.deliveries now limit (concat_ids (order m.deliveries_by_tenant)) 0

-- A minute, in nanoseconds.
abbrev pub minute : ℕ
minute = 60 * 1_000_000_000

-- The writes of MarkWebhookDelivery to the delivery.
unfoldable pub marked : ℕ → Bool → Option ℕ → String → ℕ → ℕ → MemDelivery → MemDelivery
marked now success next_attempt last_error code latency d =
    let tried = record d {
      delivery = record d.delivery {
        attempts = d.delivery.attempts + 1;
        status = if success then "delivered" else "retry";
      };
      response_code = code;
      latency_ms = latency;
    } in
    if success then record tried { delivered_at = some now } else record tried {
      last_error = last_error;
      next_attempt_at = elim next_attempt [ none ↦ now + minute | some at ↦ at ];
    }

unfoldable pub mark_webhook_delivery :
    ℕ → Memory → String → Bool → Option ℕ → String → ℕ → ℕ → Memory
unfolding marked
mark_webhook_delivery now m id success next_attempt last_error code latency =
    elim (lookup id m.deliveries) [
      | none ↦ m
      | some d ↦ record m {
        deliveries =
            insert id (marked now success next_attempt last_error code latency d) m.deliveries;
      }
    ]

unfoldable pub with_status : String → MemDelivery → MemDelivery
with_status status d = record d { delivery = record d.delivery { status = status } }

-- The entry that FailWebhookDelivery adds to the dead-letter queue.
abbrev pub dlq_item : String → String → ℕ → ℕ → Map Any
dlq_item id last_error code latency =
    ("id", text id)
    ∷ ("lastError", text last_error)
    ∷ ("responseCode", int (pos code))
    ∷ ("latencyMs", int (pos latency))
    ∷ []

unfoldable pub fail_webhook_delivery : Memory → String → String → ℕ → ℕ → Memory
unfolding with_status
fail_webhook_delivery m id last_error code latency =
    let m' = record m { dlq = m.dlq ++ dlq_item id last_error code latency ∷ [] } in
    elim (lookup id m.deliveries) [
      | none ↦ m'
      | some d ↦ record m' { deliveries = insert id (with_status "failed" d) m.deliveries }
    ]

-- A delivery of another tenant is left alone.
unfoldable pub retry_webhook_delivery : ℕ → Memory → String → String → Memory
unfolding with_status
retry_webhook_delivery now m tenant id = elim (lookup id m.deliveries) [
  | none ↦ m
  | some d ↦
      if str_eq d.delivery.tenant_id tenant
      then record m {
        deliveries =
            insert id (record (with_status "pending" d) { next_attempt_at = now }) m.deliveries;
      }
      else m
]

-- The item of a delivery in ListWebhookDeliveries: the two last entries are optional.
unfoldable pub delivery_item : MemDelivery → Map Any
delivery_item d =
    ("id", text d.delivery.id)
    ∷ ("eventType", text d.delivery.event_type)
    ∷ ("status", text d.delivery.status)
    ∷ ("attempts", int (pos d.delivery.attempts))
    ∷ ("url", text d.delivery.url)
    ∷ ((if d.next_attempt_at == 0 then [] else ("nextAttemptAt", time d.next_attempt_at) ∷ [])
        ++ (if str_eq d.last_error "" then [] else ("lastError", text d.last_error) ∷ []))

unfoldable pub list_loop : Map MemDelivery → String → List String → List (Map Any)
unfolding delivery_item
list_loop deliveries status [] = []
list_loop deliveries status (id ∷ ids) =
    let rest = list_loop deliveries status ids in
    elim (lookup id deliveries) [
      | none ↦ rest
      | some d ↦
          if str_eq status "" || str_eq d.delivery.status status
          then delivery_item d ∷ rest
          else rest
    ]

-- The cursor and the limit are not read.
unfoldable pub list_webhook_deliveries :
    Memory → String → String → String → ℤ → List (Map Any) × String
unfolding list_loop
list_webhook_deliveries m tenant status cursor limit =
    (list_loop m.deliveries status (index [] tenant m.deliveries_by_tenant), "")

-- The filters, the cursor and the limit are not read.
unfoldable pub list_webhook_dlq : Memory → List (Map Any) × String
list_webhook_dlq m = (m.dlq, "")
