-- ===== src/Webhooks.antt =====
-- internal/webhooks: the publisher (publisher.go) and the worker (worker.go) over the in-memory store.
-- What the worker sees of the world is an argument: the clock, the HTTP client, url.Parse and the HMAC
-- function.
pub mod Attempts
pub mod Backoff
pub mod Crash
pub mod Emission
mod Tests
use usps_main.Common.{
  String, Bool, false, ℕ, suc, ◌+◌, ◌*◌, ◌^◌, Option, none, some, List, [], ◌∷◌, ◌++◌, ◌&&◌, not, ℤ,
  pos, negsuc, str_eq, leb, ltb, if◌then◌else◌,
}
use usps_main.Common.Maps.{Map}
use usps_main.Model.{Subscription}
use usps_main.Store.{Memory, WebhookDelivery}
use usps_main.Store.Subscriptions.{get_subscriptions_for_event}
use usps_main.Store.Deliveries.{
  enqueue_webhook, fetch_due_webhook_deliveries, mark_webhook_delivery, fail_webhook_delivery,
}

-- The loop of Emit; `uuid i` is the id drawn for the i-th subscription, `body` the marshalled event.
unfoldable pub emit_loop :
    (ℕ → String) → ℕ → String → String → List ℕ → ℕ → List Subscription → Memory → Memory
emit_loop uuid now tenant event_type body i [] m = m
emit_loop uuid now tenant event_type body i (s ∷ subs) m =
    emit_loop uuid now tenant event_type body (suc i) subs
      (enqueue_webhook (uuid i) now m tenant s.id event_type s.url s.secret body)

unfoldable pub emit : (ℕ → String) → ℕ → Memory → String → String → List ℕ → Memory
unfolding emit_loop
emit uuid now m tenant event_type body =
    emit_loop uuid now tenant event_type body 0 (get_subscriptions_for_event m tenant event_type) m

-- NewWorker: `env` is WEBHOOK_MAX_ATTEMPTS and `atoi` strconv.Atoi, `none` on an error.
unfoldable pub max_attempts_of : (String → Option ℤ) → String → ℕ
max_attempts_of atoi env = elim (atoi env) [
  | none ↦ 10
  | some n ↦
      if str_eq env "" then 10 else elim n [ pos k ↦ (if ltb 0 k then k else 10) | negsuc k ↦ 10 ]
]

-- A second, in nanoseconds.
abbrev pub second : ℕ
second = 1_000_000_000

-- The number of attempts, brought into 0..10.
unfoldable pub clamp_attempts : ℤ → ℕ
clamp_attempts (pos n) = if ltb 10 n then 10 else n
clamp_attempts (negsuc n) = 0

unfoldable pub next_backoff : ℤ → ℕ
unfolding clamp_attempts
next_backoff attempts =
    let base = second * 2 ^ clamp_attempts attempts in
    if ltb (3600 * second) base then 3600 * second else base

-- The POST of a delivery; a delivery without a secret carries no signature and no event type.
pub record Request : Type 0 where
  pub url : String
  pub body : List ℕ
  pub signature : Option String
  pub event_type : Option String

-- The outcome of the client's `Do`: a response's status code, or the error's text.
pub data Outcome : Type 0 where
  responded : ℕ → Outcome
  failed : String → Outcome

-- What the world does around one delivery: the clock before and behind the request, the outcome and
-- the latency.
pub record Exchange : Type 0 where
  pub now : ℕ
  pub later : ℕ
  pub outcome : Outcome
  pub latency : ℕ

-- One observation of the two Prometheus vectors: event type, status, latency.
abbrev pub Sample : Type 0
Sample = String × String × ℕ

-- The state that a pass changes: the store, the requests sent and the metrics.
pub record WorkerState : Type 0 where
  pub store : Memory
  pub sent : List Request
  pub samples : List Sample

abbrev pub code_of : Outcome → ℕ
code_of (responded code) = code
code_of (failed _) = 0

abbrev pub error_of : Outcome → String
error_of (responded _) = ""
error_of (failed text) = text

-- `code >= 200 && code < 300`.
unfoldable pub is_success : Outcome → Bool
is_success (responded code) = leb 200 code && ltb code 300
is_success (failed _) = false

-- `req, _ := http.NewRequestWithContext(…)` and the headers. `parses` is whether url.Parse takes a URL:
-- for a URL that it refuses `req` is nil, and `req.Header.Set` panics, `none`.
unfoldable pub request_of :
    (String → Bool) → (String → List ℕ → String) → WebhookDelivery → Option Request
request_of parses sign_hmac it =
    if parses it.url
    then some (record {
      url = it.url;
      body = it.payload;
      signature = if str_eq it.secret "" then none else some (sign_hmac it.secret it.payload);
      event_type = if str_eq it.secret "" then none else some it.event_type;
    })
    else none

-- The body of the loop of processOnce, behind the request. A delivery that is given up is left there
-- (`continue`).
unfoldable pub settle_item : ℕ → Exchange → WorkerState → WebhookDelivery → Request → WorkerState
unfolding is_success next_backoff
settle_item max_attempts x s it req =
    let success = is_success x.outcome in
    let code = code_of x.outcome in
    let next = x.now + next_backoff (pos it.attempts) in
    let sample : Sample = (it.event_type, if success then "delivered" else "retry", x.latency) in
    let s' : WorkerState = record s {
      sent = s.sent ++ req ∷ [];
      samples = s.samples ++ sample ∷ [];
    } in
    if not success && leb max_attempts (it.attempts + 1)
    then record s' {
      store = fail_webhook_delivery s.store it.id (error_of x.outcome) code x.latency;
      samples = s'.samples ++ (it.event_type, "failed", x.latency) ∷ [];
    }
    else record s' {
      store =
          mark_webhook_delivery x.later s.store it.id success (some next) (error_of x.outcome) code
            x.latency;
    }

-- The body of the loop of processOnce. A panic, `none`, ends the process: nothing recovers it in the
-- worker's goroutine.
unfoldable pub process_item :
    (String → Bool)
    → (String → List ℕ → String)
    → ℕ
    → Exchange
    → WorkerState
    → WebhookDelivery
    → Option WorkerState
unfolding request_of settle_item
process_item parses sign_hmac max_attempts x s it = elim (request_of parses sign_hmac it) [
  | none ↦ none
  | some req ↦ some (settle_item max_attempts x s it req)
]

-- `world i` is what happens around the i-th delivery of the pass.
unfoldable pub process_loop :
    (String → Bool)
    → (String → List ℕ → String)
    → ℕ
    → (ℕ → Exchange)
    → ℕ
    → List WebhookDelivery
    → WorkerState
    → Option WorkerState
unfolding process_item
process_loop parses sign_hmac max_attempts world i [] s = some s
process_loop parses sign_hmac max_attempts world i (it ∷ items) s =
    elim (process_item parses sign_hmac max_attempts (world i) s it) [
      | none ↦ none
      | some s' ↦ process_loop parses sign_hmac max_attempts world (suc i) items s'
    ]

-- A pass over at most 50 due deliveries.
unfoldable pub process_once :
    (String → Bool)
    → (String → List ℕ → String)
    → ℕ
    → (Map (List String) → Map (List String))
    → ℕ
    → (ℕ → Exchange)
    → WorkerState
    → Option WorkerState
unfolding process_loop
process_once parses sign_hmac max_attempts order now world s =
    process_loop parses sign_hmac max_attempts world 0
      (fetch_due_webhook_deliveries order now s.store (pos 50)) s
