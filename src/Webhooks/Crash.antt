-- ===== src/Webhooks/Crash.antt =====
-- When a pass of the worker (processOnce of internal/webhooks/worker.go) panics, and the process ends.
use usps_main.Common.{
  ℕ, suc, String, Bool, true, false, Option, none, some, List, [], ◌∷◌, not, any, ◌≡◌, refl,
  Bool-cases, inl, inr, pos,
}
use usps_main.Common.Maps.{Map}
use usps_main.Store.{WebhookDelivery}
use usps_main.Store.Deliveries.{fetch_due_webhook_deliveries}
use usps_main.Webhooks.{WorkerState, Exchange, request_of, process_item, process_loop, process_once}

abbrev pub is_panic : Option WorkerState → Bool
is_panic none = true
is_panic (some _) = false

process_loop-is_panic :
    (parses : String → Bool) (sign_hmac : String → List ℕ → String) (max_attempts : ℕ)
    (world : ℕ → Exchange) (i : ℕ) (items : List WebhookDelivery) (s : WorkerState)
    → is_panic (process_loop parses sign_hmac max_attempts world i items s)
      ≡ any (λ it. not (parses it.url)) items
unfolding process_loop process_item request_of
process_loop-is_panic parses sign_hmac max_attempts world i [] s = refl
process_loop-is_panic parses sign_hmac max_attempts world i (it ∷ items) s =
    elim (Bool-cases (parses it.url)) [
      | inl e ↦
          rw (e, process_loop)
            (process_loop-is_panic parses sign_hmac max_attempts world (suc i) items _)
      | inr e ↦ rw (e, process_loop) refl
    ]

-- A pass panics, which ends the process, exactly where one of the due deliveries that it fetches has a
-- URL that url.Parse refuses, whatever the endpoints answer and however many tries are left.
pub process_once-is_panic :
    (parses : String → Bool) (sign_hmac : String → List ℕ → String) (max_attempts : ℕ)
    (order : Map (List String) → Map (List String)) (now : ℕ) (world : ℕ → Exchange)
    (s : WorkerState)
    → is_panic (process_once parses sign_hmac max_attempts order now world s)
      ≡ any (λ it. not (parses it.url)) (fetch_due_webhook_deliveries order now s.store (pos 50))
unfolding process_once
process_once-is_panic parses sign_hmac max_attempts order now world s =
    process_loop-is_panic parses sign_hmac max_attempts world 0
      (fetch_due_webhook_deliveries order now s.store (pos 50)) s
