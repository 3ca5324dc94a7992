-- ===== src/Webhooks/Attempts.antt =====
-- How a delivery ends in the worker: after one try, and after as many failing tries as it has.
use usps_main.Common.{
  ℕ, zero, suc, ◌+◌, ◌≤◌, ◌<◌, ◌≡◌, refl, sym, ap, ◌∙◌, subst, String, Bool, true, false, Option,
  none, some, List, [], ◌∷◌, not, ◌&&◌, if◌then◌else◌, leb, arith, length, length-append, pos,
}
use usps_main.Common.Maps.{lookup, lookup-insert_self}
use usps_main.Store.{MemDelivery, WebhookDelivery}
use usps_main.Store.Deliveries.{
  mark_webhook_delivery, fail_webhook_delivery, marked, with_status, dlq_item,
}
use usps_main.Webhooks.{
  WorkerState, Exchange, Request, request_of, settle_item, process_item, is_success, next_backoff,
  code_of, error_of,
}

-- The delivery behind a try.
abbrev settled : ℕ → Exchange → WebhookDelivery → MemDelivery → MemDelivery
settled max_attempts x it d =
    if not (is_success x.outcome) && leb max_attempts (it.attempts + 1)
    then with_status "failed" d
    else marked x.later (is_success x.outcome) (some (x.now + next_backoff (pos it.attempts)))
        (error_of x.outcome) (code_of x.outcome) x.latency d

settle_item-settled :
    (max_attempts : ℕ) (x : Exchange) (s : WorkerState) (it : WebhookDelivery) (req : Request)
    (d : MemDelivery)
    → lookup it.id s.store.deliveries ≡ some d
    → lookup it.id (settle_item max_attempts x s it req).store.deliveries
      ≡ some (settled max_attempts x it d)
unfolding settle_item mark_webhook_delivery fail_webhook_delivery
settle_item-settled max_attempts x s it req d e =
    ground (arith, e, lookup-insert_self it.id (settled max_attempts x it d) s.store.deliveries)

settle_item-dlq :
    (max_attempts : ℕ) (x : Exchange) (s : WorkerState) (it : WebhookDelivery) (req : Request)
    → length (settle_item max_attempts x s it req).store.dlq ≡ (
        if not (is_success x.outcome) && leb max_attempts (it.attempts + 1)
        then suc (length s.store.dlq)
        else length s.store.dlq)
unfolding settle_item mark_webhook_delivery fail_webhook_delivery
settle_item-dlq max_attempts x s it req = ground (
  arith,
  length-append s.store.dlq
      (dlq_item it.id (error_of x.outcome) (code_of x.outcome) x.latency ∷ []),
)

-- A delivery whose URL can be parsed is posted and settled.
process_item_run :
    (parses : String → Bool) (sign_hmac : String → List ℕ → String) (max_attempts : ℕ)
    (x : Exchange) (s : WorkerState) (it : WebhookDelivery)
    → parses it.url ≡ true
    → (req : Request) × (process_item parses sign_hmac max_attempts x s it
        ≡ some (settle_item max_attempts x s it req))
unfolding process_item request_of
process_item_run parses sign_hmac max_attempts x s it parsed =
    rw (parsed, process_item, request_of) (_, refl)

-- A try of a delivery that the store may hold.
abbrev pub try_one :
    (String → Bool)
    → (String → List ℕ → String)
    → ℕ
    → Exchange
    → WorkerState
    → Option MemDelivery
    → Option WorkerState
try_one parses sign_hmac max_attempts x s none = some s
try_one parses sign_hmac max_attempts x s (some d) =
    process_item parses sign_hmac max_attempts x s d.delivery

-- The worker tries the delivery `id` a number of times; `world n` is what happens around a try when n
-- more are to come.
abbrev pub try_times :
    (String → Bool)
    → (String → List ℕ → String)
    → ℕ
    → (ℕ → Exchange)
    → ℕ
    → String
    → WorkerState
    → Option WorkerState
try_times parses sign_hmac max_attempts world zero id s = some s
try_times parses sign_hmac max_attempts world (suc n) id s =
    elim (try_one parses sign_hmac max_attempts (world n) s (lookup id s.store.deliveries)) [
      | none ↦ none
      | some s' ↦ try_times parses sign_hmac max_attempts world n id s'
    ]

failed_try :
    (max_attempts : ℕ) (x : Exchange) (d : MemDelivery)
    → is_success x.outcome ≡ false
    → max_attempts ≤ d.delivery.attempts + 1
    → settled max_attempts x d.delivery d ≡ with_status "failed" d
failed_try max_attempts x d f le = ground (arith, f)

retried : ℕ → Exchange → MemDelivery → MemDelivery
retried max_attempts x d =
    marked x.later false (some (x.now + next_backoff (pos d.delivery.attempts)))
      (error_of x.outcome) (code_of x.outcome) x.latency d

retried_try :
    (max_attempts : ℕ) (x : Exchange) (d : MemDelivery)
    → is_success x.outcome ≡ false
    → d.delivery.attempts + 1 < max_attempts
    → settled max_attempts x d.delivery d ≡ retried max_attempts x d
unfolding retried
retried_try max_attempts x d f le = ground (arith, f)

-- What the last failing try leaves: a failed delivery, and one more entry in the dead-letter queue.
abbrev pub GivenUp : String → ℕ → WorkerState → WorkerState → Type 0
GivenUp id attempts s s' =
    (d : MemDelivery) × (lookup id s'.store.deliveries ≡ some d)
    × (d.delivery.status ≡ "failed")
    × (d.delivery.attempts ≡ attempts)
    × (length s'.store.dlq ≡ suc (length s.store.dlq))

retried-id :
    (max_attempts : ℕ) (x : Exchange) (d : MemDelivery)
    → (retried max_attempts x d).delivery.id ≡ d.delivery.id
unfolding retried marked
retried-id max_attempts x d = refl

retried-url :
    (max_attempts : ℕ) (x : Exchange) (d : MemDelivery)
    → (retried max_attempts x d).delivery.url ≡ d.delivery.url
unfolding retried marked
retried-url max_attempts x d = refl

retried-attempts :
    (max_attempts : ℕ) (x : Exchange) (d : MemDelivery)
    → (retried max_attempts x d).delivery.attempts ≡ d.delivery.attempts + 1
unfolding retried marked
retried-attempts max_attempts x d = refl

module _ (parses : String → Bool) (sign_hmac : String → List ℕ → String) (max_attempts : ℕ) where
  -- The state behind one try of a delivery that the store holds.
  try_one-store :
      (x : Exchange) (s : WorkerState) (id : String) (d : MemDelivery)
      → parses d.delivery.url ≡ true
      → lookup id s.store.deliveries ≡ some d
      → d.delivery.id ≡ id
      → (s' : WorkerState) × (try_one parses sign_hmac max_attempts x s
            (lookup id s.store.deliveries)
          ≡ some s')
        × (lookup id s'.store.deliveries ≡ some (settled max_attempts x d.delivery d))
        × (length s'.store.dlq ≡ (
            if not (is_success x.outcome) && leb max_attempts (d.delivery.attempts + 1)
            then suc (length s.store.dlq)
            else length s.store.dlq))
  try_one-store x s id d parsed e same =
      let (req, run) = process_item_run parses sign_hmac max_attempts x s d.delivery parsed in
      let s' = settle_item max_attempts x s d.delivery req in
      (
        s',
        rw e run,
        subst (λ i. lookup i s'.store.deliveries ≡ some (settled max_attempts x d.delivery d)) same
            (settle_item-settled max_attempts x s d.delivery req d
              (subst (λ i. lookup i s.store.deliveries ≡ some d) (sym same) e)),
        settle_item-dlq max_attempts x s d.delivery req,
      )

  last_try :
      (x : Exchange) (s : WorkerState) (id : String) (d : MemDelivery)
      → is_success x.outcome ≡ false
      → parses d.delivery.url ≡ true
      → lookup id s.store.deliveries ≡ some d
      → d.delivery.id ≡ id
      → d.delivery.attempts + 1 ≡ max_attempts
      → (s' : WorkerState) × (try_one parses sign_hmac max_attempts x s
            (lookup id s.store.deliveries)
          ≡ some s')
        × GivenUp id (d.delivery.attempts + 0) s s'
  unfolding with_status
  last_try x s id d f parsed e same left =
      let (s', run, found, size) = try_one-store x s id d parsed e same in
      (
        s',
        run,
        (
          with_status "failed" d,
          found ∙ ap some (failed_try max_attempts x d f (omega arith)),
          refl,
          omega arith,
          ground (arith, size, f),
        ),
      )

  other_try :
      (x : Exchange) (s : WorkerState) (id : String) (d : MemDelivery)
      → is_success x.outcome ≡ false
      → parses d.delivery.url ≡ true
      → lookup id s.store.deliveries ≡ some d
      → d.delivery.id ≡ id
      → d.delivery.attempts + 1 < max_attempts
      → (s' : WorkerState) × (try_one parses sign_hmac max_attempts x s
            (lookup id s.store.deliveries)
          ≡ some s')
        × (lookup id s'.store.deliveries ≡ some (retried max_attempts x d))
        × (length s'.store.dlq ≡ length s.store.dlq)
  other_try x s id d f parsed e same lt =
      let (s', run, found, size) = try_one-store x s id d parsed e same in
      (s', run, found ∙ ap some (retried_try max_attempts x d f lt), ground (arith, size, f))

  -- A delivery whose URL can be parsed and whose every try fails is given up in the last try it has:
  -- with k + 1 tries left, the tries do not panic, it is "failed" after k + 1 of them, k more attempts
  -- are counted, and the dead-letter queue has one entry more.
  pub try_times-GivenUp :
      (world : ℕ → Exchange) (k : ℕ) (s : WorkerState) (id : String) (d : MemDelivery)
      → ((i : ℕ) → is_success (world i).outcome ≡ false)
      → parses d.delivery.url ≡ true
      → lookup id s.store.deliveries ≡ some d
      → d.delivery.id ≡ id
      → d.delivery.attempts + suc k ≡ max_attempts
      → (s' : WorkerState) × (try_times parses sign_hmac max_attempts world (suc k) id s ≡ some s')
        × GivenUp id (d.delivery.attempts + k) s s'
  try_times-GivenUp world zero s id d f parsed e same left =
      let (s', run, up) = last_try (world 0) s id d (f 0) parsed e same left in
      (s', rw (run, try_times) refl, up)
  try_times-GivenUp world (suc k) s id d f parsed e same left =
      let x = world (suc k) in
      let (s1, run, found, size) = other_try x s id d (f (suc k)) parsed e same (omega arith) in
      let (s', runs, (d', found', status, attempts, more)) =
        try_times-GivenUp world k s1 id (retried max_attempts x d) f
          (ap parses (retried-url max_attempts x d) ∙ parsed) found
          (retried-id max_attempts x d ∙ same) (omega (arith, retried-attempts max_attempts x d)) in
      (
        s',
        rw (run, try_times) runs,
        (
          d',
          found',
          status,
          omega (arith, attempts, retried-attempts max_attempts x d),
          omega (arith, more, size),
        ),
      )
