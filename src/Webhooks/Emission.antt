-- ===== src/Webhooks/Emission.antt =====
-- What Emit queues: one pending delivery for each subscription to the event.
use mathlib.Core.List.{append_assoc, append-nil}
use usps_main.Common.{
  ℕ, suc, ◌≤◌, ◌<◌, ◌≡◌, refl, sym, ap, ◌∙◌, String, false, some, List, [], ◌∷◌, ◌++◌, str_eq,
  str_eq_refl, arith,
}
use usps_main.Common.Maps.{lookup, index, Map, index-insert, lookup-insert, lookup-insert_self}
use usps_main.Model.{Subscription}
use usps_main.Store.{Memory, MemDelivery}
use usps_main.Store.Subscriptions.{get_subscriptions_for_event}
use usps_main.Store.Deliveries.{enqueue_webhook, pending_delivery}
use usps_main.Webhooks.{emit, emit_loop}

-- The ids drawn for a list of subscriptions, from the i-th on.
abbrev pub drawn : (ℕ → String) → ℕ → List Subscription → List String
drawn uuid i [] = []
drawn uuid i (s ∷ subs) = uuid i ∷ drawn uuid (suc i) subs

-- The map holds a pending delivery for each of the subscriptions.
abbrev pub Queued :
    (ℕ → String) → ℕ → String → String → List ℕ → ℕ → List Subscription → Map MemDelivery → Type 0
Queued uuid now tenant event_type body i [] deliveries = Unit {0}
Queued uuid now tenant event_type body i (s ∷ subs) deliveries =
    (lookup (uuid i) deliveries
      ≡ some (pending_delivery (uuid i) tenant s.id event_type s.url s.secret body now))
    × Queued uuid now tenant event_type body (suc i) subs deliveries

module _ (uuid : ℕ → String) (now : ℕ) (tenant event_type : String) (body : List ℕ) where
  enqueue_ids :
      (id : String) (m : Memory) (subscription url secret : String)
      → index [] tenant
          (enqueue_webhook id now m tenant subscription event_type url secret
            body).deliveries_by_tenant
        ≡ index [] tenant m.deliveries_by_tenant ++ id ∷ []
  unfolding enqueue_webhook
  enqueue_ids id m subscription url secret = ground (
    arith,
    str_eq_refl tenant,
    index-insert [] tenant tenant (index [] tenant m.deliveries_by_tenant ++ id ∷ [])
        m.deliveries_by_tenant,
  )

  enqueue_other :
      (id other : String) (m : Memory) (subscription url secret : String)
      → str_eq id other ≡ false
      → lookup other
          (enqueue_webhook id now m tenant subscription event_type url secret body).deliveries
        ≡ lookup other m.deliveries
  unfolding enqueue_webhook
  enqueue_other id other m subscription url secret h = ground (
    arith,
    h,
    lookup-insert id other (pending_delivery id tenant subscription event_type url secret body now)
        m.deliveries,
  )

  enqueue_self :
      (id : String) (m : Memory) (subscription url secret : String)
      → lookup id
          (enqueue_webhook id now m tenant subscription event_type url secret body).deliveries
        ≡ some (pending_delivery id tenant subscription event_type url secret body now)
  unfolding enqueue_webhook
  enqueue_self id m subscription url secret =
      lookup-insert_self id (pending_delivery id tenant subscription event_type url secret body now)
        m.deliveries

  emit_loop_ids :
      (i : ℕ) (subs : List Subscription) (m : Memory)
      → index [] tenant (emit_loop uuid now tenant event_type body i subs m).deliveries_by_tenant
        ≡ index [] tenant m.deliveries_by_tenant ++ drawn uuid i subs
  unfolding emit_loop
  emit_loop_ids i [] m = sym (append-nil (index [] tenant m.deliveries_by_tenant))
  emit_loop_ids i (s ∷ subs) m =
      emit_loop_ids (suc i) subs
        (enqueue_webhook (uuid i) now m tenant s.id event_type s.url s.secret body)
      ∙ ap (λ t. t ++ drawn uuid (suc i) subs) (enqueue_ids (uuid i) m s.id s.url s.secret)
      ∙ append_assoc (index [] tenant m.deliveries_by_tenant) (uuid i ∷ [])
          (drawn uuid (suc i) subs)

  emit_loop_other :
      (i : ℕ) (subs : List Subscription) (m : Memory) (id : String)
      → ((j : ℕ) → i ≤ j → str_eq (uuid j) id ≡ false)
      → lookup id (emit_loop uuid now tenant event_type body i subs m).deliveries
        ≡ lookup id m.deliveries
  unfolding emit_loop
  emit_loop_other i [] m id h = refl
  emit_loop_other i (s ∷ subs) m id h =
      emit_loop_other (suc i) subs
        (enqueue_webhook (uuid i) now m tenant s.id event_type s.url s.secret body) id
        (λ j le. h j (omega arith))
      ∙ enqueue_other (uuid i) id m s.id s.url s.secret (h i (omega arith))

  emit_loop-Queued :
      (i : ℕ) (subs : List Subscription) (m : Memory)
      → ((j k : ℕ) → j < k → str_eq (uuid k) (uuid j) ≡ false)
      → Queued uuid now tenant event_type body i subs
          (emit_loop uuid now tenant event_type body i subs m).deliveries
  unfolding emit_loop
  emit_loop-Queued i [] m h = tt
  emit_loop-Queued i (s ∷ subs) m h =
      let m' = enqueue_webhook (uuid i) now m tenant s.id event_type s.url s.secret body in
      (
        emit_loop_other (suc i) subs m' (uuid i) (λ j le. h i j (omega arith))
            ∙ enqueue_self (uuid i) m s.id s.url s.secret,
        emit_loop-Queued (suc i) subs m' h,
      )

-- Emit adds to the tenant's queue one id for each subscription that GetSubscriptionsForEvent gives, in
-- their order, and behind each id stands a pending delivery of the event to that subscription. The ids
-- drawn are different from one another.
pub emit-Queued :
    (uuid : ℕ → String) (now : ℕ) (m : Memory) (tenant event_type : String) (body : List ℕ)
    → ((j k : ℕ) → j < k → str_eq (uuid k) (uuid j) ≡ false)
    → let subs = get_subscriptions_for_event m tenant event_type in
      let m' = emit uuid now m tenant event_type body in
      (index [] tenant m'.deliveries_by_tenant
        ≡ index [] tenant m.deliveries_by_tenant ++ drawn uuid 0 subs)
      × Queued uuid now tenant event_type body 0 subs m'.deliveries
unfolding emit
emit-Queued uuid now m tenant event_type body h =
    let subs = get_subscriptions_for_event m tenant event_type in
    (
      emit_loop_ids uuid now tenant event_type body 0 subs m,
      emit_loop-Queued uuid now tenant event_type body 0 subs m h,
    )
