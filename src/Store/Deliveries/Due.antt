-- ===== src/Store/Deliveries/Due.antt =====
-- What FetchDueWebhookDeliveries hands to the worker.
use usps_main.Common.{
  ℕ, suc, ◌+◌, ◌≤◌, ◌≡◌, refl, String, Bool, true, false, Option, none, some, List, [], ◌∷◌, ◌&&◌,
  if◌then◌else◌, leb, is_pos, to_nat, length, All, ℤ, pos, arith,
}
use usps_main.Common.Maps.{lookup, Map}
use usps_main.Store.{Memory, MemDelivery, WebhookDelivery}
use usps_main.Store.Deliveries.{fetch_loop, fetch_due_webhook_deliveries, is_due, concat_ids}

-- The store holds the delivery, and it is due.
abbrev pub Fetchable : Map MemDelivery → ℕ → WebhookDelivery → Type 0
Fetchable deliveries now it =
    (id : String) × (d : MemDelivery) × (lookup id deliveries ≡ some d)
    × (is_due now d ≡ true)
    × (d.delivery ≡ it)

-- The body of the loop, as a function of what the map holds and of the rest.
abbrev fetched :
    ℕ
    → Bool
    → List WebhookDelivery
    → List WebhookDelivery
    → Option MemDelivery
    → List WebhookDelivery
fetched now full more skip none = skip
fetched now full more skip (some d) =
    if is_due now d then d.delivery ∷ (if full then [] else more) else skip

if-All :
    (deliveries : Map MemDelivery) (now : ℕ) (b : Bool) (xs ys : List WebhookDelivery)
    → (b ≡ true → All (Fetchable deliveries now) xs)
    → All (Fetchable deliveries now) ys
    → All (Fetchable deliveries now) (if b then xs else ys)
if-All deliveries now true xs ys p q = p refl
if-All deliveries now false xs ys p q = q

fetched-Fetchable :
    (deliveries : Map MemDelivery) (now : ℕ) (id : String) (full : Bool)
    (more skip : List WebhookDelivery) (o : Option MemDelivery)
    → lookup id deliveries ≡ o
    → All (Fetchable deliveries now) more
    → All (Fetchable deliveries now) skip
    → All (Fetchable deliveries now) (fetched now full more skip o)
fetched-Fetchable deliveries now id full more skip none e p q = q
fetched-Fetchable deliveries now id full more skip (some d) e p q =
    if-All deliveries now (is_due now d) (d.delivery ∷ (if full then [] else more)) skip
      (λ due. ((id, d, e, due, refl), if-All deliveries now full [] more (λ _. tt) p)) q

fetch_loop-Fetchable :
    (deliveries : Map MemDelivery) (now : ℕ) (limit : ℤ) (ids : List String) (taken : ℕ)
    → All (Fetchable deliveries now) (fetch_loop deliveries now limit ids taken)
unfolding fetch_loop
fetch_loop-Fetchable deliveries now limit [] taken = tt
fetch_loop-Fetchable deliveries now limit (id ∷ ids) taken =
    fetched-Fetchable deliveries now id (is_pos limit && leb (to_nat limit) (taken + 1))
      (fetch_loop deliveries now limit ids (taken + 1)) (fetch_loop deliveries now limit ids taken)
      (lookup id deliveries) refl (fetch_loop-Fetchable deliveries now limit ids (taken + 1))
      (fetch_loop-Fetchable deliveries now limit ids taken)

fetch_loop-length :
    (deliveries : Map MemDelivery) (now n : ℕ) (ids : List String) (taken : ℕ)
    → taken ≤ n
    → length (fetch_loop deliveries now (pos (suc n)) ids taken) + taken ≤ suc n
unfolding fetch_loop
fetch_loop-length deliveries now n [] taken le = omega arith
fetch_loop-length deliveries now n (id ∷ ids) taken le = ground (
  arith,
  fetch_loop-length deliveries now n ids taken,
  fetch_loop-length deliveries now n ids (taken + 1),
)

-- The worker gets only deliveries that the store holds and that are due, at most as many as it asks for,
-- whatever the order in which Go ranges over the tenants.
pub fetch_due_webhook_deliveries-Fetchable :
    (order : Map (List String) → Map (List String)) (now : ℕ) (m : Memory) (n : ℕ)
    → All (Fetchable m.deliveries now) (fetch_due_webhook_deliveries order now m (pos (suc n)))
      × (length (fetch_due_webhook_deliveries order now m (pos (suc n))) ≤ suc n)
unfolding fetch_due_webhook_deliveries
fetch_due_webhook_deliveries-Fetchable order now m n =
    let ids = concat_ids (order m.deliveries_by_tenant) in
    (
      fetch_loop-Fetchable m.deliveries now (pos (suc n)) ids 0,
      omega (arith, fetch_loop-length m.deliveries now n ids 0 (omega arith)),
    )
