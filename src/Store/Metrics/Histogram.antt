-- ===== src/Store/Metrics/Histogram.antt =====
-- The counts of WebhookMetrics: every delivery that passes the filter is counted once, in one bucket.
use usps_main.Common.{
  ℕ, zero, suc, ◌+◌, ◌≤◌, ◌<◌, ◌≡◌, refl, String, true, false, Option, none, some, List, [], ◌∷◌,
  if◌then◌else◌, ltb, str_eq, length, All, ℤ, arith, ap, ◌∙◌,
}
use usps_main.Common.Maps.{lookup, insert, Map}
use usps_main.Store.{MemDelivery}
use usps_main.Store.Metrics.{
  Agg, Filter, bump_at, zeros, bucket_of, fresh_agg, agg_or_fresh, add_sample, aggregate, selects,
  key_of,
}

pub sum_of : List ℕ → ℕ
sum_of [] = 0
sum_of (x ∷ xs) = x + sum_of xs

-- The number of deliveries in all rows.
pub total : Map Agg → ℕ
total [] = 0
total ((_, a) ∷ by) = a.cnt + total by

-- The number of deliveries with these ids that pass the filter.
pub selected : Filter → Map MemDelivery → List String → ℕ
selected f deliveries [] = 0
selected f deliveries (id ∷ ids) =
    let rest = selected f deliveries ids in
    elim (lookup id deliveries) [ none ↦ rest | some d ↦ if selects f d then suc rest else rest ]

-- The histogram has a bucket for each edge and one more, and adds up to the count.
abbrev pub IsTally : List ℤ → Agg → Type 0
IsTally buckets a = (sum_of a.b ≡ a.cnt) × (length a.b ≡ length buckets + 1)

bucket_of-le : (buckets : List ℤ) (latency : ℕ) → bucket_of buckets latency ≤ length buckets
unfolding bucket_of
bucket_of-le [] latency = omega arith
bucket_of-le (e ∷ es) latency = ground (arith, bucket_of-le es latency)

sum_of-bump_at : (i : ℕ) (xs : List ℕ) → i < length xs → sum_of (bump_at i xs) ≡ suc (sum_of xs)
unfolding bump_at sum_of
sum_of-bump_at i [] h = elim h [ ]
sum_of-bump_at zero (x ∷ xs) h = omega arith
sum_of-bump_at (suc i) (x ∷ xs) h = omega (arith, sum_of-bump_at i xs (omega arith))

length-bump_at : (i : ℕ) (xs : List ℕ) → length (bump_at i xs) ≡ length xs
unfolding bump_at
length-bump_at i [] = refl
length-bump_at zero (x ∷ xs) = refl
length-bump_at (suc i) (x ∷ xs) = ap suc (length-bump_at i xs)

sum_of-zeros : (n : ℕ) → sum_of (zeros n) ≡ 0
unfolding zeros sum_of
sum_of-zeros zero = refl
sum_of-zeros (suc n) = omega (arith, sum_of-zeros n)

length-zeros : (n : ℕ) → length (zeros n) ≡ n
unfolding zeros
length-zeros zero = refl
length-zeros (suc n) = ap suc (length-zeros n)

fresh_agg-IsTally : (buckets : List ℤ) → IsTally buckets (fresh_agg buckets)
unfolding fresh_agg
fresh_agg-IsTally buckets = (sum_of-zeros (length buckets + 1), length-zeros (length buckets + 1))

cnt_of : Option Agg → ℕ
cnt_of none = 0
cnt_of (some a) = a.cnt

total-insert :
    (k : String) (a : Agg) (by : Map Agg)
    → total (insert k a by) + cnt_of (lookup k by) ≡ total by + a.cnt
unfolding total insert lookup cnt_of
total-insert k a [] = omega arith
total-insert k a ((j, w) ∷ by) = ground (arith, total-insert k a by)

insert-All :
    (buckets : List ℤ) (k : String) (a : Agg) (by : Map Agg)
    → IsTally buckets a
    → All (λ e. IsTally buckets e.1) by
    → All (λ e. IsTally buckets e.1) (insert k a by)
unfolding insert
insert-All buckets k a [] p h = (p, tt)
insert-All buckets k a ((j, w) ∷ by) p (q, h) =
    elim (str_eq j k)
      as (λ b. All (λ e. IsTally buckets e.1) (if b then (k, a) ∷ by else (j, w) ∷ insert k a by)) [
        | true ↦ (p, h)
        | false ↦ (q, insert-All buckets k a by p h)
      ]

agg-IsTally :
    (buckets : List ℤ) (k : String) (by : Map Agg)
    → All (λ e. IsTally buckets e.1) by
    → IsTally buckets (agg_or_fresh buckets (lookup k by))
unfolding agg_or_fresh lookup
agg-IsTally buckets k [] h = fresh_agg-IsTally buckets
agg-IsTally buckets k ((j, w) ∷ by) (q, h) =
    elim (str_eq j k)
      as (λ b. IsTally buckets (agg_or_fresh buckets (if b then some w else lookup k by))) [
        | true ↦ q
        | false ↦ agg-IsTally buckets k by h
      ]

agg-cnt : (buckets : List ℤ) (o : Option Agg) → (agg_or_fresh buckets o).cnt ≡ cnt_of o
unfolding agg_or_fresh fresh_agg cnt_of
agg-cnt buckets none = refl
agg-cnt buckets (some a) = refl

-- A latency is counted in a row of its own, or in the one that is there.
add_sample-total :
    (buckets : List ℤ) (typ st : String) (latency : ℕ) (by : Map Agg)
    → total (add_sample buckets typ st latency by) ≡ suc (total by)
unfolding add_sample
add_sample-total buckets typ st latency by =
    let a = agg_or_fresh buckets (lookup (key_of typ st) by) in
    let a' : Agg = record {
      cnt = a.cnt + 1;
      sum = if ltb 0 latency then a.sum + latency else a.sum;
      b = bump_at (bucket_of buckets latency) a.b;
    } in
    omega (arith, total-insert (key_of typ st) a' by, agg-cnt buckets (lookup (key_of typ st) by))

add_sample-IsTally :
    (buckets : List ℤ) (typ st : String) (latency : ℕ) (by : Map Agg)
    → All (λ e. IsTally buckets e.1) by
    → All (λ e. IsTally buckets e.1) (add_sample buckets typ st latency by)
unfolding add_sample
add_sample-IsTally buckets typ st latency by h =
    let k = key_of typ st in
    let a = agg_or_fresh buckets (lookup k by) in
    let i = bucket_of buckets latency in
    let t = agg-IsTally buckets k by h in
    insert-All buckets k
      (record {
        cnt = a.cnt + 1;
        sum = if ltb 0 latency then a.sum + latency else a.sum;
        b = bump_at i a.b;
      })
      by
      (
        omega (arith, t.0, sum_of-bump_at i a.b (omega (arith, t.1, bucket_of-le buckets latency))),
        length-bump_at i a.b ∙ t.1,
      )
      h

-- One turn of the loop.
abbrev turn : List ℤ → Filter → Map Agg → Option MemDelivery → Map Agg
turn buckets f by none = by
turn buckets f by (some d) =
    if selects f d
    then add_sample buckets d.delivery.event_type d.delivery.status d.latency_ms by
    else by

abbrev chosen : Filter → Option MemDelivery → ℕ
chosen f none = 0
chosen f (some d) = if selects f d then 1 else 0

turn-total :
    (buckets : List ℤ) (f : Filter) (by : Map Agg) (o : Option MemDelivery)
    → total (turn buckets f by o) ≡ chosen f o + total by
turn-total buckets f by none = omega arith
turn-total buckets f by (some d) =
    ground (arith, add_sample-total buckets d.delivery.event_type d.delivery.status d.latency_ms by)

turn-IsTally :
    (buckets : List ℤ) (f : Filter) (by : Map Agg) (o : Option MemDelivery)
    → All (λ e. IsTally buckets e.1) by
    → All (λ e. IsTally buckets e.1) (turn buckets f by o)
turn-IsTally buckets f by none h = h
turn-IsTally buckets f by (some d) h =
    let more =
      add_sample-IsTally buckets d.delivery.event_type d.delivery.status d.latency_ms by h in
    elim (selects f d)
      as (λ b.
        All (λ e. IsTally buckets e.1)
          (if b
            then add_sample buckets d.delivery.event_type d.delivery.status d.latency_ms by
            else by)) [ true ↦ more | false ↦ h ]

selected_nil : (f : Filter) (deliveries : Map MemDelivery) → selected f deliveries [] ≡ 0
unfolding selected
selected_nil f deliveries = refl

selected-cons :
    (f : Filter) (deliveries : Map MemDelivery) (id : String) (ids : List String)
    → selected f deliveries (id ∷ ids) ≡ chosen f (lookup id deliveries) + selected f deliveries ids
unfolding selected
selected-cons f deliveries id ids = ground arith

-- The rows count each delivery that passes the filter once, and in each row the histogram has a bucket
-- for each edge and one more and adds up to the row's count; given that this holds of the rows the loop
-- starts from.
pub aggregate-IsTally :
    (buckets : List ℤ) (f : Filter) (deliveries : Map MemDelivery) (ids : List String)
    (by : Map Agg)
    → All (λ e. IsTally buckets e.1) by
    → (total (aggregate buckets f deliveries ids by) ≡ selected f deliveries ids + total by)
      × All (λ e. IsTally buckets e.1) (aggregate buckets f deliveries ids by)
unfolding aggregate
aggregate-IsTally buckets f deliveries [] by h = (omega (arith, selected_nil f deliveries), h)
aggregate-IsTally buckets f deliveries (id ∷ ids) by h =
    let o = lookup id deliveries in
    let rest =
      aggregate-IsTally buckets f deliveries ids (turn buckets f by o)
        (turn-IsTally buckets f by o h) in
    (omega (arith, rest.0, turn-total buckets f by o, selected-cons f deliveries id ids), rest.1)
