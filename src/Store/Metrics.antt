-- ===== src/Store/Metrics.antt =====
-- WebhookMetrics of internal/store/memory.go: counts and latencies by event type and status.
pub mod Histogram
use Prim.Native.Char.{code}
use Prim.Native.String.{◌++◌ as text_append}
use usps_main.Common.{
  String, Bool, true, false, ℕ, zero, suc, ◌+◌, ◌/◌, Option, none, some, List, [], ◌∷◌, ◌&&◌, not,
  ℤ, pos, is_pos, to_nat, ltb_ℤ, str_eq, ltb, ◌==◌, if◌then◌else◌, length, find_index,
}
use usps_main.Common.Maps.{lookup, insert, Map}
use usps_main.Store.{Memory, MemDelivery}

-- The local type `agg`: a count, a sum of latencies and the histogram.
pub record Agg : Type 0 where
  pub cnt : ℕ
  pub sum : ℕ
  pub b : List ℕ

-- A row of the answer; `b` holds the columns b0, b1, ….
pub record Row : Type 0 where
  pub event_type : String
  pub status : String
  pub cnt : ℕ
  pub avg_latency_ms : ℕ
  pub b : List ℕ

pub record Filter : Type 0 where
  pub tenant : String
  pub since : ℕ  -- 0 is the zero time
  pub event_type : String
  pub status : String
  pub code_min : ℤ
  pub code_max : ℤ

abbrev pub default_buckets : List ℤ
default_buckets = pos 100 ∷ pos 500 ∷ pos 1000 ∷ []

-- `typ + "|" + st`.
unfoldable pub key_of : String → String → String
key_of typ st = text_append typ (text_append "|" st)

-- `bi`: the first bucket whose edge lies above the latency, or the last.
unfoldable pub bucket_of : List ℤ → ℕ → ℕ
bucket_of [] latency = 0
bucket_of (edge ∷ edges) latency =
    let above = suc (bucket_of edges latency) in if ltb_ℤ (pos latency) edge then 0 else above

-- `a.b[bi]++`.
unfoldable pub bump_at : ℕ → List ℕ → List ℕ
bump_at i [] = []
bump_at zero (x ∷ xs) = (x + 1) ∷ xs
bump_at (suc i) (x ∷ xs) = x ∷ bump_at i xs

unfoldable pub zeros : ℕ → List ℕ
zeros zero = []
zeros (suc n) = 0 ∷ zeros n

unfoldable pub fresh_agg : List ℤ → Agg
unfolding zeros
fresh_agg buckets = record { cnt = 0; sum = 0; b = zeros (length buckets + 1) }

-- `a := by[key]; if a == nil { a = &agg{…} }`.
unfoldable pub agg_or_fresh : List ℤ → Option Agg → Agg
unfolding fresh_agg
agg_or_fresh buckets none = fresh_agg buckets
agg_or_fresh buckets (some a) = a

-- The local function `add`; a latency of 0 adds nothing to the sum in either branch.
unfoldable pub add_sample : List ℤ → String → String → ℕ → Map Agg → Map Agg
unfolding key_of bucket_of bump_at agg_or_fresh
add_sample buckets typ st latency by =
    let k = key_of typ st in
    let a = agg_or_fresh buckets (lookup k by) in
    insert k
      (record {
        cnt = a.cnt + 1;
        sum = if ltb 0 latency then a.sum + latency else a.sum;
        b = bump_at (bucket_of buckets latency) a.b;
      })
      by

-- The delivery passes every `continue` of the loop.
unfoldable pub selects : Filter → MemDelivery → Bool
selects f d =
    str_eq d.delivery.tenant_id f.tenant
    && not (not (f.since == 0) && elim d.delivered_at [ none ↦ false | some at ↦ ltb at f.since ])
    && not (not (str_eq f.event_type "") && not (str_eq d.delivery.event_type f.event_type))
    && not (not (str_eq f.status "") && not (str_eq d.delivery.status f.status))
    && not (is_pos f.code_min && ltb d.response_code (to_nat f.code_min))
    && not (is_pos f.code_max && ltb (to_nat f.code_max) d.response_code)

unfoldable pub aggregate : List ℤ → Filter → Map MemDelivery → List String → Map Agg → Map Agg
unfolding selects add_sample
aggregate buckets f deliveries [] by = by
aggregate buckets f deliveries (id ∷ ids) by =
    aggregate buckets f deliveries ids (elim (lookup id deliveries) [
      | none ↦ by
      | some d ↦
          if selects f d
          then add_sample buckets d.delivery.event_type d.delivery.status d.latency_ms by
          else by
    ])

-- `k[:sep]` for the first '|' of the key.
unfoldable pub before_bar : String → String
before_bar String.[] = String.[]
before_bar (String.◌∷◌ c s) =
    let rest = String.◌∷◌ c (before_bar s) in if code c == b'|' then String.[] else rest

-- `k[sep+1:]`.
unfoldable pub after_bar : String → String
after_bar String.[] = String.[]
after_bar (String.◌∷◌ c s) = let rest = after_bar s in if code c == b'|' then s else rest

unfoldable pub row_of : String → Agg → Row
unfolding before_bar after_bar
row_of k a = record {
  event_type = before_bar k;
  status = after_bar k;
  cnt = a.cnt;
  avg_latency_ms = if ltb 0 a.cnt then a.sum / a.cnt else 0;
  b = a.b;
}

unfoldable pub rows : Map Agg → List Row
unfolding row_of
rows [] = []
rows ((k, a) ∷ by) = row_of k a ∷ rows by

unfoldable pub ids_of : Map (List String) → List String
ids_of [] = []
ids_of ((_, ids) ∷ rest) = usps_main.Common.◌++◌ ids (ids_of rest)

abbrev pub buckets_or_default : List ℤ → List ℤ
buckets_or_default [] = default_buckets
buckets_or_default (e ∷ es) = e ∷ es

-- The two arguments before the store are the orders in which Go ranges over the two maps. The method takes
-- no lock; this is a call during which no other one writes.
unfoldable pub webhook_metrics :
    (Map (List String) → Map (List String))
    → (Map Agg → Map Agg)
    → Memory
    → Filter
    → List ℤ
    → List Row
unfolding aggregate rows ids_of
webhook_metrics order order_rows m f given =
    let buckets = buckets_or_default given in
    rows (order_rows (aggregate buckets f m.deliveries (ids_of (order m.deliveries_by_tenant)) []))
