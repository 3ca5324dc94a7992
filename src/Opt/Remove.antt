-- ===== src/Opt/Remove.antt =====
-- pickRandomNodes, removeNodes and shawRemoval of internal/opt/alns_engine.go.
use usps_main.Common.{
  ℕ, zero, suc, Bool, true, false, Option, none, some, List, [], ◌∷◌, ◌++◌, ◌==◌, not,
  if◌then◌else◌, length, get_or, remove_at, keep, take,
}
use usps_main.Common.Count.{mem}
use usps_main.Opt.Float.{Float64, Rand, ◌⊖◌, ◌⊗◌, ◌≺◌}
use usps_main.Opt.Problem.{
  Tw, Node, Problem, RoutePlan, Solution, zero_f, node_at, with_order, visited,
}
use usps_main.Opt.Cost.{haversine, tw_overlap}

-- The keys of `present`: each node once.
unfoldable pub distinct : List ℕ → List ℕ
distinct [] = []
distinct (x ∷ xs) = let rest = distinct xs in if mem x rest then rest else x ∷ rest

module _ {F S : Type 0} (rng : Rand F S) where
  -- `k` draws without replacement, as long as there is something to draw from.
  unfoldable pub draw_loop : ℕ → List ℕ → S → List ℕ × S
  draw_loop zero all s = ([], s)
  draw_loop (suc k) [] s = ([], s)
  draw_loop (suc k) (x ∷ xs) s =
      let drawn = rng.intn (length (x ∷ xs)) s in
      let rest = draw_loop k (remove_at drawn.0 (x ∷ xs)) drawn.1 in
      (get_or (x ∷ xs) drawn.0 0 ∷ rest.0, rest.1)

  -- `order` is the order in which Go ranges over the set of nodes.
  unfoldable pub pick_random_nodes : (List ℕ → List ℕ) → List RoutePlan → ℕ → S → List ℕ × S
  unfolding draw_loop distinct
  pick_random_nodes order plans k s = draw_loop k (order (distinct (visited plans))) s

-- The loop of removeNodes over the plans.
unfoldable pub strip : List ℕ → List RoutePlan → List RoutePlan
strip removed [] = []
strip removed (pl ∷ plans) =
    with_order pl (keep (λ i. not (mem i removed)) pl.order) ∷ strip removed plans

-- The cost of the result is 0 until it is worked out anew.
unfoldable pub remove_nodes : {F : Type 0} ⦃fl : Float64 F⦄ → Solution F → List ℕ → Solution F
unfolding strip
remove_nodes sol [] = sol
remove_nodes sol (x ∷ removed) = record { plans = strip (x ∷ removed) sol.plans; cost = zero_f }

-- The local type `pair`.
pub record Scored (F : Type 0) : Type 0 where
  pub idx : ℕ
  pub score : F

module _ {F : Type 0} ⦃fl : Float64 F⦄ where
  -- `tw`: 0 unless both nodes have a window.
  unfoldable pub shared_window : Option Tw → Option Tw → F
  unfolding tw_overlap
  shared_window none b = zero_f
  shared_window (some a) none = zero_f
  shared_window (some a) (some b) = tw_overlap a b

  unfoldable pub relatedness : Node F → Node F → F
  unfolding haversine shared_window
  relatedness a b = haversine a.lat a.lng b.lat b.lng ⊖ fl.lit 1000 1 ⊗ shared_window a.tw b.tw

  -- The assigned nodes but the seed, with their scores.
  unfoldable pub score_loop : Problem F → ℕ → List ℕ → List (Scored F)
  unfolding relatedness
  score_loop p seed [] = []
  score_loop p seed (i ∷ assigned) =
      let rest = score_loop p seed assigned in
      if i == seed
      then rest
      else record { idx = i; score = relatedness (node_at p seed) (node_at p i) } ∷ rest

  -- The inner loop of the sort: `x` stands at the index i, the list behind it.
  unfoldable pub sweep : Scored F → List (Scored F) → Scored F × List (Scored F)
  sweep x [] = (x, [])
  sweep x (y ∷ ys) =
      let low = if y.score ≺ x.score then y else x in
      let high = if y.score ≺ x.score then x else y in
      let rest = sweep low ys in (rest.0, high ∷ rest.1)

  -- The outer loop; `n` is the length of the list.
  unfoldable pub exchange_sort : ℕ → List (Scored F) → List (Scored F)
  unfolding sweep
  exchange_sort zero xs = xs
  exchange_sort (suc n) [] = []
  exchange_sort (suc n) (x ∷ xs) = let swept = sweep x xs in swept.0 ∷ exchange_sort n swept.1

  unfoldable pub indices : List (Scored F) → List ℕ
  indices [] = []
  indices (x ∷ xs) = x.idx ∷ indices xs

  -- The seed is taken even if `k` is 0; the others until `k` nodes are taken.
  unfoldable pub shaw_removal :
      {S : Type 0} → Rand F S → Problem F → List RoutePlan → ℕ → S → List ℕ × S
  unfolding score_loop exchange_sort indices
  shaw_removal rng p plans k s = elim (visited plans) [
    | [] ↦ ([], s)
    | x ∷ xs ↦
        let drawn = rng.intn (length (x ∷ xs)) s in
        let seed = get_or (x ∷ xs) drawn.0 0 in
        let rel = score_loop p seed (x ∷ xs) in
        let more = take (usps_main.Common.◌-◌ k 1) (exchange_sort (length rel) rel) in
        (seed ∷ indices more, drawn.1)
  ]
