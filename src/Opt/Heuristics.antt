-- ===== src/Opt/Heuristics.antt =====
-- internal/opt/heuristics.go: ImproveOrder2Opt over stops.
use usps_main.Common.{
  ℕ, zero, suc, ◌+◌, ◌-◌, Bool, true, false, List, [], ◌∷◌, ◌++◌, ℤ, pos, negsuc, if◌then◌else◌,
  length, get_or, take, drop,
}
use usps_main.Opt.Float.{Float64, ◌⊕◌, ◌≺◌}
use usps_main.Opt.Problem.{zero_f}
use usps_main.Opt.Cost.{haversine}

pub record StopNode (F : Type 0) : Type 0 where
  pub lat : F
  pub lng : F

-- `best`, `bestDist` and `improved`.
pub record Progress (F : Type 0) : Type 0 where
  pub best : List ℕ
  pub best_dist : F
  pub improved : Bool

-- `ord[k], …, ord[i]`: the loop `for j := k; j >= i; j--` over `n` elements, the last read first.
unfoldable pub read_down : List ℕ → ℕ → ℕ → List ℕ
read_down ord i zero = []
read_down ord i (suc n) = get_or ord (i + n) 0 ∷ read_down ord i n

unfoldable pub two_opt_swap : List ℕ → ℕ → ℕ → List ℕ
two_opt_swap ord i k = take i ord ++ (read_down ord i (suc k - i) ++ drop (suc k) ord)

-- `if iterations <= 0 { iterations = 1 }`.
abbrev pub at_least_once : ℤ → ℕ
at_least_once (pos zero) = 1
at_least_once (pos (suc n)) = suc n
at_least_once (negsuc n) = 1

module _ {F : Type 0} ⦃fl : Float64 F⦄ where
  -- Past the end, where Go panics, a zero stop.
  abbrev pub stop_at : List (StopNode F) → ℕ → StopNode F
  stop_at nodes i = get_or nodes i (record { lat = zero_f; lng = zero_f })

  unfoldable pub path_distance_from : List (StopNode F) → ℕ → List ℕ → F → F
  path_distance_from nodes i [] total = total
  path_distance_from nodes i (j ∷ order) total =
      let a = stop_at nodes i in
      let b = stop_at nodes j in
      path_distance_from nodes j order (total ⊕ haversine a.lat a.lng b.lat b.lng)

  unfoldable pub path_distance : List (StopNode F) → List ℕ → F
  path_distance nodes [] = zero_f
  path_distance nodes (i ∷ order) = path_distance_from nodes i order zero_f

  unfoldable pub swap_try : List (StopNode F) → ℕ → ℕ → Progress F → Progress F
  swap_try nodes i k s =
      let new_order = two_opt_swap s.best i k in
      let d = path_distance nodes new_order in
      if (d ⊕ fl.lit 1 1000) ≺ s.best_dist
      then record { best = new_order; best_dist = d; improved = true }
      else s

  -- The loop over k: `m` values are left.
  unfoldable pub swap_ends : List (StopNode F) → ℕ → ℕ → ℕ → Progress F → Progress F
  swap_ends nodes i zero k s = s
  swap_ends nodes i (suc m) k s = swap_ends nodes i m (suc k) (swap_try nodes i k s)

  -- The loop over i: `m` values are left.
  unfoldable pub swap_starts : List (StopNode F) → ℕ → ℕ → ℕ → Progress F → Progress F
  swap_starts nodes n zero i s = s
  swap_starts nodes n (suc m) i s =
      swap_starts nodes n m (suc i) (swap_ends nodes i (n - 1 - suc i) (suc i) s)

  -- `for it := 0; it < iterations; it++`.
  unfoldable pub improve_loop : List (StopNode F) → ℕ → ℕ → Progress F → List ℕ
  improve_loop nodes n zero s = s.best
  improve_loop nodes n (suc iterations) s =
      let s' = swap_starts nodes n (n - 2 - 1) 1 (record s { improved = false }) in
      let rest = improve_loop nodes n iterations s' in if s'.improved then rest else s'.best

  unfoldable pub improve_order_2opt : List (StopNode F) → List ℕ → ℤ → List ℕ
  improve_order_2opt nodes order iterations =
      improve_loop nodes (length order) (at_least_once iterations)
        (record { best = order; best_dist = path_distance nodes order; improved = false })
