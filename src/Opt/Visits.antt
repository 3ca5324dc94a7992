-- ===== src/Opt/Visits.antt =====
-- How often the plans of Opt/Problem visit a node, and what writing one plan does to that.
use usps_main.Common.{ℕ, zero, suc, ◌+◌, ◌<◌, ◌≡◌, List, [], ◌∷◌, length, set, arith}
use usps_main.Common.Count.{count, count-append}
use usps_main.Opt.Problem.{RoutePlan, visited, plan_at, with_order}
use usps_main.Opt.Insert.{set_order}

-- How often the plans visit a node.
abbrev pub visits : ℕ → List RoutePlan → ℕ
visits a plans = count a (visited plans)

pub visits-set :
    (a : ℕ) (plans : List RoutePlan) (i : ℕ) (pl : RoutePlan)
    → i < length plans
    → visits a (set plans i pl) + count a (plan_at plans i).order
      ≡ visits a plans + count a pl.order
unfolding visited
visits-set a [] i pl h = absurd (omega arith)
visits-set a (x ∷ plans) zero pl h =
    omega (arith, count-append a x.order (visited plans), count-append a pl.order (visited plans))
visits-set a (x ∷ plans) (suc i) pl h = omega (
  arith,
  count-append a x.order (visited plans),
  count-append a x.order (visited (set plans i pl)),
  visits-set a plans i pl (omega arith),
)

pub visits-set_order :
    (a : ℕ) (plans : List RoutePlan) (i : ℕ) (order : List ℕ)
    → i < length plans
    → visits a (set_order plans i order) + count a (plan_at plans i).order
      ≡ visits a plans + count a order
visits-set_order a plans i order h = visits-set a plans i (with_order (plan_at plans i) order) h
