-- ===== src/Opt/Cross/Conserve.antt =====
-- A pass of crossExchangeImprove moves nodes between plans, and neither loses nor doubles one.
use usps_main.Common.{
  ℕ, zero, suc, ◌+◌, ◌-◌, ◌≤◌, ◌<◌, ◌≡◌, refl, ap, List, length, get_or, set, length-set,
  get_or-set, get_or-set_ne, arith, inl, inr, Bool-cases,
}
use usps_main.Common.Count.{count, count-set}
use usps_main.Opt.Float.{Float64}
use usps_main.Opt.Problem.{Problem, RoutePlan, plan_at, with_order, zero_plan}
use usps_main.Opt.OrOpt.{Pass}
use usps_main.Opt.Visits.{visits, visits-set}
use usps_main.Opt.Cross.{
  Pair, exchange, set_pair, accepts, try_pair, partners_loop, pairs_loop, exchange_right,
  exchange_left, exchange_plans,
}

-- The two candidates hold together what the two plans hold.
abbrev pub Balanced : List ℕ → List ℕ → Pair → Type 0
Balanced pa pb c = (x : ℕ) → count x c.left + count x c.right ≡ count x pa + count x pb

exchange-Balanced :
    (pa pb : List ℕ) (i j : ℕ) → i < length pa → j < length pb → Balanced pa pb (exchange pa pb i j)
unfolding exchange
exchange-Balanced pa pb i j h k x =
    omega (arith, count-set x i (get_or pb j 0) pa h, count-set x j (get_or pa i 0) pb k)

-- The plans visit what they did, and the plans a and b hold what `pa` and `pb` hold.
record Steady (plans : List RoutePlan) (a b : ℕ) (pa pb : List ℕ) (s : Pass) : Type 0 where
  size : length s.plans ≡ length plans
  all : (x : ℕ) → visits x s.plans ≡ visits x plans
  two :
      (x : ℕ)
      → count x (plan_at s.plans a).order + count x (plan_at s.plans b).order
        ≡ count x pa + count x pb

visits-set_pair :
    (x : ℕ) (plans : List RoutePlan) (a b : ℕ) (c : Pair)
    → a < b
    → b < length plans
    → visits x (set_pair plans a b c)
        + (count x (plan_at plans a).order + count x (plan_at plans b).order)
      ≡ visits x plans + (count x c.left + count x c.right)
unfolding set_pair
visits-set_pair x plans a b c h k =
    let first = set plans a (with_order (plan_at plans a) c.left) in
    omega (
      arith,
      visits-set x plans a (with_order (plan_at plans a) c.left) (omega arith),
      visits-set x first b (with_order (plan_at plans b) c.right)
          (omega (arith, length-set plans a (with_order (plan_at plans a) c.left))),
      ap (λ pl. count x pl.order)
          (get_or-set_ne plans a b (with_order (plan_at plans a) c.left) zero_plan
            (λ e. omega arith)),
    )

plans-set_pair :
    (x : ℕ) (plans : List RoutePlan) (a b : ℕ) (c : Pair)
    → a < b
    → b < length plans
    → (length (set_pair plans a b c) ≡ length plans)
      × (count x (plan_at (set_pair plans a b c) a).order ≡ count x c.left)
      × (count x (plan_at (set_pair plans a b c) b).order ≡ count x c.right)
unfolding set_pair
plans-set_pair x plans a b c h k =
    let left = with_order (plan_at plans a) c.left in
    let right = with_order (plan_at plans b) c.right in
    let size = length-set plans a left in
    (
      omega (arith, size, length-set (set plans a left) b right),
      omega (
        arith,
        ap (λ pl. count x pl.order)
            (get_or-set_ne (set plans a left) b a right zero_plan (λ e. omega arith)),
        ap (λ pl. count x pl.order) (get_or-set plans a left zero_plan (omega arith)),
      ),
      ap (λ pl. count x pl.order)
          (get_or-set (set plans a left) b right zero_plan (omega (arith, size))),
    )

module _ {F : Type 0} ⦃fl : Float64 F⦄ (p : Problem F) (plans : List RoutePlan) (a b : ℕ)
    (ordered : a < b) (within : b < length plans) (pa pb : List ℕ) where
  try_pair-Steady :
      (c : Pair) (s : Pass)
      → Balanced pa pb c
      → Steady plans a b pa pb s
      → Steady plans a b pa pb (try_pair p a b pa pb c s)
  unfolding try_pair
  try_pair-Steady c s bal st =
      let inside : b < length s.plans = omega (arith, st.size) in
      elim (Bool-cases (accepts p a b pa pb c)) [
        | inl e ↦ rw e (record {
          size = omega (arith, (plans-set_pair 0 s.plans a b c ordered inside).0, st.size);
          all = λ x.
              omega
                (arith, visits-set_pair x s.plans a b c ordered inside, bal x, st.two x, st.all x);
          two = λ x. omega (arith, plans-set_pair x s.plans a b c ordered inside, bal x);
        })
        | inr e ↦ rw e st
      ]

  exchange_right-Steady :
      (i k j : ℕ) (s : Pass)
      → i < length pa
      → j + k ≤ length pb
      → Steady plans a b pa pb s
      → Steady plans a b pa pb (exchange_right p a b pa pb i k j s)
  unfolding exchange_right
  exchange_right-Steady i zero j s h le st = st
  exchange_right-Steady i (suc k) j s h le st =
      exchange_right-Steady i k (suc j) (try_pair p a b pa pb (exchange pa pb i j) s) h
        (omega arith)
        (try_pair-Steady (exchange pa pb i j) s (exchange-Balanced pa pb i j h (omega arith)) st)

  exchange_left-Steady :
      (k i : ℕ) (s : Pass)
      → i + k ≤ length pa
      → Steady plans a b pa pb s
      → Steady plans a b pa pb (exchange_left p a b pa pb k i s)
  unfolding exchange_left
  exchange_left-Steady zero i s le st = st
  exchange_left-Steady (suc k) i s le st =
      exchange_left-Steady k (suc i) (exchange_right p a b pa pb i (length pb) 0 s) (omega arith)
        (exchange_right-Steady i (length pb) 0 s (omega arith) (omega arith) st)

-- The number of plans and the visits of each node.
abbrev pub SameVisits : List RoutePlan → List RoutePlan → Type 0
SameVisits plans plans' =
    (length plans' ≡ length plans) × ((x : ℕ) → visits x plans' ≡ visits x plans)

-- The loops over the pairs, over any work on a pair that keeps the visits.
module _ (work : ℕ → ℕ → Pass → Pass)
    (keeps : (a b : ℕ) (s : Pass)
      → a < b
      → b < length s.plans
      → SameVisits s.plans (work a b s).plans) where
  partners_loop-SameVisits :
      (a k b : ℕ) (s : Pass)
      → a < b
      → b + k ≤ length s.plans
      → SameVisits s.plans (partners_loop work a k b s).plans
  unfolding partners_loop
  partners_loop-SameVisits a zero b s h le = (refl, λ x. refl)
  partners_loop-SameVisits a (suc k) b s h le =
      let (size, all) = keeps a b s h (omega arith) in
      let (size', all') =
        partners_loop-SameVisits a k (suc b) (work a b s) (omega arith) (omega arith) in
      (omega arith, λ x. omega (arith, all x, all' x))

  pub pairs_loop-SameVisits :
      (m k a : ℕ) (s : Pass)
      → m ≡ length s.plans
      → a + k ≤ m
      → SameVisits s.plans (pairs_loop work m k a s).plans
  unfolding pairs_loop
  pairs_loop-SameVisits m zero a s e le = (refl, λ x. refl)
  pairs_loop-SameVisits m (suc k) a s e le =
      let mid = partners_loop work a (m - suc a) (suc a) s in
      let (size, all) =
        partners_loop-SameVisits a (m - suc a) (suc a) s (omega arith) (omega arith) in
      let (size', all') = pairs_loop-SameVisits m k (suc a) mid (omega arith) (omega arith) in
      (omega arith, λ x. omega (arith, all x, all' x))

module _ {F : Type 0} ⦃fl : Float64 F⦄ where
  exchange_plans-SameVisits :
      (p : Problem F) (a b : ℕ) (s : Pass)
      → a < b
      → b < length s.plans
      → SameVisits s.plans (exchange_plans p a b s).plans
  unfolding exchange_plans
  exchange_plans-SameVisits p a b s h k =
      let pa = (plan_at s.plans a).order in
      let pb = (plan_at s.plans b).order in
      let st =
        exchange_left-Steady p s.plans a b h k pa pb (length pa) 0 s (omega arith)
          (record { size = refl; all = λ x. refl; two = λ x. refl }) in
      (st.size, st.all)

  -- A pass over all the pairs of plans keeps the number of plans, and visits each node as often as
  -- before.
  pub cross_pass-SameVisits :
      (p : Problem F) (s : Pass)
      → SameVisits s.plans
          (pairs_loop (exchange_plans p) (length s.plans) (length s.plans) 0 s).plans
  cross_pass-SameVisits p s =
      pairs_loop-SameVisits (exchange_plans p) (exchange_plans-SameVisits p) (length s.plans)
        (length s.plans) 0 s refl (omega arith)
