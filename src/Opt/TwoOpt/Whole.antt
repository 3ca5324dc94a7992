-- ===== src/Opt/TwoOpt/Whole.antt =====
-- twoOptImprove on a whole solution: it returns, and every plan keeps what Opt/TwoOpt/Keeps says.
use usps_main.Common.{
  ℕ, suc, ◌<◌, ◌≡◌, refl, ap, ◌∙◌, true, some, length, All, List, [], ◌∷◌, arith,
}
use usps_main.Common.Count.{count-append}
use usps_main.Opt.Float.{Float64, ◌⊕◌, ◌≺◌}
use usps_main.Opt.Problem.{Problem, RoutePlan, Solution, visited, with_order}
use usps_main.Opt.Range.{visits-in_range, in_range-visits, priced_run}
use usps_main.Opt.Cost.{cost, in_range, path_distance_nodes}
use usps_main.Opt.OrOpt.{eps}
use usps_main.Opt.Visits.{visits}
use usps_main.Opt.TwoOpt.{two_opt_plans, two_opt_improve}
use usps_main.Opt.TwoOpt.Keeps.{Keeps, two_opt_rounds-returns}

module _ {F : Type 0} ⦃fl : Float64 F⦄ where
  -- In each plan the vehicle is the same and the order is kept in the sense of `Keeps`; the first plan
  -- is that of the vehicle `vi`.
  abbrev pub KeepsAll : Problem F → ℕ → List RoutePlan → List RoutePlan → Type 0
  KeepsAll p vi [] [] = Unit {0}
  KeepsAll p vi [] (_ ∷ _) = ⊥
  KeepsAll p vi (_ ∷ _) [] = ⊥
  KeepsAll p vi (pl ∷ plans) (pl' ∷ plans') =
      (pl'.vehicle_id ≡ pl.vehicle_id)
      × Keeps p vi pl.order pl'.order
      × KeepsAll p (suc vi) plans plans'

  visits-KeepsAll :
      (p : Problem F) (vi a : ℕ) (plans plans' : List RoutePlan)
      → KeepsAll p vi plans plans'
      → visits a plans' ≡ visits a plans
  unfolding visited
  visits-KeepsAll p vi a [] [] h = refl
  visits-KeepsAll p vi a [] (_ ∷ _) h = absurd h
  visits-KeepsAll p vi a (_ ∷ _) [] h = absurd h
  visits-KeepsAll p vi a (pl ∷ plans) (pl' ∷ plans') h = omega (
    arith,
    count-append a pl.order (visited plans),
    count-append a pl'.order (visited plans'),
    h.1.1 a,
    visits-KeepsAll p (suc vi) a plans plans' h.2,
  )

  length-KeepsAll :
      (p : Problem F) (vi : ℕ) (plans plans' : List RoutePlan)
      → KeepsAll p vi plans plans'
      → length plans' ≡ length plans
  length-KeepsAll p vi [] [] h = refl
  length-KeepsAll p vi [] (_ ∷ _) h = absurd h
  length-KeepsAll p vi (_ ∷ _) [] h = absurd h
  length-KeepsAll p vi (_ ∷ plans) (_ ∷ plans') h =
      ap suc (length-KeepsAll p (suc vi) plans plans' h.2)

  module _ (p : Problem F) (rank : F → ℕ)
      (rank_lt : (x y : F) → ((x ⊕ eps) ≺ y) ≡ true → rank x < rank y) where
    two_opt_plans-returns :
        (fuel vi : ℕ) (plans : List RoutePlan)
        → All (λ pl. rank (path_distance_nodes p pl.order) < fuel) plans
        → (plans' : List RoutePlan) × (two_opt_plans p fuel vi plans ≡ some plans')
          × KeepsAll p vi plans plans'
    unfolding two_opt_plans
    two_opt_plans-returns fuel vi [] bound = ([], refl, tt)
    two_opt_plans-returns fuel vi (pl ∷ plans) bound =
        let (order, done, kept) = two_opt_rounds-returns p vi rank rank_lt fuel pl.order bound.0 in
        let (plans', done', kept') = two_opt_plans-returns fuel (suc vi) plans bound.1 in
        (
          with_order pl order ∷ plans',
          rw (done, two_opt_plans) (rw (done', two_opt_plans) refl),
          (refl, kept, kept'),
        )

    -- twoOptImprove returns, and the result visits each node as often as before. Plan by plan, the
    -- vehicle and the nodes are the same, and a plan that can be scheduled can be scheduled still. The
    -- hypotheses: each plan has a vehicle, and its nodes are nodes of the problem; the floats have a rank
    -- in ℕ that grows strictly from x to y where x + 1e-6 < y, and the fuel lies above the rank of the
    -- length of each plan.
    pub two_opt_improve-returns :
        (fuel : ℕ) (sol : Solution F)
        → in_range p sol.plans ≡ true
        → All (λ pl. rank (path_distance_nodes p pl.order) < fuel) sol.plans
        → (sol' : Solution F) × (two_opt_improve fuel p sol ≡ some sol')
          × KeepsAll p 0 sol.plans sol'.plans
          × ((a : ℕ) → visits a sol'.plans ≡ visits a sol.plans)
    unfolding two_opt_improve
    two_opt_improve-returns fuel sol r bound =
        let (plans', done, kept) = two_opt_plans-returns fuel 0 sol.plans bound in
        let same = λ (a : ℕ). visits-KeepsAll p 0 a sol.plans plans' kept in
        let fits =
          in_range-visits p sol.plans plans' r (length-KeepsAll p 0 sol.plans plans' kept)
            λ a le. same a ∙ visits-in_range p sol.plans a r le in
        (
          record { plans = plans'; cost = cost p plans' },
          rw (done, two_opt_improve) (priced_run p plans' fits),
          kept,
          same,
        )
