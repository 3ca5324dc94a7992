-- ===== src/Opt/OrOpt/Hang.antt =====
-- The loop over the targets in orOptLocalImprove takes its clamped variable back, and does not end.
use usps_main.Common.{
  ℕ, zero, suc, ◌+◌, ◌≤◌, ◌<◌, ◌≡◌, refl, false, none, some, List, length, arith, Option-cases, inl,
  inr, subst, sym, get_or-set_ne,
}
use native.Mathlib.Decide.{ℕ_discrete}
use usps_main.Opt.Float.{Float64}
use usps_main.Opt.Problem.{Problem, RoutePlan, plan_at, with_order, zero_plan}
use usps_main.Opt.OrOpt.{
  Found, Pass, clamp, relocate, or_opt_try, targets_loop, sources_loop, or_opt_plan, or_opt_plans,
  or_opt_rounds, or_opt_local_improve,
}

clamp_lt : (n j : ℕ) → 0 < n → clamp n j < n
unfolding clamp
clamp_lt n j h = ground arith

module _ {F : Type 0} ⦃fl : Float64 F⦄ where
  targets_loop-none :
      (p : Problem F) (plans : List RoutePlan) (vi : ℕ) (order : List ℕ) (i : ℕ) (fuel j : ℕ)
      (best : Found F)
      → suc i < length order
      → j ≤ length order
      → targets_loop p plans vi order i fuel j best ≡ none
  unfolding targets_loop
  targets_loop-none p plans vi order i zero j best h k = refl
  targets_loop-none p plans vi order i (suc fuel) j best h k =
      let j' = clamp (length order) j in
      ground (
        arith,
        clamp_lt (length order) j,
        targets_loop-none p plans vi order i fuel (suc j) best h,
        targets_loop-none p plans vi order i fuel (suc j')
            (or_opt_try p plans vi (relocate i j' order) best) h,
      )

  sources_loop-none :
      (p : Problem F) (plans : List RoutePlan) (vi : ℕ) (order : List ℕ) (fuel k : ℕ)
      (best : Found F)
      → 1 < length order
      → 0 < k
      → sources_loop p plans vi order fuel k 0 best ≡ none
  unfolding sources_loop
  sources_loop-none p plans vi order fuel zero best h k = absurd (omega arith)
  sources_loop-none p plans vi order fuel (suc k) best h _ =
      ground (arith, targets_loop-none p plans vi order 0 fuel 0 best h (omega arith))

  or_opt_plan-none :
      (p : Problem F) (fuel vi : ℕ) (s : Pass)
      → 1 < length (plan_at s.plans vi).order
      → or_opt_plan p fuel vi s ≡ none
  unfolding or_opt_plan
  or_opt_plan-none p fuel vi s h =
      let order = (plan_at s.plans vi).order in
      ground (
        arith,
        sources_loop-none p s.plans vi order fuel (length order)
            (record { order = order; cost = fl.max_float }) h (omega arith),
      )

  -- The work on a plan leaves the other plans alone.
  or_opt_plan-other :
      (p : Problem F) (fuel vi w : ℕ) (s s' : Pass)
      → (vi ≡ w → ⊥)
      → or_opt_plan p fuel vi s ≡ some s'
      → plan_at s'.plans w ≡ plan_at s.plans w
  unfolding or_opt_plan
  or_opt_plan-other p fuel vi w s s' h e =
      let order = (plan_at s.plans vi).order in
      elim (Option-cases (
        sources_loop p s.plans vi order fuel (length order) 0
          (record { order = order; cost = fl.max_float }))) [
            | inl z ↦ ground arith
            | inr (b, z) ↦ ground (
              arith,
              get_or-set_ne s.plans vi w (with_order (plan_at s.plans vi) b.order) zero_plan h,
            )
          ]

  or_opt_plans-none :
      (p : Problem F) (fuel k vi w : ℕ) (s : Pass)
      → vi ≤ w
      → w < vi + k
      → 1 < length (plan_at s.plans w).order
      → or_opt_plans p fuel k vi s ≡ none
  unfolding or_opt_plans
  or_opt_plans-none p fuel zero vi w s h l big = absurd (omega arith)
  or_opt_plans-none p fuel (suc k) vi w s h l big = elim (ℕ_discrete vi w) [
    | yes e ↦
        rw
          (
            or_opt_plan-none p fuel vi s
                (subst (λ t. 1 < length (plan_at s.plans t).order) (sym e) big),
            or_opt_plans,
          )
          refl
    | no ne ↦ elim (Option-cases (or_opt_plan p fuel vi s)) [
      | inl z ↦ rw (z, or_opt_plans) refl
      | inr (s', z) ↦
          rw (z, or_opt_plans)
            (or_opt_plans-none p fuel k (suc vi) w s' (omega arith) (omega arith)
              (rw (or_opt_plan-other p fuel vi w s s' ne z) big))
    ]
  ]

  -- orOptLocalImprove does not return, with any amount of fuel, if some plan visits two nodes or more.
  pub or_opt_local_improve-none :
      (fuel : ℕ) (p : Problem F) (plans : List RoutePlan) (w : ℕ)
      → w < length plans
      → 1 < length (plan_at plans w).order
      → or_opt_local_improve fuel p plans ≡ none
  unfolding or_opt_local_improve or_opt_rounds
  or_opt_local_improve-none zero p plans w l big = refl
  or_opt_local_improve-none (suc fuel) p plans w l big = ground (
    arith,
    or_opt_plans-none p (suc fuel) (length plans) 0 w (record { plans = plans; improved = false })
        (omega arith) (omega arith) big,
  )
