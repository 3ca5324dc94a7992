-- ===== src/Opt/Insert/Conserve.antt =====
-- greedyInsert and regretInsert's loop return, and place every removed node exactly once.
use usps_main.Common.{
  ℕ, zero, suc, ◌+◌, ◌≤◌, ◌<◌, ◌≡◌, refl, true, Option, some, List, [], ◌∷◌, ◌++◌, length, get_or,
  remove_at, insert_at, length-set, length-remove_at, ◌∙◌, arith, Option-cases, inl, inr, subst,
  ltb, Bool-cases,
}
use usps_main.Common.Count.{count, hit, count-append, count-insert_at, count-remove_at}
use usps_main.Opt.Float.{Float64}
use usps_main.Opt.Problem.{Problem, RoutePlan, Solution, plan_at}
use usps_main.Opt.Cost.{cost, in_range}
use usps_main.Opt.Range.{all_below, count-all_below, visits-in_range, in_range-visits, priced_run}
use usps_main.Opt.Visits.{visits, visits-set_order}
use usps_main.Opt.Insert.{
  Choice, shortest_loop, shortest, append_shortest, insert_choice, insert_loop, greedy_choice,
  greedy_insert, regret_choice, regret_place,
}
use usps_main.Opt.Insert.Choices.{Within, greedy_choice-Within, regret_choice-Within}

shortest_loop_lt :
    (plans : List RoutePlan) (i best size m : ℕ)
    → best < m
    → i + length plans ≤ m
    → shortest_loop plans i best size < m
unfolding shortest_loop
shortest_loop_lt [] i best size m h le = h
shortest_loop_lt (pl ∷ plans) i best size m h le = elim (Bool-cases (ltb (length pl.order) size)) [
  | inl e ↦ rw e (shortest_loop_lt plans (suc i) i (length pl.order) m (omega arith) (omega arith))
  | inr e ↦ rw e (shortest_loop_lt plans (suc i) best size m h (omega arith))
]

shortest_lt : (plans : List RoutePlan) → 0 < length plans → shortest plans < length plans
unfolding shortest
shortest_lt [] h = h
shortest_lt (pl ∷ plans) h =
    shortest_loop_lt (pl ∷ plans) 0 0 (length pl.order) (length (pl ∷ plans)) h (omega arith)

visits-append_shortest :
    (a : ℕ) (plans : List RoutePlan) (node : ℕ)
    → 0 < length plans
    → visits a (append_shortest plans node) ≡ hit a node + visits a plans
unfolding append_shortest count
visits-append_shortest a plans node h =
    let order = (plan_at plans (shortest plans)).order in
    omega (
      arith,
      visits-set_order a plans (shortest plans) (order ++ node ∷ []) (shortest_lt plans h),
      count-append a order (node ∷ []),
    )

visits-insert_choice :
    (a : ℕ) (plans : List RoutePlan) (nodes : List ℕ) (c : Choice)
    → c.plan < length plans
    → visits a (insert_choice plans nodes c) ≡ hit a (get_or nodes c.node 0) + visits a plans
unfolding insert_choice
visits-insert_choice a plans nodes c h =
    let order = (plan_at plans c.plan).order in
    let node = get_or nodes c.node 0 in
    omega (
      arith,
      visits-set_order a plans c.plan (insert_at c.pos node order) h,
      count-insert_at a c.pos node order,
    )

length-append_shortest :
    (plans : List RoutePlan) (node : ℕ) → length (append_shortest plans node) ≡ length plans
unfolding append_shortest
length-append_shortest plans node = length-set plans (shortest plans) _

length-insert_choice :
    (plans : List RoutePlan) (nodes : List ℕ) (c : Choice)
    → length (insert_choice plans nodes c) ≡ length plans
unfolding insert_choice
length-insert_choice plans nodes c = length-set plans c.plan _

module _ (choose : List RoutePlan → List ℕ → Option Choice)
    (good : (plans : List RoutePlan) (nodes : List ℕ)
      → Within (length nodes) (length plans) (choose plans nodes)) where
  -- The loop over any way to choose that stays within the lists.
  insert_loop-conserves :
      (fuel : ℕ) (plans : List RoutePlan) (nodes : List ℕ)
      → length nodes ≤ fuel
      → 0 < length plans
      → (plans' : List RoutePlan) × (insert_loop choose fuel plans nodes ≡ some plans')
        × (length plans' ≡ length plans)
        × ((a : ℕ) → visits a plans' ≡ count a nodes + visits a plans)
  unfolding insert_loop count
  insert_loop-conserves fuel plans [] le h = (plans, refl, refl, λ a. omega arith)
  insert_loop-conserves zero plans (x ∷ nodes) le h = absurd (omega arith)
  insert_loop-conserves (suc fuel) [] (x ∷ nodes) le h = absurd (omega arith)
  insert_loop-conserves (suc fuel) (pl ∷ plans) (x ∷ nodes) le h =
      elim (Option-cases (choose (pl ∷ plans) (x ∷ nodes))) [
        | inl e ↦
            let next = append_shortest (pl ∷ plans) x in
            let (plans', done, size, all) =
              insert_loop-conserves fuel next nodes (omega arith)
                (omega (arith, length-append_shortest (pl ∷ plans) x)) in
            rw (e, insert_loop)
              (
                plans',
                done,
                size ∙ length-append_shortest (pl ∷ plans) x,
                λ a. omega (arith, all a, visits-append_shortest a (pl ∷ plans) x h),
              )
        | inr (c, e) ↦
            let (node_lt, plan_lt) =
              subst (Within (suc (length nodes)) (suc (length plans))) e
                (good (pl ∷ plans) (x ∷ nodes)) in
            let next = insert_choice (pl ∷ plans) (x ∷ nodes) c in
            let (plans', done, size, all) =
              insert_loop-conserves fuel next (remove_at c.node (x ∷ nodes))
                (omega (arith, length-remove_at c.node (x ∷ nodes) node_lt))
                (omega (arith, length-insert_choice (pl ∷ plans) (x ∷ nodes) c)) in
            rw (e, insert_loop)
              (
                plans',
                done,
                size ∙ length-insert_choice (pl ∷ plans) (x ∷ nodes) c,
                λ a. omega (
                  arith,
                  all a,
                  visits-insert_choice a (pl ∷ plans) (x ∷ nodes) c plan_lt,
                  count-remove_at a c.node (x ∷ nodes) node_lt,
                ),
              )
      ]

module _ {F : Type 0} ⦃fl : Float64 F⦄ where
  -- The plans that an insertion leaves are in range.
  in_range-inserted :
      (p : Problem F) (plans plans' : List RoutePlan) (removed : List ℕ)
      → in_range p plans ≡ true
      → all_below (length p.nodes) removed ≡ true
      → length plans' ≡ length plans
      → ((a : ℕ) → visits a plans' ≡ count a removed + visits a plans)
      → in_range p plans' ≡ true
  in_range-inserted p plans plans' removed r below size all =
      in_range-visits p plans plans' r size λ a le. omega (
        arith,
        all a,
        count-all_below (length p.nodes) a removed below le,
        visits-in_range p plans a r le,
      )

  -- greedyInsert returns if there is a plan, each plan has a vehicle, and the nodes of the plans and the
  -- removed ones are nodes of the problem. The result is in range again; it has as many plans, and they
  -- visit each node as often as before and the removed list together.
  pub greedy_insert-conserves :
      (p : Problem F) (sol : Solution F) (removed : List ℕ)
      → 0 < length sol.plans
      → in_range p sol.plans ≡ true
      → all_below (length p.nodes) removed ≡ true
      → (sol' : Solution F) × (greedy_insert p sol removed ≡ some sol')
        × (in_range p sol'.plans ≡ true)
        × (length sol'.plans ≡ length sol.plans)
        × ((a : ℕ) → visits a sol'.plans ≡ count a removed + visits a sol.plans)
  unfolding greedy_insert count
  greedy_insert-conserves p sol [] h r below = (sol, refl, r, refl, λ a. omega arith)
  greedy_insert-conserves p sol (x ∷ removed) h r below =
      let (plans', done, size, all) =
        insert_loop-conserves (greedy_choice p) (greedy_choice-Within p) (length (x ∷ removed))
          sol.plans (x ∷ removed) (omega arith) h in
      let fits = in_range-inserted p sol.plans plans' (x ∷ removed) r below size all in
      (
        record { plans = plans'; cost = cost p plans' },
        rw (done, greedy_insert) (priced_run p plans' fits),
        fits,
        size,
        all,
      )

  -- The same of regretInsert, up to the local improvement behind its loop.
  pub regret_place-conserves :
      (p : Problem F) (plans : List RoutePlan) (removed : List ℕ)
      → 0 < length plans
      → in_range p plans ≡ true
      → all_below (length p.nodes) removed ≡ true
      → (sol' : Solution F) × (regret_place p plans removed ≡ some sol')
        × (in_range p sol'.plans ≡ true)
        × (length sol'.plans ≡ length plans)
        × ((a : ℕ) → visits a sol'.plans ≡ count a removed + visits a plans)
  unfolding regret_place
  regret_place-conserves p plans removed h r below =
      let (plans', done, size, all) =
        insert_loop-conserves (regret_choice p) (regret_choice-Within p) (length removed) plans
          removed (omega arith) h in
      let fits = in_range-inserted p plans plans' removed r below size all in
      (
        record { plans = plans'; cost = cost p plans' },
        rw (done, regret_place) (priced_run p plans' fits),
        fits,
        size,
        all,
      )
