-- ===== src/Opt/Solve.antt =====
-- Solve and selectOp of internal/opt/alns_engine.go.
use usps_main.Common.{
  ℕ, ◌+◌, ◌%◌, Bool, true, false, Option, some, List, [], ◌∷◌, ◌++◌, ◌&&◌, is_pos, to_nat, leb,
  ◌==◌, if◌then◌else◌,
}
use usps_main.Opt.Float.{Float64, Rand, ◌⊕◌, ◌⊖◌, ◌⊗◌, ◌⊘◌, ◌≺◌}
use usps_main.Opt.Problem.{Problem, Solution, Metrics, zero_f}
use usps_main.Opt.Seed.{greedy_seed}
use usps_main.Opt.Remove.{pick_random_nodes, shaw_removal}
use usps_main.Opt.Problem.{WeightSnapshot}
use usps_main.Opt.Setup.{
  first_chosen, at_most, reweigh, initial_weights, with_speed, cooling_of, tallied,
}
use usps_main.Opt.Rebuild.{◌>>=◌, rebuild}

-- The variables of the loop of Solve, with the state of the random source.
pub record Search (F S : Type 0) : Type 0 where
  pub curr : Solution F
  pub best : Solution F
  pub rem_w : F × F
  pub ins_w : F × F
  pub temp : F
  pub metrics : Metrics F
  pub rng : S

-- The world of a run: the random source, the order in which Go ranges over the set of nodes in each
-- iteration, and the fuel for the loops `for improved`.
pub record World (F S : Type 0) : Type 0 where
  pub rand : Rand F S
  pub range_order : ℕ → List ℕ → List ℕ
  pub fuel : ℕ

-- What an iteration draws: the two operators, and the nodes to remove.
pub record Draws (S : Type 0) : Type 0 where
  pub op : ℕ
  pub ip : ℕ
  pub removed : List ℕ
  pub rng : S

module _ {F S : Type 0} ⦃fl : Float64 F⦄ where
  -- selectOp at the two weights.
  unfoldable pub select_op : Rand F S → F × F → S → ℕ × S
  select_op rand (w0, w1) s =
      let sum = zero_f ⊕ w0 ⊕ w1 in
      let drawn = rand.float64 s in
      let r = drawn.0 ⊗ sum in
      if at_most sum zero_f
      then (0, s)
      else if at_most r (zero_f ⊕ w0)
      then (0, drawn.1)
      else (1, drawn.1)

  -- The switch on the removal operator.
  unfoldable pub remove_by : World F S → Problem F → ℕ → ℕ → Solution F → ℕ → S → List ℕ × S
  unfolding pick_random_nodes shaw_removal
  remove_by w p iteration op sol k s =
      if first_chosen op
      then pick_random_nodes w.rand (w.range_order iteration) sol.plans k s
      else shaw_removal w.rand p sol.plans k s

  -- `delta < 0 || rng.Float64() < math.Exp(-delta/(temp+1e-9))`: the draw is made only if it is read.
  unfoldable pub accept : World F S → F → F → S → Bool × S
  accept w delta temp s =
      let drawn = w.rand.float64 s in
      let bound = fl.exp ((zero_f ⊖ delta) ⊘ (temp ⊕ fl.lit 1 1_000_000_000)) in
      if delta ≺ zero_f then (true, s) else (drawn.0 ≺ bound, drawn.1)

  -- The end of an iteration: the best solution, the weights and the counters.
  unfoldable pub judge : Search F S → ℕ → ℕ → Bool → Search F S
  judge s op ip accepted =
      let up = λ (x : F) (w : F). w ⊕ x in
      let down = λ (w : F). fl.max (fl.lit 1 100) (w ⊗ fl.lit 999 1000) in
      if accepted
      then (if s.curr.cost ≺ s.best.cost
          then record s {
            best = s.curr;
            rem_w = reweigh (up (fl.lit 1 10)) op s.rem_w;
            ins_w = reweigh (up (fl.lit 1 10)) ip s.ins_w;
            metrics = record s.metrics {
              improvements = s.metrics.improvements + 1;
              best_cost = s.curr.cost;
            };
          }
          else record s {
            rem_w = reweigh (up (fl.lit 1 100)) op s.rem_w;
            ins_w = reweigh (up (fl.lit 1 100)) ip s.ins_w;
            metrics = record s.metrics { accepted_worse = s.metrics.accepted_worse + 1 };
          })
      else record s { rem_w = reweigh down op s.rem_w; ins_w = reweigh down ip s.ins_w }

  -- A snapshot of the weights every 50 iterations, behind the cooling.
  unfoldable pub cool_down : F → Search F S → Search F S
  cool_down cool s =
      let shot : WeightSnapshot F = record {
        iteration = s.metrics.iterations;
        removal = s.rem_w;
        insertion = s.ins_w;
      } in
      let colder = record s { temp = s.temp ⊗ cool } in
      if s.metrics.iterations % 50 == 0
      then record colder {
        metrics = record s.metrics { snapshots = s.metrics.snapshots ++ shot ∷ [] };
      }
      else colder

  -- The draws of an iteration, in the order of the code: k, the two operators, the removal.
  unfoldable pub draw_moves : World F S → Problem F → Search F S → Draws S
  unfolding select_op remove_by
  draw_moves w p s =
      let k = w.rand.intn 3 s.rng in
      let op = select_op w.rand s.rem_w k.1 in
      let ip = select_op w.rand s.ins_w op.1 in
      let gone = remove_by w p s.metrics.iterations op.0 s.curr (1 + k.0) ip.1 in
      record { op = op.0; ip = ip.0; removed = gone.0; rng = gone.1 }

  -- An iteration behind the test of the limit.
  unfoldable pub iterate : World F S → Problem F → F → Search F S → Option (Search F S)
  unfolding draw_moves rebuild accept judge cool_down tallied
  iterate w p cool s =
      let d = draw_moves w p s in
      rebuild w.fuel p d.ip s.curr d.removed >>= λ built.
      let verdict = accept w (built.cost ⊖ s.best.cost) s.temp d.rng in
      let s' = record s { curr = built; metrics = tallied d.op d.ip s.metrics; rng = verdict.1 } in
      some (cool_down cool (judge s' d.op d.ip verdict.0))

  -- `m.Iterations++`.
  abbrev pub counted : Search F S → Search F S
  counted s = record s { metrics = record s.metrics { iterations = s.metrics.iterations + 1 } }

  -- `p.IterationsLimit > 0 && m.Iterations >= p.IterationsLimit`.
  abbrev pub at_limit : Problem F → Search F S → Bool
  at_limit p s = is_pos p.iterations_limit && leb (to_nat p.iterations_limit) s.metrics.iterations

  -- The loop. The list holds the answers of `time.Now().Before(deadline)`, the last of them `false`.
  unfoldable pub solve_loop :
      World F S → Problem F → F → List Bool → Search F S → Option (Search F S)
  unfolding iterate
  solve_loop w p cool [] s = some s
  solve_loop w p cool (false ∷ clock) s = some s
  solve_loop w p cool (true ∷ clock) s =
      if at_limit p (counted s)
      then some (counted s)
      else (iterate w p cool (counted s) >>= solve_loop w p cool clock)

  unfoldable pub start_search : Problem F → S → Solution F → Search F S
  unfolding initial_weights
  start_search p s seed = record {
    curr = seed;
    best = seed;
    rem_w = initial_weights p.initial_removal_weights;
    ins_w = initial_weights p.initial_insertion_weights;
    temp = if zero_f ≺ p.initial_temp then p.initial_temp else fl.lit 1 1;
    metrics = record {
      removal_selects = (0, 0);
      insert_selects = (0, 0);
      iterations = 0;
      improvements = 0;
      accepted_worse = 0;
      best_cost = seed.cost;
      final_cost = zero_f;
      final_removal_weights = (zero_f, zero_f);
      final_insertion_weights = (zero_f, zero_f);
      snapshots = [];
    };
    rng = s;
  }

  -- The best solution and the metrics.
  unfoldable pub report : Search F S → Solution F × Metrics F
  report s = (
    s.best,
    record s.metrics {
      final_cost = s.best.cost;
      final_removal_weights = s.rem_w;
      final_insertion_weights = s.ins_w;
    },
  )

  -- `none` stands for a panic or a loop that does not end within the fuel.
  unfoldable pub solve : World F S → Problem F → S → List Bool → Option (Solution F × Metrics F)
  unfolding greedy_seed solve_loop with_speed start_search cooling_of report
  solve w given s clock =
      let p = with_speed given in
      greedy_seed p >>= λ seed.
      solve_loop w p (cooling_of p) clock (start_search p s seed) >>= λ done. some (report done)
