-- ===== src/Opt/Setup.antt =====
-- The parts of Solve in internal/opt/alns_engine.go that read the problem or the counters alone.
use usps_main.Common.{ℕ, ◌+◌, Bool, List, [], ◌∷◌, ◌&&◌, ◌||◌, ◌==◌, if◌then◌else◌}
use usps_main.Opt.Float.{Float64, ◌≺◌}
use usps_main.Opt.Problem.{Problem, Metrics, zero_f}

-- The operator 0 or 1 of a pair.
abbrev pub first_chosen : ℕ → Bool
first_chosen op = op == 0

-- `selects[op]++`.
abbrev pub tally : ℕ → ℕ × ℕ → ℕ × ℕ
tally op (a, b) = if first_chosen op then (a + 1, b) else (a, b + 1)

module _ {F : Type 0} ⦃fl : Float64 F⦄ where
  -- `x <= y`.
  abbrev pub at_most : F → F → Bool
  at_most x y = x ≺ y || fl.eq x y

  -- `w[op] = f(w[op])`.
  abbrev pub reweigh : (F → F) → ℕ → F × F → F × F
  reweigh f op (a, b) = if first_chosen op then (f a, b) else (a, f b)

  -- The counters of the operators.
  unfoldable pub tallied : ℕ → ℕ → Metrics F → Metrics F
  tallied op ip m = record m {
    removal_selects = tally op m.removal_selects;
    insert_selects = tally ip m.insert_selects;
  }

  -- The weights given for two operators, or 1 and 1.
  unfoldable pub initial_weights : List F → F × F
  initial_weights (a ∷ b ∷ []) = (a, b)
  initial_weights _ = (fl.lit 1 1, fl.lit 1 1)

  unfoldable pub with_speed : Problem F → Problem F
  with_speed p = record p {
    speed_kph = if at_most p.speed_kph zero_f then fl.lit 50 1 else p.speed_kph;
  }

  unfoldable pub cooling_of : Problem F → F
  cooling_of p = if zero_f ≺ p.cooling && p.cooling ≺ fl.lit 1 1 then p.cooling else fl.lit 995 1000
