-- ===== src/Opt/Rebuild.antt =====
-- One iteration of Solve in internal/opt/alns_engine.go, behind the draws: removal, insertion and the
-- local improvements. `none` stands for a panic or a loop that does not end within the fuel.
use usps_main.Common.{ℕ, Option, none, some, List, [], ◌∷◌, if◌then◌else◌}
use usps_main.Opt.Float.{Float64}
use usps_main.Opt.Problem.{Problem, Solution}
use usps_main.Opt.Cost.{priced}
use usps_main.Opt.Remove.{remove_nodes}
use usps_main.Opt.Insert.{greedy_insert, regret_place}
use usps_main.Opt.OrOpt.{or_opt_local_improve}
use usps_main.Opt.TwoOpt.{two_opt_improve}
use usps_main.Opt.Cross.{cross_exchange_improve}
use usps_main.Opt.TwoOptStar.{two_opt_star_improve}
use usps_main.Opt.Setup.{first_chosen}

infixl 5 ◌>>=◌
abbrev pub ◌>>=◌ {ℓ κ} : {A : Type ℓ} {B : Type κ} → Option A → (A → Option B) → Option B
none >>= f = none
some a >>= f = f a

module _ {F : Type 0} ⦃fl : Float64 F⦄ where
  -- regretInsert.
  unfoldable pub regret_insert : ℕ → Problem F → Solution F → List ℕ → Option (Solution F)
  unfolding regret_place or_opt_local_improve
  regret_insert fuel p sol [] = some sol
  regret_insert fuel p sol (x ∷ removed) =
      regret_place p sol.plans (x ∷ removed) >>= λ s. or_opt_local_improve fuel p s.plans

  -- The switch on the insertion operator.
  unfoldable pub insert_by : ℕ → Problem F → ℕ → Solution F → List ℕ → Option (Solution F)
  unfolding greedy_insert regret_insert
  insert_by fuel p ip sol removed =
      if first_chosen ip then greedy_insert p sol removed else regret_insert fuel p sol removed

  -- Removal, insertion and the local improvements of one iteration.
  unfoldable pub rebuild : ℕ → Problem F → ℕ → Solution F → List ℕ → Option (Solution F)
  unfolding remove_nodes insert_by two_opt_improve cross_exchange_improve two_opt_star_improve
  rebuild fuel p ip sol removed =
      insert_by fuel p ip (remove_nodes sol removed) removed
      >>= two_opt_improve fuel p
      >>= cross_exchange_improve fuel p
      >>= two_opt_star_improve fuel p
      >>= λ s. priced p s.plans
