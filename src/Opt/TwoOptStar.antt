-- ===== src/Opt/TwoOptStar.antt =====
-- twoOptStarImprove of internal/opt/alns_engine.go: segments of one or two nodes change plans.
-- `none` means that the fuel ran out, or a panic.
pub mod Lost
use usps_main.Common.{
  ℕ, zero, suc, ◌+◌, Option, none, some, List, [], ◌∷◌, ◌++◌, ltb, leb, if◌then◌else◌, length, take,
  drop,
}
use usps_main.Opt.Float.{Float64}
use usps_main.Opt.Problem.{Problem, Solution, plan_at}
use usps_main.Opt.Cost.{priced}
use usps_main.Opt.OrOpt.{Pass}
use usps_main.Opt.Cross.{Pair, try_pair, pair_rounds}

-- What stands in the array of `xs` once `append(xs[:i], seg...)` has written `seg` into it at i. What
-- is written past the end of `xs` is not seen through `xs`.
unfoldable pub overwrite : ℕ → List ℕ → List ℕ → List ℕ
overwrite i [] xs = xs
overwrite i (y ∷ seg) [] = []
overwrite zero (y ∷ seg) (x ∷ xs) = y ∷ overwrite zero seg xs
overwrite (suc i) (y ∷ seg) (x ∷ xs) = x ∷ overwrite i (y ∷ seg) xs

-- `append(append(xs[:i], seg...), xs[i+la:]...)`: the inner append writes into the array of `xs`
-- before the tail of `xs` is read. (Where the array is too short for that and is copied, the tail is
-- empty.)
unfoldable pub splice : List ℕ → ℕ → ℕ → List ℕ → List ℕ
splice xs i la seg = take i xs ++ (seg ++ drop (i + la) (overwrite i seg xs))

-- `xs[i:i+la]`.
abbrev pub segment : List ℕ → ℕ → ℕ → List ℕ
segment xs i la = take la (drop i xs)

unfoldable pub exchange_segments : List ℕ → List ℕ → ℕ → ℕ → ℕ → ℕ → Pair
exchange_segments pa pb i j la lb = record {
  left = splice pa i la (segment pb j lb);
  right = splice pb j lb (segment pa i la);
}

module _ {F : Type 0} ⦃fl : Float64 F⦄ where
  unfoldable pub star_try : Problem F → ℕ → ℕ → List ℕ → List ℕ → ℕ → ℕ → ℕ → ℕ → Pass → Pass
  star_try p a b pa pb i j la lb s = try_pair p a b pa pb (exchange_segments pa pb i j la lb) s

  -- `for lb := 1; lb <= 2 && j+lb <= len(pb.Order); lb++`.
  unfoldable pub star_lb : Problem F → ℕ → ℕ → List ℕ → List ℕ → ℕ → ℕ → ℕ → Pass → Pass
  star_lb p a b pa pb i j la s =
      let one = if leb (j + 1) (length pb) then star_try p a b pa pb i j la 1 s else s in
      if leb (j + 2) (length pb) then star_try p a b pa pb i j la 2 one else one

  -- `for la := 1; la <= 2 && i+la <= len(pa.Order); la++`.
  unfoldable pub star_la : Problem F → ℕ → ℕ → List ℕ → List ℕ → ℕ → ℕ → Pass → Pass
  star_la p a b pa pb i j s =
      let one = if leb (i + 1) (length pa) then star_lb p a b pa pb i j 1 s else s in
      if leb (i + 2) (length pa) then star_lb p a b pa pb i j 2 one else one

  -- The loop over j: `k` indices are left.
  unfoldable pub star_right : Problem F → ℕ → ℕ → List ℕ → List ℕ → ℕ → ℕ → ℕ → Pass → Pass
  star_right p a b pa pb i zero j s = s
  star_right p a b pa pb i (suc k) j s =
      star_right p a b pa pb i k (suc j) (star_la p a b pa pb i j s)

  -- The loop over i: `k` indices are left.
  unfoldable pub star_left : Problem F → ℕ → ℕ → List ℕ → List ℕ → ℕ → ℕ → Pass → Pass
  star_left p a b pa pb zero i s = s
  star_left p a b pa pb (suc k) i s =
      star_left p a b pa pb k (suc i) (star_right p a b pa pb i (length pb) 0 s)

  unfoldable pub star_plans : Problem F → ℕ → ℕ → Pass → Pass
  star_plans p a b s =
      let pa = (plan_at s.plans a).order in
      let pb = (plan_at s.plans b).order in star_left p a b pa pb (length pa) 0 s

  unfoldable pub two_opt_star_improve : ℕ → Problem F → Solution F → Option (Solution F)
  two_opt_star_improve fuel p sol =
      if ltb (length sol.plans) 2
      then some sol
      else elim (pair_rounds (star_plans p) fuel sol.plans) [
        | none ↦ none
        | some plans ↦ priced p plans
      ]
