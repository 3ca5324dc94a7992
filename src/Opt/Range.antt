-- ===== src/Opt/Range.antt =====
-- When the indices of a solution are in range (`in_range` of Opt/Cost), in terms of how often its plans
-- visit a node.
use usps_main.Common.{
  ℕ, ◌≤◌, ◌<◌, ◌≡◌, refl, Bool, true, some, List, [], ◌∷◌, not, any, leb, length, arith,
}
use usps_main.Common.Count.{count, hit}
use usps_main.Opt.Float.{Float64}
use usps_main.Opt.Problem.{Problem, RoutePlan}
use usps_main.Opt.Cost.{cost, in_range, priced}
use usps_main.Opt.Visits.{visits}

-- Whether a list has only numbers below n.
abbrev pub all_below : ℕ → List ℕ → Bool
all_below n xs = not (any (λ i. leb n i) xs)

pub count-all_below : (n a : ℕ) (xs : List ℕ) → all_below n xs ≡ true → n ≤ a → count a xs ≡ 0
unfolding count hit
count-all_below n a [] h le = refl
count-all_below n a (x ∷ xs) h le = ground (arith, count-all_below n a xs)

all_below-cons :
    (n x : ℕ) (xs : List ℕ) → x < n → all_below n xs ≡ true → all_below n (x ∷ xs) ≡ true
all_below-cons n x xs lt h = ground arith

head_lt : (n x : ℕ) (xs : List ℕ) → (n ≤ x → count x (x ∷ xs) ≡ 0) → x < n
unfolding count hit
head_lt n x xs h = ground (arith, h)

count-tail : (a x : ℕ) (xs : List ℕ) → count a (x ∷ xs) ≡ 0 → count a xs ≡ 0
unfolding count
count-tail a x xs h = omega arith

pub all_below-count :
    (n : ℕ) (xs : List ℕ) → ((a : ℕ) → n ≤ a → count a xs ≡ 0) → all_below n xs ≡ true
all_below-count n [] h = refl
all_below-count n (x ∷ xs) h =
    all_below-cons n x xs (head_lt n x xs (h x))
      (all_below-count n xs λ a le. count-tail a x xs (h a le))

module _ {F : Type 0} ⦃fl : Float64 F⦄ where
  pub visits-in_range :
      (p : Problem F) (plans : List RoutePlan) (a : ℕ)
      → in_range p plans ≡ true
      → length p.nodes ≤ a
      → visits a plans ≡ 0
  unfolding in_range
  visits-in_range p plans a h le = count-all_below (length p.nodes) a _ (ground (arith, h)) le

  -- Plans are in range if they are as many as others that are, and visit no node beyond the problem's.
  pub in_range-visits :
      (p : Problem F) (plans plans' : List RoutePlan)
      → in_range p plans ≡ true
      → length plans' ≡ length plans
      → ((a : ℕ) → length p.nodes ≤ a → visits a plans' ≡ 0)
      → in_range p plans' ≡ true
  unfolding in_range
  in_range-visits p plans plans' h size none_beyond =
      ground (arith, h, size, all_below-count (length p.nodes) _ none_beyond)

  pub priced_run :
      (p : Problem F) (plans : List RoutePlan)
      → in_range p plans ≡ true
      → priced p plans ≡ some (record { plans = plans; cost = cost p plans })
  unfolding priced
  priced_run p plans h = rw (h, priced) refl
