-- ===== src/Opt/TwoOpt/Keeps.antt =====
-- What twoOptImprove keeps of a plan: its nodes, and that it can be scheduled.
use usps_main.Common.{
  ℕ, zero, suc, ◌+◌, ◌-◌, ◌≤◌, ◌<◌, ◌≡◌, refl, sym, ap, ◌∙◌, true, false, some, List, ◌&&◌, length,
  get_or, set, length-set, get_or-set_ne, and_true, ltb, arith, ◌⊎◌, inl, inr, Bool-cases, ltb→lt,
}
use mathlib.Core.Bool.{false≢true}
use usps_main.Common.Count.{count, hit, count-set, SameItems}
use usps_main.Opt.Float.{Float64, ◌⊕◌, ◌≺◌}
use usps_main.Opt.Problem.{Problem, vehicle_at}
use usps_main.Opt.Cost.{schedule_plan, path_distance_nodes}
use usps_main.Opt.OrOpt.{eps}
use usps_main.Opt.TwoOpt.{
  swap, reverse_loop, reverse_segment, Tweak, two_opt_try, ends_loop, starts_loop, two_opt_rounds,
}

length-swap : (a b : ℕ) (xs : List ℕ) → length (swap a b xs) ≡ length xs
unfolding swap
length-swap a b xs = length-set (set xs a (get_or xs b 0)) b _ ∙ length-set xs a _

count-swap : (x a b : ℕ) (xs : List ℕ) → a < b → b < length xs → count x (swap a b xs) ≡ count x xs
unfolding swap
count-swap x a b xs h k =
    let ys = set xs a (get_or xs b 0) in
    let later : b < length ys = omega (arith, length-set xs a (get_or xs b 0)) in
    let same : get_or ys b 0 ≡ get_or xs b 0 =
      get_or-set_ne xs a b (get_or xs b 0) 0 (λ e. omega arith) in
    omega (
      arith,
      count-set x b (get_or xs a 0) ys later,
      count-set x a (get_or xs b 0) xs (omega arith),
      ap (hit x) same,
    )

reverse_loop-keeps :
    (fuel a b : ℕ) (xs : List ℕ)
    → b < length xs
    → (length (reverse_loop fuel a b xs) ≡ length xs) × SameItems (reverse_loop fuel a b xs) xs
unfolding reverse_loop
reverse_loop-keeps zero a b xs h = (refl, λ x. refl)
reverse_loop-keeps (suc fuel) a b xs h = elim (Bool-cases (ltb a b)) [
  | inl e ↦
      let (size, same) =
        reverse_loop-keeps fuel (suc a) (b - 1) (swap a b xs) (omega (arith, length-swap a b xs)) in
      rw e (size ∙ length-swap a b xs, λ x. same x ∙ count-swap x a b xs (ltb→lt a b e) h)
  | inr e ↦ rw e (refl, λ x. refl)
]

module _ {F : Type 0} ⦃fl : Float64 F⦄ (p : Problem F) (vi : ℕ) where
  -- An order holds the same nodes as another, and can be scheduled if the other can.
  abbrev pub Keeps : List ℕ → List ℕ → Type 0
  Keeps order order' =
      (length order' ≡ length order)
      × SameItems order' order
      × ((schedule_plan p order (vehicle_at p vi)).1 ≡ true
          → (schedule_plan p order' (vehicle_at p vi)).1 ≡ true)

  Keeps-trans : (a b c : List ℕ) → Keeps a b → Keeps b c → Keeps a c
  Keeps-trans a b c (l, s, f) (l', s', f') = (l' ∙ l, λ x. s' x ∙ s x, λ h. f' (f h))

  two_opt_try-Keeps :
      (i k : ℕ) (s : Tweak) → k < length s.order → Keeps s.order (two_opt_try p vi i k s).order
  unfolding two_opt_try reverse_segment
  two_opt_try-Keeps i k s h =
      let cand = reverse_segment i k s.order in
      let (size, same) = reverse_loop-keeps k i k s.order h in
      elim (Bool-cases (
        (schedule_plan p cand (vehicle_at p vi)).1
        && ((path_distance_nodes p cand ⊕ eps) ≺ path_distance_nodes p s.order))) [
          | inl e ↦ rw e (size, same, λ _. (and_true _ _ e).0)
          | inr e ↦ rw e (refl, λ x. refl, λ t. t)
        ]

  ends_loop-Keeps :
      (i m k : ℕ) (s : Tweak)
      → k + m ≤ length s.order
      → Keeps s.order (ends_loop p vi i m k s).order
  unfolding ends_loop
  ends_loop-Keeps i zero k s h = (refl, λ x. refl, λ t. t)
  ends_loop-Keeps i (suc m) k s h =
      let first = two_opt_try-Keeps i k s (omega arith) in
      Keeps-trans _ _ _ first
        (ends_loop-Keeps i m (suc k) (two_opt_try p vi i k s) (omega (arith, first.0)))

  pub starts_loop-Keeps :
      (n m i : ℕ) (s : Tweak)
      → length s.order ≡ n
      → m ≤ n - suc i
      → Keeps s.order (starts_loop p vi n m i s).order
  unfolding starts_loop
  starts_loop-Keeps n zero i s e h = (refl, λ x. refl, λ t. t)
  starts_loop-Keeps n (suc m) i s e h =
      let first = ends_loop-Keeps i (n - 1 - suc i) (suc i) s (omega arith) in
      Keeps-trans _ _ _ first (
        starts_loop-Keeps n m (suc i) (ends_loop p vi i (n - 1 - suc i) (suc i) s) (first.0 ∙ e)
          (omega arith))

  -- A step leaves the plan alone, or makes it shorter in a measure of lengths.
  module _ (rank : F → ℕ) (rank_lt : (x y : F) → ((x ⊕ eps) ≺ y) ≡ true → rank x < rank y) where
    abbrev Falls : Tweak → Tweak → Type 0
    Falls s s' =
        (s' ≡ s) ⊎ (rank (path_distance_nodes p s'.order) < rank (path_distance_nodes p s.order))

    Falls-trans : (a b c : Tweak) → Falls a b → Falls b c → Falls a c
    Falls-trans a b c (inl e) (inl f) = inl (f ∙ e)
    Falls-trans a b c (inl e) (inr f) = inr (rw (ap (λ t. t.order) e) at f)
    Falls-trans a b c (inr e) (inl f) = inr (rw f e)
    Falls-trans a b c (inr e) (inr f) = inr (omega arith)

    two_opt_try-Falls : (i k : ℕ) (s : Tweak) → Falls s (two_opt_try p vi i k s)
    unfolding two_opt_try
    two_opt_try-Falls i k s =
        let cand = reverse_segment i k s.order in
        elim (Bool-cases (
          (schedule_plan p cand (vehicle_at p vi)).1
          && ((path_distance_nodes p cand ⊕ eps) ≺ path_distance_nodes p s.order))) [
            | inl e ↦ rw e (inr (rank_lt _ _ (and_true _ _ e).1))
            | inr e ↦ rw e (inl refl)
          ]

    ends_loop-Falls : (i m k : ℕ) (s : Tweak) → Falls s (ends_loop p vi i m k s)
    unfolding ends_loop
    ends_loop-Falls i zero k s = inl refl
    ends_loop-Falls i (suc m) k s =
        Falls-trans _ _ _ (two_opt_try-Falls i k s)
          (ends_loop-Falls i m (suc k) (two_opt_try p vi i k s))

    starts_loop-Falls : (n m i : ℕ) (s : Tweak) → Falls s (starts_loop p vi n m i s)
    unfolding starts_loop
    starts_loop-Falls n zero i s = inl refl
    starts_loop-Falls n (suc m) i s =
        Falls-trans _ _ _ (ends_loop-Falls i (n - 1 - suc i) (suc i) s)
          (starts_loop-Falls n m (suc i) (ends_loop p vi i (n - 1 - suc i) (suc i) s))

    -- The loop `for improved` on a plan returns, given more fuel than the rank of the plan's length.
    pub two_opt_rounds-returns :
        (fuel : ℕ) (order : List ℕ)
        → rank (path_distance_nodes p order) < fuel
        → (order' : List ℕ) × (two_opt_rounds p vi fuel order ≡ some order') × Keeps order order'
    unfolding two_opt_rounds
    two_opt_rounds-returns zero order h = absurd (omega arith)
    two_opt_rounds-returns (suc fuel) order h =
        let n = length order in
        let start : Tweak = record { order = order; improved = false } in
        let done = starts_loop p vi n (n - 2 - 1) 1 start in
        let kept = starts_loop-Keeps n (n - 2 - 1) 1 start refl (omega arith) in
        elim (Bool-cases done.improved) [
          | inr e ↦ (done.order, rw e refl, kept)
          | inl e ↦ elim (starts_loop-Falls n (n - 2 - 1) 1 start) [
            | inl same ↦ absurd (false≢true (sym (ap (λ t. t.improved) same) ∙ e))
            | inr less ↦
                let (order', returns, kept') =
                  two_opt_rounds-returns fuel done.order (omega arith) in
                (order', rw e returns, Keeps-trans _ _ _ kept kept')
          ]
        ]
