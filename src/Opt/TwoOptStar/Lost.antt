-- ===== src/Opt/TwoOptStar/Lost.antt =====
-- What exchanging two segments does to the nodes: segments of one length change places; of two lengths,
-- the longer one overwrites a node of the other plan that nothing puts back.
use native.Mathlib.Numerals.{add-one}
use usps_main.Common.{
  ℕ, zero, suc, ◌+◌, ◌≤◌, ◌<◌, ◌≡◌, refl, sym, ap, ◌∙◌, List, [], ◌∷◌, ◌++◌, length, take, drop,
  get_or, length-take-le, arith,
}
use usps_main.Common.Count.{count, hit, count-append, count-take-drop}
use usps_main.Opt.Cross.Conserve.{Balanced}
use usps_main.Opt.TwoOptStar.{overwrite, splice, segment, exchange_segments}

-- What is written before the tail is not seen in the tail.
drop-overwrite :
    (i n : ℕ) (seg xs : List ℕ) → i + length seg ≤ n → drop n (overwrite i seg xs) ≡ drop n xs
unfolding overwrite
drop-overwrite i n [] xs h = refl
drop-overwrite i n (y ∷ seg) [] h = refl
drop-overwrite zero zero (y ∷ seg) (x ∷ xs) h = absurd (omega arith)
drop-overwrite zero (suc n) (y ∷ seg) (x ∷ xs) h = drop-overwrite zero n seg xs (omega arith)
drop-overwrite (suc i) zero (y ∷ seg) (x ∷ xs) h = absurd (omega arith)
drop-overwrite (suc i) (suc n) (y ∷ seg) (x ∷ xs) h = drop-overwrite i n (y ∷ seg) xs (omega arith)

-- A segment that is not longer than what it replaces takes its place.
count-splice :
    (x i la : ℕ) (xs seg : List ℕ)
    → length seg ≤ la
    → count x (splice xs i la seg) + count x (drop i xs)
      ≡ count x xs + count x seg + count x (drop (i + la) xs)
unfolding splice
count-splice x i la xs seg h = rw (drop-overwrite i (i + la) seg xs (omega arith)) (
    omega (
      arith,
      count-append x (take i xs) (seg ++ drop (i + la) xs),
      count-append x seg (drop (i + la) xs),
      count-take-drop x i xs,
    ))

drop-nil : (n : ℕ) → drop {A = ℕ} n [] ≡ []
drop-nil zero = refl
drop-nil (suc n) = refl

drop-drop : (i k : ℕ) (xs : List ℕ) → drop k (drop i xs) ≡ drop (i + k) xs
drop-drop zero k xs = ap (λ n. drop n xs) (omega arith)
drop-drop (suc i) k [] = drop-nil k ∙ sym (drop-nil (suc i + k))
drop-drop (suc i) k (x ∷ xs) =
    let shift : suc (i + k) ≡ suc i + k = omega arith in
    drop-drop i k xs ∙ ap (λ n. drop n (x ∷ xs)) shift

drop-cons : (i : ℕ) (xs : List ℕ) → i < length xs → drop i xs ≡ get_or xs i 0 ∷ drop (suc i) xs
drop-cons i [] h = absurd (omega arith)
drop-cons zero (x ∷ xs) h = refl
drop-cons (suc i) (x ∷ xs) h = drop-cons i xs (omega arith)

-- Two nodes written over one: the second one shows again at the head of the tail.
drop-overwrite_two :
    (i y0 y1 : ℕ) (xs : List ℕ)
    → suc i < length xs
    → drop (suc i) (overwrite i (y0 ∷ y1 ∷ []) xs) ≡ y1 ∷ drop (suc (suc i)) xs
unfolding overwrite
drop-overwrite_two i y0 y1 [] h = absurd (omega arith)
drop-overwrite_two zero y0 y1 (x ∷ []) h = absurd (omega arith)
drop-overwrite_two zero y0 y1 (x ∷ x' ∷ xs) h = refl
drop-overwrite_two (suc i) y0 y1 (x ∷ xs) h = drop-overwrite_two i y0 y1 xs (omega arith)

segment_two :
    (j : ℕ) (xs : List ℕ)
    → suc j < length xs
    → segment xs j 2 ≡ get_or xs j 0 ∷ get_or xs (suc j) 0 ∷ []
segment_two j xs h = rw (drop-cons j xs (omega arith)) (rw (drop-cons (suc j) xs h) refl)

segment_one : (i : ℕ) (xs : List ℕ) → i < length xs → segment xs i 1 ≡ get_or xs i 0 ∷ []
segment_one i xs h = rw (drop-cons i xs h) refl

count-splice_two :
    (x i y0 y1 : ℕ) (xs : List ℕ)
    → suc i < length xs
    → count x (splice xs i 1 (y0 ∷ y1 ∷ [])) + hit x (get_or xs i 0) + hit x (get_or xs (suc i) 0)
      ≡ count x xs + hit x y0 + hit x y1 + hit x y1
unfolding splice count
count-splice_two x i y0 y1 xs h =
    rw (add-one, drop-overwrite_two i y0 y1 xs h)
      (omega (
        arith,
        count-append x (take i xs) (y0 ∷ y1 ∷ y1 ∷ drop (suc (suc i)) xs),
        count-take-drop x i xs,
        ap (count x) (drop-cons i xs (omega arith)),
        ap (count x) (drop-cons (suc i) xs h),
      ))

count-segment :
    (x i la : ℕ) (xs : List ℕ)
    → count x (segment xs i la) + count x (drop (i + la) xs) ≡ count x (drop i xs)
count-segment x i la xs = rw (← drop-drop i la xs) (count-take-drop x la (drop i xs))

-- Segments of one length change places: the two candidates hold together what the two plans hold.
pub exchange_segments-Balanced :
    (pa pb : List ℕ) (i j la : ℕ) → Balanced pa pb (exchange_segments pa pb i j la la)
unfolding exchange_segments
exchange_segments-Balanced pa pb i j la x = omega (
  arith,
  count-splice x i la pa (segment pb j la) (length-take-le la (drop j pb)),
  count-splice x j la pb (segment pa i la) (length-take-le la (drop i pa)),
  count-segment x i la pa,
  count-segment x j la pb,
)

-- One node for two: where a node follows the one at i, the left candidate has the second of the two
-- nodes twice, and the node behind i is in neither candidate's share.
pub exchange_segments-lost :
    (pa pb : List ℕ) (i j : ℕ)
    → suc i < length pa
    → suc j < length pb
    → let c = exchange_segments pa pb i j 1 2 in
      (x : ℕ)
      → count x c.left + count x c.right + hit x (get_or pa (suc i) 0)
        ≡ count x pa + count x pb + hit x (get_or pb (suc j) 0)
unfolding exchange_segments count
exchange_segments-lost pa pb i j h k x = rw (segment_two j pb k) (
    omega (
      arith,
      count-splice_two x i (get_or pb j 0) (get_or pb (suc j) 0) pa h,
      count-splice x j 2 pb (segment pa i 1) (omega (arith, length-take-le 1 (drop i pa))),
      ap (count x) (segment_one i pa (omega arith)),
      ap (count x) (segment_two j pb k),
      count-segment x j 2 pb,
    ))
