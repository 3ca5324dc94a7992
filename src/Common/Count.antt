-- ===== src/Common/Count.antt =====
-- How often a number stands in a list, and what the list operations do to that.
use Prim.Native.Nat.{ℕ, zero, suc, ◌+◌, ◌≤◌, ◌<◌}
use mathlib.Core.Path.{◌≡◌, refl}
use mathlib.Core.Bool.{Bool, true, false}
use mathlib.Core.List.{List, [], ◌∷◌, ◌++◌}
use native.Mathlib.Omega.{arith}
use usps_main.Common.Tests.{◌==◌, if◌then◌else◌}
use usps_main.Common.Lists.{length, get_or, set, take, drop, remove_at, insert_at, keep}

-- 1 if the numbers are the same, 0 otherwise.
unfoldable pub hit : ℕ → ℕ → ℕ
hit a x = if a == x then 1 else 0

unfoldable pub count : ℕ → List ℕ → ℕ
count a [] = 0
count a (x ∷ xs) = hit a x + count a xs

-- The two lists hold the same numbers, each as often.
abbrev pub SameItems : List ℕ → List ℕ → Type 0
SameItems xs ys = (a : ℕ) → count a xs ≡ count a ys

pub count-append : (a : ℕ) (xs ys : List ℕ) → count a (xs ++ ys) ≡ count a xs + count a ys
unfolding count
count-append a [] ys = omega arith
count-append a (x ∷ xs) ys = omega (arith, count-append a xs ys)

pub count-take-drop :
    (a n : ℕ) (xs : List ℕ) → count a (take n xs) + count a (drop n xs) ≡ count a xs
unfolding count
count-take-drop a zero xs = omega arith
count-take-drop a (suc n) [] = omega arith
count-take-drop a (suc n) (x ∷ xs) = omega (arith, count-take-drop a n xs)

pub count-remove_at :
    (a i : ℕ) (xs : List ℕ)
    → i < length xs
    → count a xs ≡ hit a (get_or xs i 0) + count a (remove_at i xs)
unfolding count
count-remove_at a i [] h = elim h [ ]
count-remove_at a zero (x ∷ xs) h = omega arith
count-remove_at a (suc i) (x ∷ xs) h = omega (arith, count-remove_at a i xs (omega arith))

pub count-insert_at : (a i y : ℕ) (xs : List ℕ) → count a (insert_at i y xs) ≡ hit a y + count a xs
unfolding count
count-insert_at a zero y xs = omega arith
count-insert_at a (suc i) y [] = omega arith
count-insert_at a (suc i) y (x ∷ xs) = omega (arith, count-insert_at a i y xs)

pub hit_self : (a : ℕ) → hit a a ≡ 1
unfolding hit
hit_self a = ground arith

pub hit_ne : (a x : ℕ) → (a ≡ x → ⊥) → hit a x ≡ 0
unfolding hit
hit_ne a x h = ground arith

pub hit_le : (a x : ℕ) → hit a x ≤ 1
unfolding hit
hit_le a x = ground arith

-- Whether a list holds a number.
unfoldable pub mem : ℕ → List ℕ → Bool
mem a [] = false
mem a (x ∷ xs) = if a == x then true else mem a xs

pub count-mem : (a : ℕ) (xs : List ℕ) → mem a xs ≡ true → 0 < count a xs
unfolding count mem hit
count-mem a [] h = absurd (ground arith)
count-mem a (x ∷ xs) h = ground (arith, count-mem a xs)

pub count-not_mem : (a : ℕ) (xs : List ℕ) → mem a xs ≡ false → count a xs ≡ 0
unfolding count mem hit
count-not_mem a [] h = refl
count-not_mem a (x ∷ xs) h = ground (arith, count-not_mem a xs)

-- Keeping what a list lacks.
pub count-keep :
    (a : ℕ) (p : ℕ → Bool) (xs : List ℕ) → count a (keep p xs) ≡ (if p a then count a xs else 0)
unfolding count hit
count-keep a p [] = ground arith
count-keep a p (x ∷ xs) = ground (arith, count-keep a p xs)

pub count-set :
    (a i v : ℕ) (xs : List ℕ)
    → i < length xs
    → count a (set xs i v) + hit a (get_or xs i 0) ≡ count a xs + hit a v
unfolding count
count-set a i v [] h = elim h [ ]
count-set a zero v (x ∷ xs) h = omega arith
count-set a (suc i) v (x ∷ xs) h = omega (arith, count-set a i v xs (omega arith))
