-- ===== src/Webhooks/Backoff.antt =====
-- The waiting time between two tries.
use usps_main.Common.{ℕ, suc, ◌*◌, ◌^◌, ◌≤◌, ◌<◌, ◌≡◌, ap, ◌∙◌, ℤ, pos, negsuc, arith}
use native.Mathlib.Omega.{pow_step}
use native.Mathlib.Nat.{one-le-pow, pow-le-pow_right}
use usps_main.Webhooks.{clamp_attempts, next_backoff, second}

two_pow_le_ten : (n : ℕ) → n ≤ 10 → (1 ≤ 2 ^ n) × (2 ^ n ≤ 1_024)
two_pow_le_ten n le = (one-le-pow n 2 (omega arith), pow-le-pow_right {n = 2} (omega arith) le)

clamp_attempts-le : (n : ℤ) → clamp_attempts n ≤ 10
unfolding clamp_attempts
clamp_attempts-le (pos n) = ground arith
clamp_attempts-le (negsuc n) = omega arith

-- The cap of an hour plays no part.
next_backoff-eq : (n : ℤ) → next_backoff n ≡ second * 2 ^ clamp_attempts n
unfolding next_backoff
next_backoff-eq n = ground (arith, two_pow_le_ten (clamp_attempts n) (clamp_attempts-le n))

clamp_attempts-pos : (k : ℕ) → k ≤ 10 → clamp_attempts (pos k) ≡ k
unfolding clamp_attempts
clamp_attempts-pos k le = ground arith

next_backoff-pos : (k : ℕ) → k ≤ 10 → next_backoff (pos k) ≡ second * 2 ^ k
next_backoff-pos k le = next_backoff-eq (pos k) ∙ ap (λ i. second * 2 ^ i) (clamp_attempts-pos k le)

-- The waiting time lies between one second and 1,024 seconds, so that the cap of an hour is never
-- reached; it doubles with each of the first ten attempts.
pub next_backoff-bounds :
    (n : ℤ) (k : ℕ)
    → k < 10
    → (second ≤ next_backoff n)
      × (next_backoff n ≤ 1_024 * second)
      × (next_backoff (pos (suc k)) ≡ 2 * next_backoff (pos k))
next_backoff-bounds n k lt =
    let p = two_pow_le_ten (clamp_attempts n) (clamp_attempts-le n) in
    (
      omega (arith, next_backoff-eq n, p.0),
      omega (arith, next_backoff-eq n, p.1),
      omega (
        arith,
        next_backoff-pos k (omega arith),
        next_backoff-pos (suc k) (omega arith),
        pow_step 2 k,
      ),
    )
