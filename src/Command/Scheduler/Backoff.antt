-- ===== src/Command/Scheduler/Backoff.antt =====
-- The waits between retries: RetryBackoff * 2^(retryCount-1) in int64 (`retryOrFail` of
-- internal/pipeline/command/scheduler.go).
use native.Mathlib.Nat.{mod-eq_of_lt}
use openspace_os_core.Base.{ℕ, suc, ◌-◌, ◌*◌, ◌^◌, ◌≤◌, ◌<◌, ◌≡◌, ◌∙◌, pos, negsuc, arith}
use openspace_os_core.Command.Scheduler.{backoff, int64}

factor-le : (base n : ℕ) → 0 < base → 2 ^ n ≤ base * 2 ^ n
factor-le base n h = grind arith

backoff_bits :
    (base n : ℕ)
    → 0 < base
    → base * 2 ^ n < 2 ^ 64
    → backoff (pos base) (suc n) ≡ int64 (base * 2 ^ n)
unfolding backoff
backoff_bits base n h fits =
    let shift : suc n - 1 ≡ n = omega arith in
    let small : 2 ^ n < 2 ^ 64 = omega (arith, factor-le base n h) in
    rw (shift, mod-eq_of_lt small, mod-eq_of_lt fits)

-- While the product of a positive base and 2^n is below 2^63, the wait before retry n + 1 is exactly
-- that product.
pub backoff-exact :
    (base n : ℕ)
    → 0 < base
    → base * 2 ^ n < 2 ^ 63
    → backoff (pos base) (suc n) ≡ pos (base * 2 ^ n)
backoff-exact base n h fits = backoff_bits base n h (omega arith) ∙ ground arith

-- Once the product of a positive base and 2^n reaches 2^63, and is below 2^64, the wait before retry
-- n + 1 is negative.
pub backoff-overflow :
    (base n : ℕ)
    → 0 < base
    → 2 ^ 63 ≤ base * 2 ^ n
    → base * 2 ^ n < 2 ^ 64
    → backoff (pos base) (suc n) ≡ negsuc (2 ^ 64 - base * 2 ^ n - 1)
backoff-overflow base n h far fits = backoff_bits base n h fits ∙ ground arith
