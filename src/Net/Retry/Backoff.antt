-- ===== src/Net/Retry/Backoff.antt =====
-- The waiting times of pkg/net/retry.go: their bounds, and where they overflow.
use go_backend_core.Prelude.{
  ℕ, zero, suc, ◌+◌, ◌-◌, ◌*◌, ◌^◌, ◌≤◌, ◌<◌, ◌≡◌, refl, arith, min, if◌then◌else◌,
}
use go_backend_core.Prelude.Int.{ℤ, pos, half64, wrap64, wrap64_pos, ◌+ℤ◌, ◌*ℤ◌, ◌<ℤ◌, ltb_ℤ}
use go_backend_core.Net.Retry.{
  BackoffStrategy, fixed, exponential, exponential_with_jitter, other, RetryConfig,
  calculate_backoff, capped, shifted,
}

-- A wait that does not overflow, with its factor.
times_pos : (a b : ℕ) → pos a *ℤ pos b ≡ pos (a * b)
unfolding ◌*ℤ◌
times_pos a b = ground arith

plus_pos : (a b : ℕ) → a + b < half64 → wrap64 (pos a +ℤ pos b) ≡ pos (a + b)
unfolding ◌+ℤ◌ wrap64
plus_pos a b h = ground arith

shifted_lem : (n : ℕ) → 2 ^ n < half64 → shifted (suc n) ≡ pos (2 ^ n)
unfolding shifted
shifted_lem n h = wrap64_pos (2 ^ n) h

-- The wait before attempt `n` is `base * 2 ^ (n - 1)` nanoseconds, and at most `limit`.
capped_lem :
    (config : RetryConfig) (base limit n : ℕ)
    → config.base_wait ≡ pos base
    → config.max_wait ≡ pos limit
    → 0 < n
    → 2 ^ (n - 1) < half64
    → base * 2 ^ (n - 1) < half64
    → capped config n ≡ pos (min (base * 2 ^ (n - 1)) limit)
unfolding capped
capped_lem config base limit zero b m first p h = absurd (omega arith)
capped_lem config base limit (suc n) b m first p h =
    let same : suc n - 1 ≡ n = omega arith in
    let first' : 2 ^ n < half64 = rw same at p in
    let doubled : base * 2 ^ n < half64 = rw same at h in
    rw (b, m, same, shifted_lem n first', times_pos base (2 ^ n), wrap64_pos (base * 2 ^ n) doubled)
      (ground arith)

wrapped_negative :
    (x limit : ℕ)
    → half64 ≤ x
    → x < 2 * half64
    → let wait = wrap64 (pos x) in (if ltb_ℤ (pos limit) wait then pos limit else wait) <ℤ pos 0
unfolding wrap64
wrapped_negative x limit low high = ground arith

-- What the random part is: at least nothing and at most half of the wait.
abbrev pub IsJitter : (ℤ → ℤ) → Type 0
IsJitter jitter = (w : ℕ) → (j : ℕ) × (jitter (pos w) ≡ pos j) × (2 * j ≤ w)

-- The wait that a strategy promises: the base exactly, or the doubled wait cut at the limit, to
-- which jitter adds at most half.
abbrev pub Promises : BackoffStrategy → ℕ → ℕ → ℕ → ℤ → Type 0
Promises fixed base limit n wait = wait ≡ pos base
Promises exponential base limit n wait = wait ≡ pos (min (base * 2 ^ (n - 1)) limit)
Promises exponential_with_jitter base limit n wait =
    (j : ℕ) × (wait ≡ pos (min (base * 2 ^ (n - 1)) limit + j))
    × (2 * j ≤ min (base * 2 ^ (n - 1)) limit)
Promises other base limit n wait = wait ≡ pos base

promise :
    (jitter : ℤ → ℤ) (config : RetryConfig) (s : BackoffStrategy) (base limit n : ℕ)
    → IsJitter jitter
    → config.strategy ≡ s
    → config.base_wait ≡ pos base
    → config.max_wait ≡ pos limit
    → 3 * limit < 2 * half64
    → 0 < n
    → 2 ^ (n - 1) < half64
    → base * 2 ^ (n - 1) < half64
    → Promises s base limit n (calculate_backoff jitter config n)
unfolding calculate_backoff
promise jitter config fixed base limit n law s b m l first p h = ground arith
promise jitter config exponential base limit n law s b m l first p h =
    ground (arith, capped_lem config base limit n b m first p h)
promise jitter config exponential_with_jitter base limit n law s b m l first p h =
    let c = min (base * 2 ^ (n - 1)) limit in
    let (j, e, half) = law c in
    (j, rw (s, capped_lem config base limit n b m first p h, e) (plus_pos c j (omega arith)), half)
promise jitter config other base limit n law s b m l first p h = ground arith

-- Before attempt `n`, counted from 1, the wait is what the strategy promises, for a base and a limit
-- that are not negative, if neither the power of two nor the doubled base overflows an int64, the
-- limit leaves room for the jitter, and the jitter is between nothing and half of the wait.
pub calculate_backoff-Promises :
    (jitter : ℤ → ℤ) (config : RetryConfig) (base limit n : ℕ)
    → IsJitter jitter
    → config.base_wait ≡ pos base
    → config.max_wait ≡ pos limit
    → 3 * limit < 2 * half64
    → 0 < n
    → 2 ^ (n - 1) < half64
    → base * 2 ^ (n - 1) < half64
    → Promises config.strategy base limit n (calculate_backoff jitter config n)
calculate_backoff-Promises jitter config base limit n law b m l first p h =
    promise jitter config config.strategy base limit n law refl b m l first p h

-- Once the doubled base reaches 2^63 at an attempt counted from 1, and until it reaches 2^64, the
-- exponential wait is negative, so the cap does not apply and the timer fires at once. The power of
-- two itself does not overflow, and the base and the limit are not negative.
pub exponential_overflow :
    (jitter : ℤ → ℤ) (config : RetryConfig) (base limit n : ℕ)
    → config.strategy ≡ exponential
    → config.base_wait ≡ pos base
    → config.max_wait ≡ pos limit
    → 0 < n
    → 2 ^ (n - 1) < half64
    → half64 ≤ base * 2 ^ (n - 1)
    → base * 2 ^ (n - 1) < 2 * half64
    → calculate_backoff jitter config n <ℤ pos 0
unfolding calculate_backoff capped
exponential_overflow jitter config base limit zero s b m first p low high = absurd (omega arith)
exponential_overflow jitter config base limit (suc n) s b m first p low high =
    let same : suc n - 1 ≡ n = omega arith in
    let first' : 2 ^ n < half64 = rw same at p in
    rw (s, b, shifted_lem n first', times_pos base (2 ^ n), m)
      (wrapped_negative (base * 2 ^ n) limit (rw same at low) (rw same at high))
