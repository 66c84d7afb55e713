-- ===== src/Net/Retry.antt =====
-- pkg/net/retry.go: the retry loop and its waiting times. The retried function, the wait on the
-- context or the timer and the random part of a wait are parameters.
pub mod Backoff
pub mod Attempts
mod Tests
use go_backend_core.Prelude.{ℕ, zero, suc, ◌^◌, Option, none, some, if◌then◌else◌}
use go_backend_core.Prelude.Int.{ℤ, pos, pos_part, ◌+ℤ◌, ◌*ℤ◌, ltb_ℤ, wrap64}

-- `other` is any further value of the Go type.
pub data BackoffStrategy : Type 0 where
  fixed exponential exponential_with_jitter other : BackoffStrategy

pub record RetryConfig : Type 0 where
  pub max_attempts : ℤ
  pub strategy : BackoffStrategy
  pub base_wait : ℤ
  pub max_wait : ℤ

abbrev pub default_retry_config : RetryConfig
default_retry_config = record {
  max_attempts = pos 3;
  strategy = exponential_with_jitter;
  base_wait = pos 500000000;
  max_wait = pos 30000000000;
}

-- `1 << uint(attempt-1)` in an int64: at attempt 0 the shift is by 2^64 - 1 places, which leaves 0.
shifted : ℕ → ℤ
shifted zero = pos 0
shifted (suc n) = wrap64 (pos (2 ^ n))

-- `config.BaseWait * (1 << uint(attempt-1))`, cut at the maximum.
capped : RetryConfig → ℕ → ℤ
unfolding shifted
capped config attempt =
    let wait = wrap64 (config.base_wait *ℤ shifted attempt) in
    if ltb_ℤ config.max_wait wait then config.max_wait else wait

backoff_by : BackoffStrategy → (ℤ → ℤ) → RetryConfig → ℕ → ℤ
unfolding capped
backoff_by fixed jitter config attempt = config.base_wait
backoff_by exponential jitter config attempt = capped config attempt
backoff_by exponential_with_jitter jitter config attempt =
    let wait = capped config attempt in wrap64 (wait +ℤ jitter wait)
backoff_by other jitter config attempt = config.base_wait

unfoldable pub calculate_backoff : (ℤ → ℤ) → RetryConfig → ℕ → ℤ
unfolding backoff_by
calculate_backoff jitter config attempt = backoff_by config.strategy jitter config attempt

pub data RetryError (E : Type 0) : Type 0 where
  canceled : E → RetryError E
  -- The number of attempts and the last error, which is missing if there was no attempt.
  exhausted : ℤ → Option E → RetryError E

-- `pause` ends by the timer, or with the context's error.
module _ {W E : Type 0} (jitter : ℤ → ℤ) (pause : W → ℤ → W × Option E) (fn : W → W × Option E)
    (config : RetryConfig) where
  -- The wait before an attempt; there is none before the first.
  before : ℕ → W → W × Option E
  before zero w = (w, none)
  before (suc n) w = pause w (calculate_backoff jitter config (suc n))

  -- `left` rounds of the loop, from `attempt` on.
  unfoldable pub attempts : ℕ → ℕ → Option E → W → W × Option (RetryError E)
  unfolding before
  attempts zero attempt last w = (w, some (exhausted config.max_attempts last))
  attempts (suc left) attempt last w =
      let (w', stopped) = before attempt w in
      let (w'', failed) = fn w' in
      elim stopped [
        | some e ↦ (w', some (canceled e))
        | none ↦ elim failed [
          | some e ↦ attempts left (suc attempt) (some e) w''
          | none ↦ (w'', none)
        ]
      ]

  unfoldable pub retry : W → W × Option (RetryError E)
  unfolding attempts
  retry w = attempts (pos_part config.max_attempts) 0 none w
