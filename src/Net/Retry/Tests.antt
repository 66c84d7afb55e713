-- ===== src/Net/Retry/Tests.antt =====
-- Runs of pkg/net/retry.go, and its theorems at concrete inputs.
use go_backend_core.Prelude.{ℕ, ◌/◌, ◌≡◌, refl, none, some, [], ◌∷◌, arith}
use go_backend_core.Prelude.Int.{ℤ, pos, pos_part, ◌<ℤ◌, ◌+ℤ◌, ◌*ℤ◌, wrap64}
use go_backend_core.Net.Retry.{
  RetryConfig, exponential, exponential_with_jitter, calculate_backoff, capped, canceled, exhausted,
  retry, default_retry_config,
}
use go_backend_core.Net.Retry.Backoff.{
  IsJitter, Promises, calculate_backoff-Promises, exponential_overflow,
}
use go_backend_core.Net.Retry.Attempts.{
  script, call, pause, backoffs, retry_succeeds, retry_exhausts, retry_cancels,
}

-- Half of the wait, the most that the jitter may add.
abbrev half : ℤ → ℤ
half w = pos (pos_part w / 2)

half-IsJitter : IsJitter half
half-IsJitter w = (w / 2, refl, omega arith)

abbrev doubling : RetryConfig
doubling = record {
  max_attempts = pos 3;
  strategy = exponential;
  base_wait = pos 500000000;
  max_wait = pos 30000000000;
}

third_wait : calculate_backoff half default_retry_config 2 ≡ pos 1500000000
unfolding calculate_backoff capped wrap64 ◌+ℤ◌ ◌*ℤ◌
third_wait = refl

calculate_backoff-Promises_example :
    Promises exponential_with_jitter 500000000 30000000000 9
      (calculate_backoff half default_retry_config 9)
calculate_backoff-Promises_example =
    calculate_backoff-Promises half default_retry_config 500000000 30000000000 9 half-IsJitter refl
      refl (omega arith) (omega arith) (omega arith) (omega arith)

exponential_overflow_example : calculate_backoff half doubling 36 <ℤ pos 0
exponential_overflow_example =
    exponential_overflow half doubling 500000000 30000000000 36 refl refl refl (omega arith)
      (omega arith) (omega arith) (omega arith)

retry_succeeds_test :
    retry {E = ℕ} half pause call doubling (script (some 7 ∷ none ∷ []) [] [])
    ≡ (script [] [] (backoffs half doubling 1 1), none)
retry_succeeds_test = retry_succeeds half doubling (7 ∷ []) [] (omega arith)

retry_exhausts_example :
    retry {E = ℕ} half pause call doubling (script (some 7 ∷ some 8 ∷ some 9 ∷ none ∷ []) [] [])
    ≡ (script (none ∷ []) [] (backoffs half doubling 1 2), some (exhausted (pos 3) (some 9)))
retry_exhausts_example = retry_exhausts half doubling 7 (8 ∷ 9 ∷ []) (none ∷ []) refl

retry_cancels_test :
    retry {E = ℕ} half pause call doubling (script (some 7 ∷ none ∷ []) (some 5 ∷ []) [])
    ≡ (script (none ∷ []) [] (backoffs half doubling 1 1), some (canceled 5))
retry_cancels_test = retry_cancels half doubling 7 5 [] (none ∷ []) [] (omega arith)
