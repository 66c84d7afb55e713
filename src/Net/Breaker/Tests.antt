-- ===== src/Net/Breaker/Tests.antt =====
-- Runs of the breaker of pkg/net/breaker.go, and its theorems at concrete inputs.
use go_backend_core.Prelude.{◌≤◌, ◌≡◌, refl, ◌↔◌, true, false, [], ◌∷◌, arith, All}
use go_backend_core.Prelude.Int.{pos, wrap32, ◌+ℤ◌}
use go_backend_core.Net.Breaker.{
  CircuitBreaker, CircuitBreakerConfig, closed, opened, allows, succeeds, fails,
  new_circuit_breaker, allow, success, failure, run, step,
}
use go_backend_core.Net.Breaker.Machine.{tripped, passing, moves}
use go_backend_core.Net.Breaker.Refinement.{Refines, IsThreshold, breaker_follows_machine}
use go_backend_core.Net.Breaker.Trip.{
  repeated, failures_open_iff, successes_close_iff, opened_rejects,
}

-- A breaker that opened at instant 100, with thresholds 2 and 1 and a timeout of 50.
abbrev tripped_breaker : CircuitBreaker
tripped_breaker = record {
  state = opened;
  failure_count = pos 2;
  success_count = pos 0;
  failure_threshold = pos 2;
  success_threshold = pos 1;
  timeout = pos 50;
  last_failure = 100;
  half_open_done = false;
}

abbrev small_config : CircuitBreakerConfig
small_config = record { failure_threshold = pos 2; success_threshold = pos 1; timeout = pos 50 }

abbrev two : IsThreshold 2
two = record { positive = omega arith; fits = omega arith }

abbrev one : IsThreshold 1
one = record { positive = omega arith; fits = omega arith }

abbrev tripped_breaker-Refines : Refines 2 1 (pos 50) tripped_breaker (tripped 100)
tripped_breaker-Refines = record {
  failure_limit = refl;
  success_limit = refl;
  same_timeout = refl;
  shows = (refl, refl);
}

trial_and_error :
    (run (new_circuit_breaker small_config) (
      (10, allows)
      ∷ (20, fails)
      ∷ (30, fails)
      ∷ (60, allows)
      ∷ (81, allows)
      ∷ (90, succeeds)
      ∷ (95, allows)
      ∷ [])).1
    ≡ true ∷ false ∷ true ∷ true ∷ []
unfolding run step allow success failure new_circuit_breaker wrap32 ◌+ℤ◌
trial_and_error = refl

breaker_follows_machine_example :
    let cb = new_circuit_breaker small_config in
    Refines 2 1
      (pos 50)
      (run cb ((1, fails) ∷ (2, allows) ∷ [])).0
      (moves 2 1 (pos 50) (passing 0) ((1, fails) ∷ (2, allows) ∷ [])).0
    × ((run cb ((1, fails) ∷ (2, allows) ∷ [])).1
        ≡ (moves 2 1 (pos 50) (passing 0) ((1, fails) ∷ (2, allows) ∷ [])).1)
breaker_follows_machine_example =
    breaker_follows_machine 2 1 (pos 50) ((1, fails) ∷ (2, allows) ∷ []) two one

failures_open_iff_example :
    ((run (new_circuit_breaker small_config) (repeated fails (1 ∷ 2 ∷ []))).0.state ≡ opened)
    ↔ (2 ≤ 2)
failures_open_iff_example = failures_open_iff 2 1 (pos 50) (1 ∷ 2 ∷ []) two one

successes_close_iff_example :
    ((run tripped_breaker ((151, allows) ∷ repeated succeeds (152 ∷ []))).0.state ≡ closed)
    ↔ (1 ≤ 1)
successes_close_iff_example =
    successes_close_iff 2 1 (pos 50) tripped_breaker 100 151 (152 ∷ []) two one
      tripped_breaker-Refines (omega arith)

opened_rejects_example :
    All (λ b. b ≡ false) (run tripped_breaker ((120, allows) ∷ (150, fails) ∷ [])).1
    × ((run tripped_breaker ((120, allows) ∷ (150, fails) ∷ [])).0.state ≡ opened)
    × ((run tripped_breaker ((120, allows) ∷ (150, fails) ∷ [])).0.last_failure ≡ 100)
opened_rejects_example =
    opened_rejects tripped_breaker ((120, allows) ∷ (150, fails) ∷ []) refl
      (((λ e. cc), omega arith), (((λ e. cc), omega arith), tt))
