-- ===== src/Net/Breaker.antt =====
-- pkg/net/breaker.go: the circuit breaker. Each method is one step, an instant is the number of
-- nanoseconds since the epoch, and the channel `halfOpenDone` is the fact that it is not nil.
pub mod Machine
pub mod Refinement
pub mod Trip
mod Tests
use go_backend_core.Prelude.{ℕ, Bool, true, false, List, [], ◌∷◌, ◌++◌, if◌then◌else◌}
use go_backend_core.Prelude.Int.{ℤ, pos, sub_ℕ, ◌+ℤ◌, ltb_ℤ, leb_ℤ, wrap32}

pub data State : Type 0 where
  closed opened half_open : State

pub record CircuitBreaker : Type 0 where
  pub state : State
  pub failure_count : ℤ
  pub success_count : ℤ
  pub failure_threshold : ℤ
  pub success_threshold : ℤ
  pub timeout : ℤ
  pub last_failure : ℕ
  pub half_open_done : Bool

pub record CircuitBreakerConfig : Type 0 where
  pub failure_threshold : ℤ
  pub success_threshold : ℤ
  pub timeout : ℤ

abbrev pub default_circuit_breaker_config : CircuitBreakerConfig
default_circuit_breaker_config = record {
  failure_threshold = pos 5;
  success_threshold = pos 2;
  timeout = pos 30000000000;
}

unfoldable pub new_circuit_breaker : CircuitBreakerConfig → CircuitBreaker
new_circuit_breaker cfg = record {
  state = closed;
  failure_count = pos 0;
  success_count = pos 0;
  failure_threshold = wrap32 cfg.failure_threshold;
  success_threshold = wrap32 cfg.success_threshold;
  timeout = cfg.timeout;
  last_failure = 0;
  half_open_done = false;
}

allow_in : State → CircuitBreaker → ℕ → CircuitBreaker × Bool
allow_in closed cb now = (cb, true)
allow_in opened cb now =
    if ltb_ℤ cb.timeout (sub_ℕ now cb.last_failure)
    then (record cb { state = half_open; success_count = pos 0; half_open_done = true }, true)
    else (cb, false)
allow_in half_open cb now = (cb, true)

unfoldable pub allow : CircuitBreaker → ℕ → CircuitBreaker × Bool
unfolding allow_in
allow cb now = allow_in cb.state cb now

success_in : State → CircuitBreaker → CircuitBreaker
success_in half_open cb =
    let count = wrap32 (cb.success_count +ℤ pos 1) in
    if leb_ℤ cb.success_threshold count
    then record cb {
      state = closed;
      failure_count = pos 0;
      success_count = pos 0;
      half_open_done = false;
    }
    else record cb { success_count = count }
success_in closed cb = record cb { failure_count = pos 0 }
success_in opened cb = cb

unfoldable pub success : CircuitBreaker → CircuitBreaker
unfolding success_in
success cb = success_in cb.state cb

-- The compare-and-swap from closed to open fails in the open state.
failure_in : State → CircuitBreaker → ℕ → ℤ → CircuitBreaker
failure_in half_open cb now count = record cb {
  state = opened;
  last_failure = now;
  failure_count = pos 0;
  half_open_done = false;
}
failure_in closed cb now count =
    if leb_ℤ cb.failure_threshold count
    then record cb { failure_count = count; state = opened; last_failure = now }
    else record cb { failure_count = count }
failure_in opened cb now count = record cb { failure_count = count }

unfoldable pub failure : CircuitBreaker → ℕ → CircuitBreaker
unfolding failure_in
failure cb now = failure_in cb.state cb now (wrap32 (cb.failure_count +ℤ pos 1))

unfoldable pub reset : CircuitBreaker → CircuitBreaker
reset cb = record cb { state = closed; failure_count = pos 0; success_count = pos 0 }

pub data Call : Type 0 where
  allows succeeds fails resets : Call

-- One call at an instant; only `Allow` answers.
unfoldable pub step : CircuitBreaker → ℕ → Call → CircuitBreaker × List Bool
step cb now allows = let (cb', ok) = allow cb now in (cb', ok ∷ [])
step cb now succeeds = (success cb, [])
step cb now fails = (failure cb now, [])
step cb now resets = (reset cb, [])

-- Calls one after another, with the answers of `Allow` in order.
unfoldable pub run : CircuitBreaker → List (ℕ × Call) → CircuitBreaker × List Bool
run cb [] = (cb, [])
run cb ((now, c) ∷ cs) =
    let (cb', answers) = step cb now c in let (last, rest) = run cb' cs in (last, answers ++ rest)
