-- ===== src/Net/Breaker/Refinement.antt =====
-- The breaker of pkg/net/breaker.go follows the state diagram of Machine.
use mathlib.Core.Path.{ap₂}
use go_backend_core.Prelude.{ℕ, suc, ◌<◌, ◌≡◌, refl, List, [], ◌∷◌, ◌++◌, arith}
use go_backend_core.Prelude.Int.{ℤ, pos, half32, wrap32, wrap32_pos, ◌+ℤ◌}
use go_backend_core.Net.Breaker.{
  CircuitBreaker, closed, opened, half_open, Call, allows, succeeds, fails, resets,
  new_circuit_breaker, allow, success, failure, reset, step, run,
}
use go_backend_core.Net.Breaker.Machine.{Phase, passing, tripped, trying, move, moves}

-- What the fields must be in a phase. In the open state the counters are free.
abbrev Shows : ℕ → ℕ → CircuitBreaker → Phase → Type 0
Shows failures successes cb (passing n) =
    (cb.state ≡ closed) × (cb.failure_count ≡ pos n) × (n < failures)
Shows failures successes cb (tripped t) = (cb.state ≡ opened) × (cb.last_failure ≡ t)
Shows failures successes cb (trying n) =
    (cb.state ≡ half_open) × (cb.success_count ≡ pos n) × (n < successes)

pub record Refines (failures successes : ℕ) (timeout : ℤ) (cb : CircuitBreaker) (p : Phase)
    : Type 0 where
  pub failure_limit : cb.failure_threshold ≡ pos failures
  pub success_limit : cb.success_threshold ≡ pos successes
  pub same_timeout : cb.timeout ≡ timeout
  pub shows : Shows failures successes cb p

pub record IsThreshold (n : ℕ) : Type 0 where
  pub positive : 0 < n
  pub fits : n < half32

count_up : (n limit : ℕ) → n < limit → limit < half32 → wrap32 (pos n +ℤ pos 1) ≡ pos (suc n)
unfolding ◌+ℤ◌ wrap32
count_up n limit h k = ground arith

module _ (failures successes : ℕ) (timeout : ℤ) where
  new-Refines :
      IsThreshold failures
      → IsThreshold successes
      → Refines failures successes timeout
          (new_circuit_breaker (record {
            failure_threshold = pos failures;
            success_threshold = pos successes;
            timeout = timeout;
          }))
          (passing 0)
  unfolding new_circuit_breaker
  new-Refines f s = record {
    failure_limit = wrap32_pos failures f.fits;
    success_limit = wrap32_pos successes s.fits;
    same_timeout = refl;
    shows = (refl, refl, f.positive);
  }

  -- One call keeps the refinement and gives the machine's answer.
  pub step-Refines :
      (cb : CircuitBreaker) (p : Phase) (now : ℕ) (c : Call)
      → IsThreshold failures
      → IsThreshold successes
      → Refines failures successes timeout cb p
      → Refines failures successes timeout
          (step cb now c).0
          (move failures successes timeout p now c).0
        × ((step cb now c).1 ≡ (move failures successes timeout p now c).1)
  unfolding step move allow success failure reset
  step-Refines cb (passing n) now allows f s r = ground arith
  step-Refines cb (passing n) now succeeds f s r = ground arith
  step-Refines cb (passing n) now fails f s r = ground (arith, count_up n failures r.shows.2 f.fits)
  step-Refines cb (passing n) now resets f s r = ground arith
  step-Refines cb (tripped t) now allows f s r = ground arith
  step-Refines cb (tripped t) now succeeds f s r = ground arith
  step-Refines cb (tripped t) now fails f s r = ground arith
  step-Refines cb (tripped t) now resets f s r = ground arith
  step-Refines cb (trying n) now allows f s r = ground arith
  step-Refines cb (trying n) now succeeds f s r =
      ground (arith, count_up n successes r.shows.2 s.fits)
  step-Refines cb (trying n) now fails f s r = ground arith
  step-Refines cb (trying n) now resets f s r = ground arith

  pub run-Refines :
      (cb : CircuitBreaker) (p : Phase) (cs : List (ℕ × Call))
      → IsThreshold failures
      → IsThreshold successes
      → Refines failures successes timeout cb p
      → Refines failures successes timeout (run cb cs).0 (moves failures successes timeout p cs).0
        × ((run cb cs).1 ≡ (moves failures successes timeout p cs).1)
  unfolding run moves
  run-Refines cb p [] f s r = (r, refl)
  run-Refines cb p ((now, c) ∷ cs) f s r =
      let (r', answers) = step-Refines cb p now c f s r in
      let (last, rest) =
        run-Refines (step cb now c).0 (move failures successes timeout p now c).0 cs f s r' in
      (last, ap₂ ◌++◌ answers rest)

-- From the constructor on, whatever calls arrive and whenever they do, every answer of Allow is
-- the one that the state diagram gives, and the breaker shows the diagram's phase. Both
-- thresholds are positive and fit an int32.
pub breaker_follows_machine :
    (failures successes : ℕ) (timeout : ℤ) (cs : List (ℕ × Call))
    → IsThreshold failures
    → IsThreshold successes
    → let cb = new_circuit_breaker (record {
      failure_threshold = pos failures;
      success_threshold = pos successes;
      timeout = timeout;
    }) in
      Refines failures successes timeout
        (run cb cs).0
        (moves failures successes timeout (passing 0) cs).0
      × ((run cb cs).1 ≡ (moves failures successes timeout (passing 0) cs).1)
breaker_follows_machine failures successes timeout cs f s =
    run-Refines failures successes timeout _ (passing 0) cs f s
      (new-Refines failures successes timeout f s)
