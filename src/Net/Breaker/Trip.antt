-- ===== src/Net/Breaker/Trip.antt =====
-- When the breaker of pkg/net/breaker.go opens, how long it stays open and when it closes again.
use go_backend_core.Prelude.{
  ℕ, suc, ◌+◌, ◌≤◌, ◌<◌, ◌≡◌, refl, ◌≢◌, ◌↔◌, false, List, [], ◌∷◌, ◌∙◌, map, arith, length, All,
  All-append,
}
use go_backend_core.Prelude.Int.{ℤ, pos, sub_ℕ, ◌<ℤ◌, ◌≤ℤ◌}
use go_backend_core.Net.Breaker.{
  CircuitBreaker, closed, opened, Call, allows, succeeds, fails, resets, new_circuit_breaker, allow,
  success, failure, step, run,
}
use go_backend_core.Net.Breaker.Machine.{Phase, passing, tripped, trying, move, moves}
use go_backend_core.Net.Breaker.Refinement.{
  Refines, IsThreshold, run-Refines, breaker_follows_machine,
}

abbrev pub repeated : Call → List ℕ → List (ℕ × Call)
repeated c ts = map (λ t. (t, c)) ts

abbrev pub IsTripped : Phase → Type 0
IsTripped (tripped t) = Unit
IsTripped (passing n) = ⊥
IsTripped (trying n) = ⊥

abbrev pub IsPassing : Phase → Type 0
IsPassing (passing n) = Unit
IsPassing (tripped t) = ⊥
IsPassing (trying n) = ⊥

module _ (failures successes : ℕ) (timeout : ℤ) where
  tripped_stays :
      (t : ℕ) (ts : List ℕ)
      → (moves failures successes timeout (tripped t) (repeated fails ts)).0 ≡ tripped t
  unfolding moves move
  tripped_stays t [] = refl
  tripped_stays t (now ∷ ts) = tripped_stays t ts

  failures_trip :
      (n : ℕ) (ts : List ℕ)
      → n < failures
      → IsTripped (moves failures successes timeout (passing n) (repeated fails ts)).0
        ↔ (failures ≤ n + length ts)
  unfolding moves move
  failures_trip n [] h = ground arith
  failures_trip n (now ∷ ts) h = ground (arith, tripped_stays now ts, failures_trip (suc n) ts)

  passing_stays :
      (n : ℕ) (ts : List ℕ)
      → IsPassing (moves failures successes timeout (passing n) (repeated succeeds ts)).0
  unfolding moves move
  passing_stays n [] = tt
  passing_stays n (now ∷ ts) = passing_stays 0 ts

  successes_close :
      (n : ℕ) (ts : List ℕ)
      → n < successes
      → IsPassing (moves failures successes timeout (trying n) (repeated succeeds ts)).0
        ↔ (successes ≤ n + length ts)
  unfolding moves move
  successes_close n [] h = ground arith
  successes_close n (now ∷ ts) h = ground (arith, passing_stays 0 ts, successes_close (suc n) ts)

  trial_closes :
      (t now : ℕ) (ts : List ℕ)
      → 0 < successes
      → timeout <ℤ sub_ℕ now t
      → IsPassing
          (moves failures successes timeout (tripped t) ((now, allows) ∷ repeated succeeds ts)).0
        ↔ (successes ≤ length ts)
  unfolding moves move
  trial_closes t now ts h late = ground (arith, successes_close 0 ts)

  opened_iff :
      (cb : CircuitBreaker) (p : Phase)
      → Refines failures successes timeout cb p
      → (cb.state ≡ opened) ↔ IsTripped p
  opened_iff cb (passing n) r = ground arith
  opened_iff cb (tripped t) r = ground arith
  opened_iff cb (trying n) r = ground arith

  closed_iff :
      (cb : CircuitBreaker) (p : Phase)
      → Refines failures successes timeout cb p
      → (cb.state ≡ closed) ↔ IsPassing p
  closed_iff cb (passing n) r = ground arith
  closed_iff cb (tripped t) r = ground arith
  closed_iff cb (trying n) r = ground arith

-- A fresh breaker that sees only failures is open exactly when there were as many as the failure
-- threshold, which is positive and fits an int32, as the success threshold does.
pub failures_open_iff :
    (failures successes : ℕ) (timeout : ℤ) (ts : List ℕ)
    → IsThreshold failures
    → IsThreshold successes
    → ((run
          (new_circuit_breaker (record {
            failure_threshold = pos failures;
            success_threshold = pos successes;
            timeout = timeout;
          }))
          (repeated fails ts)).0.state
        ≡ opened)
      ↔ (failures ≤ length ts)
failures_open_iff failures successes timeout ts f s =
    let (r, _) = breaker_follows_machine failures successes timeout (repeated fails ts) f s in
    let (to, from) = opened_iff failures successes timeout _ _ r in
    let (up, down) = failures_trip failures successes timeout 0 ts f.positive in
    (λ e. omega (arith, up (to e)), λ h. from (down (omega arith)))

-- Let both thresholds be positive and fit an int32, and let the breaker be open since `t`. If its
-- timeout is over and it then sees an Allow and only successes, it is closed exactly when there were
-- at least as many successes as the success threshold.
pub successes_close_iff :
    (failures successes : ℕ) (timeout : ℤ) (cb : CircuitBreaker) (t now : ℕ) (ts : List ℕ)
    → IsThreshold failures
    → IsThreshold successes
    → Refines failures successes timeout cb (tripped t)
    → timeout <ℤ sub_ℕ now t
    → ((run cb ((now, allows) ∷ repeated succeeds ts)).0.state ≡ closed) ↔ (successes ≤ length ts)
successes_close_iff failures successes timeout cb t now ts f s r late =
    let (r', _) =
      run-Refines failures successes timeout cb (tripped t) ((now, allows) ∷ repeated succeeds ts) f
        s r in
    let (to, from) = closed_iff failures successes timeout _ _ r' in
    let (up, down) = trial_closes failures successes timeout t now ts s.positive late in
    (λ e. up (to e), λ h. from (down h))

-- A call that cannot end an open phase: no Reset, and no later than the timeout allows.
abbrev pub IsQuiet : ℕ → ℤ → ℕ × Call → Type 0
IsQuiet start timeout (now, c) = (c ≢ resets) × (sub_ℕ now start ≤ℤ timeout)

quiet_step :
    (cb : CircuitBreaker) (now : ℕ) (c : Call)
    → cb.state ≡ opened
    → IsQuiet cb.last_failure cb.timeout (now, c)
    → All (λ b. b ≡ false) (step cb now c).1
      × ((step cb now c).0.state ≡ opened)
      × ((step cb now c).0.last_failure ≡ cb.last_failure)
      × ((step cb now c).0.timeout ≡ cb.timeout)
unfolding step allow success failure
quiet_step cb now allows e q = ground arith
quiet_step cb now succeeds e q = ground arith
quiet_step cb now fails e q = ground arith
quiet_step cb now resets e q = absurd (q.0 refl)

rejects_from :
    (start : ℕ) (timeout : ℤ) (cb : CircuitBreaker) (cs : List (ℕ × Call))
    → cb.state ≡ opened
    → cb.last_failure ≡ start
    → cb.timeout ≡ timeout
    → All (IsQuiet start timeout) cs
    → All (λ b. b ≡ false) (run cb cs).1
      × ((run cb cs).0.state ≡ opened)
      × ((run cb cs).0.last_failure ≡ start)
unfolding run
rejects_from start timeout cb [] e l d q = (tt, e, l)
rejects_from start timeout cb ((now, c) ∷ cs) e l d (q, qs) =
    let (answers, e', l', d') = quiet_step cb now c e (rw (l, d) q) in
    let (rest, e'', l'') =
      rejects_from start timeout (step cb now c).0 cs e' (l' ∙ l) (d' ∙ d) qs in
    (All-append _ _ _ answers rest, e'', l'')

-- An open breaker rejects every request until its timeout is over: whatever the calls other than
-- Reset, each Allow answers false, and the phase and its start stay, so late failures do not
-- prolong it.
pub opened_rejects :
    (cb : CircuitBreaker) (cs : List (ℕ × Call))
    → cb.state ≡ opened
    → All (IsQuiet cb.last_failure cb.timeout) cs
    → All (λ b. b ≡ false) (run cb cs).1
      × ((run cb cs).0.state ≡ opened)
      × ((run cb cs).0.last_failure ≡ cb.last_failure)
opened_rejects cb cs e q = rejects_from cb.last_failure cb.timeout cb cs e refl refl q
