-- ===== src/Database/Breaker/Outage.antt =====
-- How one trial call of internal/database/breaker.go, after an outage, decides between recovery and
-- another wait.
use go_backend_core.Prelude.{
  ℕ, suc, ◌+◌, ◌≤◌, ◌<◌, ◌≡◌, refl, ◌≢◌, Bool, true, false, Option, none, some, List, [], ◌∷◌,
  arith, length, if◌then◌else◌,
}
use go_backend_core.Prelude.Int.{ℤ, pos, half64, wrap64, ◌+ℤ◌, ◌≤ℤ◌}
use go_backend_core.Database.Breaker.{
  CircuitBreaker, closed, opened, new_circuit_breaker, allow, success, failure, Outcome, rejected,
  run, run_all, settle,
}

-- At most `n` failures are counted, and they account for every phase other than closed.
record IsCounted (n : ℕ) (cb : CircuitBreaker) : Type 0 where
  count : ℕ
  counted : cb.failures ≡ pos count
  bounded : count ≤ n
  reached : cb.state ≢ closed → cb.threshold ≤ℤ pos count

pub count_up : (n : ℕ) → n + 1 < half64 → wrap64 (pos n +ℤ pos 1) ≡ pos (suc n)
unfolding wrap64 ◌+ℤ◌
count_up n h = ground arith

allow-IsCounted :
    (n : ℕ) (cb : CircuitBreaker) (now : ℕ) → IsCounted n cb → IsCounted n (allow cb now).0
unfolding allow
allow-IsCounted n cb now c = record {
  count = c.count;
  counted = ground arith;
  bounded = c.bounded;
  reached = ground arith;
}

failure-IsCounted :
    (n : ℕ) (cb : CircuitBreaker) (later : ℕ)
    → n + 1 < half64
    → IsCounted n cb
    → IsCounted (suc n) (failure cb later)
unfolding failure
failure-IsCounted n cb later h c = record {
  count = suc c.count;
  counted = ground (arith, count_up c.count);
  bounded = omega arith;
  reached = ground (arith, count_up c.count);
}

-- A trial's verdict: its failure opens the breaker from that instant on, and its success closes it
-- with the count at zero.
abbrev pub Decides : {E : Type 0} → Option E → ℕ → CircuitBreaker → Type 0
Decides (some e) later cb = (cb.state ≡ opened) × (cb.last_failure ≡ later)
Decides none later cb = (cb.state ≡ closed) × (cb.failures ≡ pos 0)

IsCounted-mono : {m n : ℕ} {cb : CircuitBreaker} → m ≤ n → IsCounted m cb → IsCounted n cb
IsCounted-mono h c = record {
  count = c.count;
  counted = c.counted;
  bounded = omega arith;
  reached = c.reached;
}

if-IsCounted :
    {W E : Type 0} (n : ℕ) (b : Bool) (x y : CircuitBreaker × W × Outcome E)
    → IsCounted n x.0
    → IsCounted n y.0
    → IsCounted n (if b then x else y).0
if-IsCounted n true x y p q = p
if-IsCounted n false x y p q = q

module _ {W E : Type 0} (fn : W → W × Option E) where
  settle-IsCounted :
      (n : ℕ) (cb : CircuitBreaker) (later : ℕ) (r : W × Option E)
      → n + 1 < half64
      → IsCounted n cb
      → IsCounted (suc n) (settle fn cb later r).0
  unfolding settle success
  settle-IsCounted n cb later (w, some e) h c = failure-IsCounted n cb later h c
  settle-IsCounted n cb later (w, none) h c = record {
    count = 0;
    counted = refl;
    bounded = omega arith;
    reached = λ ne. absurd (ne refl);
  }

  run-IsCounted :
      (n : ℕ) (cb : CircuitBreaker) (now later : ℕ) (w : W)
      → n + 1 < half64
      → IsCounted n cb
      → IsCounted (suc n) (run fn cb now later w).0
  unfolding run
  run-IsCounted n cb now later w h c =
      let a = allow-IsCounted n cb now c in
      if-IsCounted (suc n) (allow cb now).1 _ _ (settle-IsCounted n _ later (fn w) h a)
        (IsCounted-mono (omega arith) a)

  run_all-IsCounted :
      (n limit : ℕ) (cb : CircuitBreaker) (ts : List (ℕ × ℕ)) (w : W)
      → n + length ts ≤ limit
      → limit < half64
      → IsCounted n cb
      → IsCounted limit (run_all fn cb ts w).0
  unfolding run_all
  run_all-IsCounted n limit cb [] w h k c = IsCounted-mono (omega arith) c
  run_all-IsCounted n limit cb ((now, later) ∷ ts) w h k c =
      run_all-IsCounted (suc n) limit _ ts _ (omega arith) k
        (run-IsCounted n cb now later w (omega arith) c)

  trial_of_IsCounted :
      (n : ℕ) (cb : CircuitBreaker) (now later : ℕ) (w : W) (r : W × Option E)
      → n + 1 < half64
      → IsCounted n cb
      → cb.state ≢ closed
      → fn w ≡ r
      → (run fn cb now later w).2 ≢ rejected
      → Decides r.1 later (run fn cb now later w).0
  unfolding run allow success failure
  trial_of_IsCounted n cb now later w (w', some e) h c ne called through =
      ground (arith, count_up c.count)
  trial_of_IsCounted n cb now later w (w', none) h c ne called through = ground arith

-- After any history of calls made one after another, fewer than 2^63 - 1, a call that is let through
-- while the breaker is not closed, with no other before it returns, decides by itself: its failure
-- opens the breaker from that instant on, and its success closes it with the count at zero.
pub trial-Decides :
    {W E : Type 0} (fn : W → W × Option E) (threshold ttl : ℤ) (ts : List (ℕ × ℕ)) (w : W)
    (now later : ℕ)
    → length ts + 1 < half64
    → (run_all fn (new_circuit_breaker threshold ttl) ts w).0.state ≢ closed
    → (run fn
        (run_all fn (new_circuit_breaker threshold ttl) ts w).0
        now
        later
        (run_all fn (new_circuit_breaker threshold ttl) ts w).1).2
      ≢ rejected
    → Decides
        (fn (run_all fn (new_circuit_breaker threshold ttl) ts w).1).1
        later
        (run fn
          (run_all fn (new_circuit_breaker threshold ttl) ts w).0
          now
          later
          (run_all fn (new_circuit_breaker threshold ttl) ts w).1).0
unfolding new_circuit_breaker
trial-Decides fn threshold ttl ts w now later h ne through =
    trial_of_IsCounted fn (length ts) _ now later _ _ h
      (run_all-IsCounted fn 0 (length ts) _ ts w (omega arith) (omega arith) (record {
        count = 0;
        counted = refl;
        bounded = omega arith;
        reached = λ k. absurd (k refl);
      }))
      ne refl through
