-- ===== src/Database/Breaker/Phases.antt =====
-- The two phases of the breaker of internal/database/breaker.go while the database is down.
use go_backend_core.Prelude.{
  ℕ, suc, ◌+◌, ◌≤◌, ◌<◌, ◌≡◌, refl, ◌⊎◌, arith, leb, leb→le, Bool-cases, inl, inr, true, false,
}
use go_backend_core.Prelude.Int.{pos, half64, wrap64, ◌+ℤ◌, leb_ℤ}
use go_backend_core.Database.Breaker.{CircuitBreaker, closed, opened, allow, failure}
use go_backend_core.Database.Breaker.Outage.{count_up}

pub record IsOpened (d start : ℕ) (cb : CircuitBreaker) : Type 0 where
  pub phase : cb.state ≡ opened
  pub ttl : cb.recovery_ttl ≡ pos d
  pub since : start ≤ cb.last_failure

pub record IsClosed (d k limit : ℕ) (cb : CircuitBreaker) : Type 0 where
  pub phase : cb.state ≡ closed
  pub ttl : cb.recovery_ttl ≡ pos d
  pub count : cb.failures ≡ pos k
  pub most : cb.threshold ≡ pos limit
  pub under : k < limit

pub opened_allow :
    (cb : CircuitBreaker) (d start now : ℕ)
    → IsOpened d start cb
    → now ≤ start + d
    → allow cb now ≡ (cb, false)
unfolding allow
opened_allow cb d start now o h = ground (arith, o.phase, o.ttl, o.since)

pub failure-IsOpened :
    (cb : CircuitBreaker) (d start later : ℕ)
    → IsOpened d start cb
    → start ≤ later
    → IsOpened d start (failure cb later)
unfolding failure
failure-IsOpened cb d start later o h = record {
  phase = ground (arith, o.phase);
  ttl = ground (arith, o.ttl);
  since = ground arith;
}

pub closed_allow :
    (cb : CircuitBreaker) (d k limit now : ℕ) → IsClosed d k limit cb → allow cb now ≡ (cb, true)
unfolding allow
closed_allow cb d k limit now c = ground (arith, c.phase)

-- A failure is counted, and the last one that the threshold allows opens the breaker.
pub failure-IsClosed :
    (cb : CircuitBreaker) (d start k limit later : ℕ)
    → limit < half64
    → start ≤ later
    → IsClosed d k limit cb
    → IsClosed d (suc k) limit (failure cb later)
      ⊎ ((limit ≡ suc k) × IsOpened d start (failure cb later))
unfolding failure
failure-IsClosed cb d start k limit later fits h c =
    let tick : wrap64 (cb.failures +ℤ pos 1) ≡ pos (suc k) =
      rw c.count (count_up k (omega (arith, c.under))) in
    elim (Bool-cases (leb limit (suc k))) [
      | inl last ↦
          let test : leb_ℤ cb.threshold (wrap64 (cb.failures +ℤ pos 1)) ≡ true =
            rw (c.most, tick) (ground arith) in
          rw test (
            inr (
              omega (arith, leb→le _ _ last, c.under),
              record { phase = refl; ttl = c.ttl; since = h },
            ))
      | inr more ↦
          let test : leb_ℤ cb.threshold (wrap64 (cb.failures +ℤ pos 1)) ≡ false =
            rw (c.most, tick) (ground arith) in
          rw test (
            inl (record {
              phase = c.phase;
              ttl = c.ttl;
              count = tick;
              most = c.most;
              under = ground arith;
            }))
    ]
