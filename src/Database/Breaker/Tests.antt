-- ===== src/Database/Breaker/Tests.antt =====
-- Runs of the breaker of internal/database/breaker.go, and its theorems at concrete inputs. The
-- world counts the calls.
use go_backend_core.Prelude.{
  ℕ, suc, ◌≡◌, refl, Option, none, some, List, [], ◌∷◌, arith, ltb, if◌then◌else◌, ◌+◌, ◌≤◌, min,
}
use go_backend_core.Prelude.Int.{pos, wrap64, ◌+ℤ◌}
use go_backend_core.Database.Breaker.{
  new_circuit_breaker, allow, success, failure, run, run_all, rejected, failed, succeeded, Event,
  asks, answers, Traffic, quiet, step, overlap,
}
use go_backend_core.Database.Breaker.Outage.{Decides, trial-Decides}
use go_backend_core.Database.Breaker.Overlap.{peak, outage_reaches}

-- Down for good.
abbrev down : ℕ → ℕ × Option ℕ
down w = (suc w, some w)

-- Up from the third call on.
abbrev recovering : ℕ → ℕ × Option ℕ
recovering w = if ltb w 2 then (suc w, some w) else (suc w, none)

abbrev outage : List (ℕ × ℕ)
outage = (10, 11) ∷ (12, 13) ∷ (14, 15) ∷ []

trial_run :
    (run_all recovering
      (new_circuit_breaker (pos 2) (pos 50))
      ((1, 2) ∷ (3, 4) ∷ (5, 6) ∷ (60, 61) ∷ [])
      0).2
    ≡ failed 0 ∷ failed 1 ∷ rejected ∷ succeeded ∷ []
unfolding run_all run allow success failure new_circuit_breaker wrap64 ◌+ℤ◌
trial_run = refl

trial-Decides_example :
    Decides {E = ℕ}
      (some 2)
      101
      (run down (run_all down (new_circuit_breaker (pos 2) (pos 50)) outage 0).0 100 101 2).0
unfolding run_all run allow success failure new_circuit_breaker wrap64 ◌+ℤ◌
trial-Decides_example =
    trial-Decides down (pos 2) (pos 50) outage 0 100 101 (omega arith) (λ e. cc) (λ e. cc)

-- Three calls are let through before the first has failed, and the fourth is refused.
abbrev overlapping : List (Event ℕ)
overlapping =
    asks 10
    ∷ asks 10
    ∷ asks 10
    ∷ answers 11 (some 0)
    ∷ answers 11 (some 1)
    ∷ asks 12
    ∷ answers 13 (some 2)
    ∷ []

abbrev fresh : Traffic
fresh = quiet (new_circuit_breaker (pos 2) (pos 50))

overlapping_run : ((overlap overlapping fresh).reached ≡ 3) × (peak overlapping fresh ≡ 3)
unfolding overlap step allow failure success new_circuit_breaker wrap64 ◌+ℤ◌
overlapping_run = (refl, refl)

outage_reaches_example :
    (min 4 2 ≤ (overlap overlapping fresh).reached)
    × ((overlap overlapping fresh).reached ≤ min 4 (1 + peak overlapping fresh))
outage_reaches_example =
    outage_reaches 2 50 11 overlapping (omega arith) (omega arith) (omega arith) (omega arith)
