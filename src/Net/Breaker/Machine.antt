-- ===== src/Net/Breaker/Machine.antt =====
-- What the breaker of pkg/net/breaker.go promises, without counters that wrap or stale fields: the
-- phases of the state diagram, each with the one value that matters in it.
use go_backend_core.Prelude.{ℕ, suc, Bool, true, false, List, [], ◌∷◌, ◌++◌, leb, if◌then◌else◌}
use go_backend_core.Prelude.Int.{ℤ, sub_ℕ, ltb_ℤ}
use go_backend_core.Net.Breaker.{Call, allows, succeeds, fails, resets}

pub data Phase : Type 0 where
  -- Consecutive failures so far.
  passing : ℕ → Phase
  -- The instant of the failure that opened the breaker.
  tripped : ℕ → Phase
  -- Successes since the trial began.
  trying : ℕ → Phase

module _ (failures successes : ℕ) (timeout : ℤ) where
  unfoldable pub move : Phase → ℕ → Call → Phase × List Bool
  move (passing n) now allows = (passing n, true ∷ [])
  move (tripped t) now allows =
      if ltb_ℤ timeout (sub_ℕ now t) then (trying 0, true ∷ []) else (tripped t, false ∷ [])
  move (trying n) now allows = (trying n, true ∷ [])
  move (passing n) now succeeds = (passing 0, [])
  move (tripped t) now succeeds = (tripped t, [])
  move (trying n) now succeeds = (if leb successes (suc n) then passing 0 else trying (suc n), [])
  move (passing n) now fails = (if leb failures (suc n) then tripped now else passing (suc n), [])
  move (tripped t) now fails = (tripped t, [])
  move (trying n) now fails = (tripped now, [])
  move p now resets = (passing 0, [])

  unfoldable pub moves : Phase → List (ℕ × Call) → Phase × List Bool
  moves p [] = (p, [])
  moves p ((now, c) ∷ cs) =
      let (p', answers) = move p now c in let (last, rest) = moves p' cs in (last, answers ++ rest)
