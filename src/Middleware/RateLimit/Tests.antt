-- ===== src/Middleware/RateLimit/Tests.antt =====
-- The limiter in memory at concrete requests: two per 100 nanoseconds.
use go_backend_core.Prelude.{ℕ, ◌≤◌, ◌≡◌, refl, true, false, List, [], ◌∷◌, arith, length}
use go_backend_core.Prelude.Int.{pos}
use go_backend_core.Prelude.Dict.{read, write, delete}
use go_backend_core.Middleware.RateLimit.{
  new_rate_limit, valid, allow, cleanup, Event, request, tick, run,
}
use go_backend_core.Middleware.RateLimit.Window.{accepted, decide, run_follows_log}
use go_backend_core.Middleware.RateLimit.Limit.{granted, run_bounded}

abbrev requests : List (ℕ × Event)
requests =
    (10, request "a")
    ∷ (20, request "a")
    ∷ (30, request "a")
    ∷ (40, request "b")
    ∷ (60, tick)
    ∷ (111, request "a")
    ∷ (112, request "a")
    ∷ []

third_is_late :
    (run (new_rate_limit (pos 2) (pos 100)) requests).1
    ≡ true ∷ true ∷ false ∷ true ∷ true ∷ false ∷ []
unfolding run allow cleanup new_rate_limit read write delete
third_is_late = refl

run_follows_log_example :
    (run (new_rate_limit (pos 2) (pos 100)) requests).1 ≡ (decide (pos 2) (pos 100) [] requests).1
run_follows_log_example = run_follows_log (pos 2) (pos 100) requests (omega arith)

run_bounded_example :
    length (
      valid
        (pos 100)
        115
        (accepted "a" (granted requests (run (new_rate_limit (pos 2) (pos 100)) requests).1)))
    ≤ 2
run_bounded_example = run_bounded 2 (pos 100) requests "a" 115 (omega arith) (omega arith)
