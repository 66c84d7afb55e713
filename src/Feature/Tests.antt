-- ===== src/Feature/Tests.antt =====
-- The flags at concrete calls.
use go_backend_core.Prelude.{◌≡◌, false, none, List, [], ◌∷◌, String}
use go_backend_core.Prelude.Result.{ok, err}
use go_backend_core.Feature.{Flag, new_manager, get, not_found}
use go_backend_core.Feature.Flags.{Call, registers, enables, run, view_run, run_flags-Shows}

abbrev dark : Flag
dark = record { name = "dark"; enabled = false; description = "" }

abbrev calls : List Call
calls = registers dark ∷ enables "dark" ∷ enables "beta" ∷ []

run_flags-Shows_example :
    ((name : String) → get name (run new_manager calls).0 ≡ (view_run (λ name. none) calls).0 name)
    × ((run new_manager calls).1 ≡ ok tt ∷ ok tt ∷ err (not_found "beta") ∷ [])
run_flags-Shows_example = run_flags-Shows calls
