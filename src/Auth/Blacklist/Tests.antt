-- ===== src/Auth/Blacklist/Tests.antt =====
-- The blacklist at concrete tokens.
use go_backend_core.Prelude.{ℕ, ◌≡◌, true, false, List, [], ◌∷◌, arith}
use go_backend_core.Prelude.Dict.{read}
use go_backend_core.Auth.Blacklist.{Call, revokes, asks, new_blacklist, run}
use go_backend_core.Auth.Blacklist.Revoked.{run_blacklist-expected}

abbrev calls : List (ℕ × Call)
calls =
    (1, revokes "t1" 10) ∷ (5, asks "t1") ∷ (6, asks "t2") ∷ (11, asks "t1") ∷ (12, asks "t1") ∷ []

run_blacklist-expected_example : (run new_blacklist calls).1 ≡ true ∷ false ∷ false ∷ false ∷ []
unfolding read
run_blacklist-expected_example =
    run_blacklist-expected 1 calls
      (omega arith, (omega arith, (omega arith, (omega arith, (omega arith, tt)))))
