-- ===== src/Auth/Blacklist/Revoked.antt =====
-- The answers of internal/services/auth/blacklist.go: forgetting expired tokens is never noticed.
use go_backend_core.Prelude.{
  ℕ, ◌≤◌, ◌<◌, ◌≡◌, refl, Bool, true, false, inl, inr, Option, none, some, List, [], ◌∷◌, String,
  ltb, arith, if◌then◌else◌, Option-cases, Bool-cases,
}
use go_backend_core.Prelude.Equality.{string_eq}
use go_backend_core.Prelude.Dict.{Dict, read, write, delete, read-write, read-delete}
use go_backend_core.Auth.Blacklist.{
  Blacklist, new_blacklist, revoke, is_revoked, Call, revokes, asks, run,
}

abbrev pub is_live : ℕ → Option ℕ → Bool
is_live now none = false
is_live now (some exp) = if ltb exp now then false else true

-- The answers by the whole log of revocations, the newest first, of which nothing is forgotten.
abbrev pub expected : Dict String ℕ → List (ℕ × Call) → List Bool
expected log [] = []
expected log ((now, revokes jti exp) ∷ cs) = expected ((jti, exp) ∷ log) cs
expected log ((now, asks jti) ∷ cs) = is_live now (read jti log) ∷ expected log cs

-- The clock does not go back.
abbrev pub Ordered : ℕ → List (ℕ × Call) → Type 0
Ordered now [] = Unit
Ordered now ((t, c) ∷ cs) = (now ≤ t) × Ordered t cs

-- From now on the map and the log give the same answers.
abbrev Follows : ℕ → Dict String ℕ → Dict String ℕ → Type 0
Follows now entries log =
    (jti : String) (t : ℕ) → now ≤ t → is_live t (read jti entries) ≡ is_live t (read jti log)

revoke-Follows :
    (now exp : ℕ) (jti : String) (entries log : Dict String ℕ)
    → Follows now entries log
    → Follows now (write jti exp entries) ((jti, exp) ∷ log)
unfolding read
revoke-Follows now exp jti entries log f other t h =
    rw (read-write jti other exp entries) (ground (arith, f other t h))

delete-Follows :
    (now exp : ℕ) (jti : String) (entries log : Dict String ℕ)
    → read jti entries ≡ some exp
    → exp < now
    → Follows now entries log
    → Follows now (delete jti entries) log
delete-Follows now exp jti entries log found past f other t h =
    rw (read-delete jti other entries)
      (ground (arith, f other t h, string_eq.equals_iff jti other, found))

later :
    (now t : ℕ) (entries log : Dict String ℕ)
    → now ≤ t
    → Follows now entries log
    → Follows t entries log
later now t entries log h f jti t' h' = f jti t' (omega arith)

-- A question's answer, and the map that it leaves.
is_revoked_lem :
    (now : ℕ) (jti : String) (b : Blacklist) (log : Dict String ℕ)
    → Follows now b.entries log
    → ((is_revoked jti now b).1 ≡ is_live now (read jti log))
      × Follows now (is_revoked jti now b).0.entries log
unfolding is_revoked
is_revoked_lem now jti b log f = elim (Option-cases (read jti b.entries)) [
  | inl missing ↦ rw missing (ground (arith, f jti now (omega arith), missing), f)
  | inr (exp, found) ↦ elim (Bool-cases (ltb exp now)) [
    | inl past ↦
        rw (found, past)
          (
            ground (arith, f jti now (omega arith), found),
            delete-Follows now exp jti b.entries log found (ground arith) f,
          )
    | inr live ↦ rw (found, live) (ground (arith, f jti now (omega arith), found), f)
  ]
]

run-expected :
    (now : ℕ) (b : Blacklist) (log : Dict String ℕ) (cs : List (ℕ × Call))
    → Ordered now cs
    → Follows now b.entries log
    → (run b cs).1 ≡ expected log cs
unfolding run revoke
run-expected now b log [] h f = refl
run-expected now b log ((t, revokes jti exp) ∷ cs) (h, hs) f =
    run-expected t (revoke jti exp b) ((jti, exp) ∷ log) cs hs
      (revoke-Follows t exp jti b.entries log (later now t b.entries log h f))
run-expected now b log ((t, asks jti) ∷ cs) (h, hs) f =
    let (same, f') = is_revoked_lem t jti b log (later now t b.entries log h f) in
    rw (same, run-expected t (is_revoked jti t b).0 log cs hs f') refl

-- Revoking and asking in any order, each question is answered by the latest revocation of the token:
-- yes up to the expiry that it gave, and no after it or without one, if the clock does not go back.
pub run_blacklist-expected :
    (now : ℕ) (cs : List (ℕ × Call)) → Ordered now cs → (run new_blacklist cs).1 ≡ expected [] cs
run_blacklist-expected now cs h = run-expected now new_blacklist [] cs h (λ jti t k. refl)
