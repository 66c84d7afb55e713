-- ===== src/Middleware/RateLimit/Limit.antt =====
-- How many requests the limiter in memory lets through within any one window.
use go_backend_core.Prelude.{
  ℕ, ◌≤◌, ◌≡◌, sym, ◌∙◌, Bool, true, false, inl, inr, List, [], ◌∷◌, ◌++◌, append-nil, append_assoc,
  String, arith, length, length-append, length-keep-le, Bool-cases, ltb→lt,
}
use go_backend_core.Prelude.Int.{ℤ, pos}
use go_backend_core.Prelude.Equality.{string_eq, ◌==◌}
use go_backend_core.Middleware.RateLimit.{
  new_rate_limit, is_recent, valid, Event, request, tick, run,
}
use go_backend_core.Middleware.RateLimit.Window.{
  Log, accepted, admits, decide, Rising, valid-valid, valid-append, accepted_snoc, run_follows_log,
}

-- The requests that the answers let through.
unfoldable pub granted : List (ℕ × Event) → List Bool → Log
granted [] answers = []
granted ((now, tick) ∷ es) answers = granted es answers
granted ((now, request ip) ∷ es) [] = []
granted ((now, request ip) ∷ es) (true ∷ answers) = (ip, now) ∷ granted es answers
granted ((now, request ip) ∷ es) (false ∷ answers) = granted es answers

-- The instant of the last event.
abbrev pub last_instant : ℕ → List (ℕ × Event) → ℕ
last_instant from [] = from
last_instant from ((now, e) ∷ es) = last_instant now es

module _ (max : ℕ) (window : ℤ) where
  -- Nobody got more than the maximum through within the window that ends at any later instant.
  abbrev IsBounded : Log → ℕ → Type 0
  IsBounded log now =
      (ip : String) (later : ℕ) → now ≤ later → length (valid window later (accepted ip log)) ≤ max

  length-valid-later :
      (now later : ℕ) (ts : List ℕ)
      → now ≤ later
      → length (valid window later ts) ≤ length (valid window now ts)
  length-valid-later now later ts h =
      rw (← valid-valid window now later ts h)
        (length-keep-le (is_recent window later) (valid window now ts))

  admit-IsBounded :
      (log : Log) (ip : String) (now : ℕ)
      → IsBounded log now
      → admits (pos max) window log ip now ≡ true
      → IsBounded (log ++ (ip, now) ∷ []) now
  unfolding admits
  admit-IsBounded log ip now b ok j later h =
      let t : List ℕ = now ∷ [] in
      elim (Bool-cases (ip == j)) [
        | inl hit ↦
            rw
              (
                accepted_snoc j ip log now,
                hit,
                ← (string_eq.equals_iff ip j).0 hit,
                valid-append window later (accepted ip log) t,
                length-append (valid window later (accepted ip log)) (valid window later t),
              )
              (omega (
                arith,
                length-valid-later now later (accepted ip log) h,
                ltb→lt _ _ ok,
                length-keep-le (is_recent window later) t,
              ))
        | inr miss ↦
            rw (accepted_snoc j ip log now, miss, append-nil (accepted j log)) (b j later h)
      ]

  decide-IsBounded :
      (log : Log) (from : ℕ) (es : List (ℕ × Event))
      → IsBounded log from
      → Rising from es
      → IsBounded (decide (pos max) window log es).0 (last_instant from es)
  unfolding decide
  decide-IsBounded log from [] b r = b
  decide-IsBounded log from ((now, tick) ∷ es) b (h, r) =
      decide-IsBounded log now es (λ ip later k. b ip later (omega arith)) r
  decide-IsBounded log from ((now, request ip) ∷ es) b (h, r) =
      let b' : IsBounded log now = λ j later k. b j later (omega arith) in
      elim (Bool-cases (admits (pos max) window log ip now)) [
        | inl e ↦ rw e (decide-IsBounded _ now es (admit-IsBounded log ip now b' e) r)
        | inr e ↦ rw e (decide-IsBounded log now es b' r)
      ]

  decide-granted :
      (log : Log) (es : List (ℕ × Event))
      → (decide (pos max) window log es).0 ≡ log ++ granted es (decide (pos max) window log es).1
  unfolding decide granted
  decide-granted log [] = sym (append-nil log)
  decide-granted log ((now, tick) ∷ es) = decide-granted log es
  decide-granted log ((now, request ip) ∷ es) =
      elim (Bool-cases (admits (pos max) window log ip now)) [
        | inl e ↦
            rw (e, granted)
              (decide-granted (log ++ (ip, now) ∷ []) es ∙ append_assoc log ((ip, now) ∷ []) _)
        | inr e ↦ rw (e, granted) (decide-granted log es)
      ]

-- With a clock that never goes back, no address gets more than the maximum through within any
-- window that ends at or after the last event, whatever requests and ticks came before.
pub run_bounded :
    (max : ℕ) (window : ℤ) (es : List (ℕ × Event)) (ip : String) (later : ℕ)
    → Rising 0 es
    → last_instant 0 es ≤ later
    → length
        (valid window later (accepted ip (granted es (run (new_rate_limit (pos max) window) es).1)))
      ≤ max
unfolding accepted
run_bounded max window es ip later r h =
    rw (run_follows_log (pos max) window es r, ← decide-granted max window [] es)
      (decide-IsBounded max window [] 0 es (λ j t k. omega arith) r ip later h)
