-- ===== src/Database/Breaker.antt =====
-- internal/database/breaker.go: the circuit breaker that wraps a database call. An instant is the
-- number of nanoseconds since the epoch; the wrapped call is a parameter that may change a world.
pub mod Outage
pub mod Phases
pub mod Overlap
mod Tests
use go_backend_core.Prelude.{
  ℕ, zero, suc, Bool, true, false, Option, none, some, List, [], ◌∷◌, if◌then◌else◌,
}
use go_backend_core.Prelude.Int.{ℤ, pos, sub_ℕ, ◌+ℤ◌, ltb_ℤ, leb_ℤ, wrap64}

pub data State : Type 0 where
  closed opened half_open : State

pub record CircuitBreaker : Type 0 where
  pub state : State
  pub failures : ℤ
  pub threshold : ℤ
  pub recovery_ttl : ℤ
  pub last_failure : ℕ

unfoldable pub new_circuit_breaker : ℤ → ℤ → CircuitBreaker
new_circuit_breaker threshold recovery_ttl = record {
  state = closed;
  failures = pos 0;
  threshold = if leb_ℤ threshold (pos 0) then pos 5 else threshold;
  recovery_ttl = if leb_ℤ recovery_ttl (pos 0) then pos 30000000000 else recovery_ttl;
  last_failure = 0;
}

allow_in : State → CircuitBreaker → ℕ → CircuitBreaker × Bool
allow_in opened cb now =
    if ltb_ℤ cb.recovery_ttl (sub_ℕ now cb.last_failure)
    then (record cb { state = half_open }, true)
    else (cb, false)
allow_in closed cb now = (cb, true)
allow_in half_open cb now = (cb, true)

unfoldable pub allow : CircuitBreaker → ℕ → CircuitBreaker × Bool
unfolding allow_in
allow cb now = allow_in cb.state cb now

unfoldable pub success : CircuitBreaker → CircuitBreaker
success cb = record cb { state = closed; failures = pos 0 }

unfoldable pub failure : CircuitBreaker → ℕ → CircuitBreaker
failure cb now =
    let fails = wrap64 (cb.failures +ℤ pos 1) in
    if leb_ℤ cb.threshold fails
    then record cb { failures = fails; last_failure = now; state = opened }
    else record cb { failures = fails; last_failure = now }

pub data Outcome (E : Type 0) : Type 0 where
  rejected : Outcome E
  failed : E → Outcome E
  succeeded : Outcome E

-- What `Run` does once `fn` has returned.
abbrev pub settled : {E : Type 0} → Option E → ℕ → CircuitBreaker → CircuitBreaker
settled (some e) later cb = failure cb later
settled none later cb = success cb

module _ {W E : Type 0} (fn : W → W × Option E) where
  settle : CircuitBreaker → ℕ → W × Option E → CircuitBreaker × W × Outcome E
  settle cb later (w, some e) = (settled {E = E} (some e) later cb, w, failed e)
  settle cb later (w, none) = (settled {E = E} none later cb, w, succeeded)

  -- One call with no other between its question and its answer; `now` is when `Run` asks, `later`
  -- when `fn` has returned. Calls that overlap are below.
  unfoldable pub run : CircuitBreaker → ℕ → ℕ → W → CircuitBreaker × W × Outcome E
  unfolding settle
  run cb now later w =
      let (cb', ok) = allow cb now in
      let called = settle cb' later (fn w) in if ok then called else (cb', w, rejected)

  -- Calls one after another, each with its two instants.
  unfoldable pub run_all : CircuitBreaker → List (ℕ × ℕ) → W → CircuitBreaker × W × List (Outcome E)
  run_all cb [] w = (cb, w, [])
  run_all cb ((now, later) ∷ ts) w =
      let (cb', w', o) = run cb now later w in
      let (last, world, os) = run_all cb' ts w' in (last, world, o ∷ os)

-- `Run` holds no lock around `fn`, so calls overlap: each is a question, and an answer later if it
-- was let through. `reached` counts the calls that have entered `fn`, `in_flight` those still there.
pub data Event (E : Type 0) : Type 0 where
  asks : ℕ → Event E
  answers : ℕ → Option E → Event E

pub record Traffic : Type 0 where
  pub breaker : CircuitBreaker
  pub in_flight : ℕ
  pub reached : ℕ

abbrev pub quiet : CircuitBreaker → Traffic
quiet cb = record { breaker = cb; in_flight = 0; reached = 0 }

abbrev pub enter : Bool → CircuitBreaker → Traffic → Traffic
enter true cb t = record { breaker = cb; in_flight = suc t.in_flight; reached = suc t.reached }
enter false cb t = record t { breaker = cb }

-- With no call in flight there is none to answer.
abbrev pub leave : {E : Type 0} → ℕ → ℕ → Option E → Traffic → Traffic
leave zero later result t = t
leave (suc n) later result t = record t { breaker = settled result later t.breaker; in_flight = n }

unfoldable pub step : {E : Type 0} → Event E → Traffic → Traffic
step (asks now) t = let (cb, ok) = allow t.breaker now in enter ok cb t
step (answers later result) t = leave t.in_flight later result t

unfoldable pub overlap : {E : Type 0} → List (Event E) → Traffic → Traffic
overlap [] t = t
overlap (e ∷ es) t = overlap es (step e t)
