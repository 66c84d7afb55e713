-- ===== src/Database/Breaker/Overlap.antt =====
-- How many overlapping calls the breaker of internal/database/breaker.go lets through to a database
-- that is down.
use go_backend_core.Prelude.{
  ℕ, zero, suc, ◌+◌, ◌-◌, ◌≤◌, ◌<◌, ◌≡◌, refl, ap, ◌∙◌, Option, none, some, List, [], ◌∷◌, All,
  arith, min, leb, Bool-cases, inl, inr, if◌then◌else◌,
}
use go_backend_core.Prelude.Int.{pos, half64}
use go_backend_core.Database.Breaker.{
  CircuitBreaker, new_circuit_breaker, allow, failure, run, settle, settled, Event, asks, answers,
  Traffic, quiet, step, overlap,
}
use go_backend_core.Database.Breaker.Phases.{
  IsOpened, IsClosed, opened_allow, failure-IsOpened, closed_allow, failure-IsClosed,
}

settle-settled :
    {W E : Type 0} (fn : W → W × Option E) (cb : CircuitBreaker) (later : ℕ) (r : W × Option E)
    → (settle fn cb later r).0 ≡ settled r.1 later cb
unfolding settle
settle-settled fn cb later (w, some e) = refl
settle-settled fn cb later (w, none) = refl

-- A call of `Run` by itself is its question with its answer right after.
run-overlap :
    {W E : Type 0} (fn : W → W × Option E) (cb : CircuitBreaker) (now later : ℕ) (w : W)
    → (run fn cb now later w).0
      ≡ (overlap (asks now ∷ answers later (fn w).1 ∷ []) (quiet cb)).breaker
unfolding run overlap step
run-overlap fn cb now later w = elim (Bool-cases (allow cb now).1) [
  | inl through ↦ rw through (settle-settled fn (allow cb now).0 later (fn w))
  | inr refused ↦ rw refused refl
]

abbrev traffic : CircuitBreaker → ℕ → ℕ → Traffic
traffic cb n reached = record { breaker = cb; in_flight = n; reached = reached }

asked_step :
    (E : Type 0) (cb : CircuitBreaker) (k n d limit now : ℕ)
    → IsClosed d k limit cb
    → step {E = E} (asks now) (traffic cb n (k + n)) ≡ traffic cb (suc n) (k + suc n)
unfolding step
asked_step E cb k n d limit now c =
    let sum : suc (k + n) ≡ k + suc n = omega arith in
    rw (closed_allow cb d k limit now c) (ap (traffic cb (suc n)) sum)

refused_step :
    (E : Type 0) (cb : CircuitBreaker) (n reached d start now : ℕ)
    → IsOpened d start cb
    → now ≤ start + d
    → step {E = E} (asks now) (traffic cb n reached) ≡ traffic cb n reached
unfolding step
refused_step E cb n reached d start now o h = rw (opened_allow cb d start now o h) refl

module _ {E : Type 0} where
  abbrev pub asked : List (Event E) → ℕ
  asked [] = 0
  asked (asks now ∷ es) = suc (asked es)
  asked (answers later result ∷ es) = asked es

  -- The most calls that are in flight at once.
  abbrev pub peak : List (Event E) → Traffic → ℕ
  peak [] t = t.in_flight
  peak (e ∷ es) t =
      let rest = peak es (step e t) in if leb t.in_flight rest then rest else t.in_flight

  -- The database is down: each answer is an error, at `start` or later, and no question is asked
  -- more than `d` after `start`.
  abbrev pub IsDown : ℕ → ℕ → Event E → Type 0
  IsDown start d (asks now) = now ≤ start + d
  IsDown start d (answers later (some e)) = start ≤ later
  IsDown start d (answers later none) = ⊥

  opened_overlap :
      (es : List (Event E)) (cb : CircuitBreaker) (n reached d start : ℕ)
      → IsOpened d start cb
      → All (IsDown start d) es
      → (overlap es (traffic cb n reached)).reached ≡ reached
  unfolding overlap step
  opened_overlap [] cb n reached d start o a = refl
  opened_overlap (asks now ∷ es) cb n reached d start o (h, a) =
      ap (λ t. (overlap es t).reached) (refused_step E cb n reached d start now o h)
      ∙ opened_overlap es cb n reached d start o a
  opened_overlap (answers later none ∷ es) cb n reached d start o (h, a) = elim h [ ]
  opened_overlap (answers later (some e) ∷ es) cb zero reached d start o (h, a) =
      opened_overlap es cb zero reached d start o a
  opened_overlap (answers later (some e) ∷ es) cb (suc n) reached d start o (h, a) =
      opened_overlap es (failure cb later) n reached d start (failure-IsOpened cb d start later o h)
        a

  peak-ge : (es : List (Event E)) (t : Traffic) → t.in_flight ≤ peak es t
  peak-ge [] t = omega arith
  peak-ge (e ∷ es) t = ground arith

  peak-step :
      (e : Event E) (es : List (Event E)) (t : Traffic) → peak es (step e t) ≤ peak (e ∷ es) t
  peak-step e es t = ground arith

  -- Between these bounds is what has reached the database.
  IsBetween : ℕ → ℕ → ℕ → List (Event E) → Traffic → Type 0
  IsBetween limit k n es t =
      (min (k + n + asked es) limit ≤ (overlap es t).reached)
      × ((overlap es t).reached ≤ min (k + n + asked es) (limit - 1 + peak es t))

  closed_overlap :
      (es : List (Event E)) (cb : CircuitBreaker) (k n d start limit : ℕ)
      → IsClosed d k limit cb
      → limit < half64
      → All (IsDown start d) es
      → IsBetween limit k n es (traffic cb n (k + n))
  unfolding overlap IsBetween step
  closed_overlap [] cb k n d start limit c fits a = (omega arith, omega (arith, c.under))
  closed_overlap (asks now ∷ es) cb k n d start limit c fits (h, a) =
      let asking = asked_step E cb k n d limit now c in
      let (low, high) = closed_overlap es cb k (suc n) d start limit c fits a in
      let same = ap (λ t. (overlap es t).reached) asking in
      let top = ap (λ t. peak es t) asking in
      let most = peak-step (asks now) es (traffic cb n (k + n)) in
      (omega (arith, low, same), omega (arith, high, same, top, most))
  closed_overlap (answers later none ∷ es) cb k n d start limit c fits (h, a) = elim h [ ]
  closed_overlap (answers later (some e) ∷ es) cb k zero d start limit c fits (h, a) =
      let (low, high) = closed_overlap es cb k 0 d start limit c fits a in
      let most = peak-step (answers later (some e)) es (traffic cb 0 (k + 0)) in
      (omega (arith, low), omega (arith, high, most))
  closed_overlap (answers later (some e) ∷ es) cb k (suc n) d start limit c fits (h, a) =
      let most = peak-step (answers later (some e)) es (traffic cb (suc n) (k + suc n)) in
      let here = peak-ge (answers later (some e) ∷ es) (traffic cb (suc n) (k + suc n)) in
      elim (failure-IsClosed cb d start k limit later fits h c) [
        | inl still ↦
            let (low, high) =
              closed_overlap es (failure cb later) (suc k) n d start limit still fits a in
            let sum : suc k + n ≡ k + suc n = omega arith in
            let same = ap (λ r. (overlap es (traffic (failure cb later) n r)).reached) sum in
            let top = ap (λ r. peak es (traffic (failure cb later) n r)) sum in
            (omega (arith, low, same), omega (arith, high, same, top, most))
        | inr (last, o) ↦
            let stays = opened_overlap es (failure cb later) n (k + suc n) d start o a in
            (omega (arith, stays, last), omega (arith, stays, last, here, c.under))
      ]

-- While the database is down, let the calls of a fresh breaker overlap in any way, with each answer at
-- or after an instant `start` and no question more than one TTL after it, for a TTL above zero and a
-- threshold above zero that fits an int64. Then as many calls reach `fn` as ask, or at least the
-- threshold, and no more than one fewer than the threshold together with the most calls that are in
-- flight at once.
pub outage_reaches :
    {E : Type 0} (limit d start : ℕ) (es : List (Event E))
    → 0 < limit
    → limit < half64
    → 0 < d
    → All (IsDown start d) es
    → let fresh = quiet (new_circuit_breaker (pos limit) (pos d)) in
      (min (asked es) limit ≤ (overlap es fresh).reached)
      × ((overlap es fresh).reached ≤ min (asked es) (limit - 1 + peak es fresh))
unfolding new_circuit_breaker IsBetween
outage_reaches limit d start es positive fits ttl a =
    let cb = new_circuit_breaker (pos limit) (pos d) in
    let (low, high) =
      closed_overlap es cb 0 0 d start limit
        (record {
          phase = refl;
          ttl = ground arith;
          count = refl;
          most = ground arith;
          under = positive;
        })
        fits a in
    (omega (arith, low), omega (arith, high))
