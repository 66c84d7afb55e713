-- ===== src/EventBus/DeadLetter/Replayed.antt =====
-- Replaying the queue of internal/services/eventbus/deadletter.go.
use go_backend_core.Prelude.{
  ℕ, ◌+◌, ◌≤◌, ◌<◌, ◌≡◌, refl, ap, false, inl, inr, Option, none, some, List, [], ◌∷◌, ◌++◌, String,
  length, drop, arith, Bool-cases, length-append, length-drop,
}
use go_backend_core.Prelude.Int.{ℤ, pos, leb_ℤ, wrap64, ◌+ℤ◌}
use go_backend_core.EventBus.DeadLetter.{
  Event, DeadLetterEntry, DeadLetterQueue, ReplayError, entry_of, push, requeue, replay_entries,
  replay, new_dead_letter_queue,
}
use go_backend_core.EventBus.DeadLetter.Newest.{
  IsBounded, new_dead_letter_queue-IsBounded, append-nil, append_assoc,
}

module _ {P W : Type 0} (now : W → ℕ) (handler : W → Event P → W × Option String) where
  -- The world after the handler has had each entry's event once, in order.
  abbrev pub handled : W → List (DeadLetterEntry P) → W
  handled w [] = w
  handled w (e ∷ es) = handled (handler w e.event).0 es

  abbrev failed_entry : DeadLetterEntry P → W × Option String → List (DeadLetterEntry P)
  failed_entry e (w, none) = []
  failed_entry e (w, some cause) = entry_of e.event cause (wrap64 (e.retries +ℤ pos 1)) (now w) ∷ []

  -- The entries whose events the handler refuses, each with one more retry and the new reason.
  abbrev pub failed : W → List (DeadLetterEntry P) → List (DeadLetterEntry P)
  failed w [] = []
  failed w (e ∷ es) = failed_entry e (handler w e.event) ++ failed (handler w e.event).0 es

  abbrev failure : DeadLetterEntry P → W × Option String → List ReplayError
  failure e (w, none) = []
  failure e (w, some cause) = record { event_id = e.event.id; cause = cause } ∷ []

  abbrev pub failures : W → List (DeadLetterEntry P) → List ReplayError
  failures w [] = []
  failures w (e ∷ es) = failure e (handler w e.event) ++ failures (handler w e.event).0 es

  -- Pushing below the bound drops nothing.
  requeue_lem :
      (e : DeadLetterEntry P) (called : W × Option String) (q : DeadLetterQueue P) (n : ℕ)
      → q.max_size ≡ pos n
      → length q.entries < n
      → requeue now handler e called q
        ≡ (record q { entries = q.entries ++ failed_entry e called }, failure e called)
  unfolding push
  requeue_lem e (w, none) q n bound fits = rw (append-nil q.entries) refl
  requeue_lem e (w, some cause) q n bound fits =
      let test : leb_ℤ (pos n) (pos (length q.entries)) ≡ false = ground arith in
      rw (bound, test) refl

  failed_entry-length :
      (e : DeadLetterEntry P) (called : W × Option String) → length (failed_entry e called) ≤ 1
  failed_entry-length e (w, none) = omega arith
  failed_entry-length e (w, some cause) = omega arith

  replay_entries_lem :
      (es : List (DeadLetterEntry P)) (w : W) (q : DeadLetterQueue P) (n : ℕ)
      → q.max_size ≡ pos n
      → length q.entries + length es ≤ n
      → replay_entries now handler es w q
        ≡ (handled w es, record q { entries = q.entries ++ failed w es }, failures w es)
  unfolding replay_entries
  replay_entries_lem [] w q n bound fits = rw (append-nil q.entries) refl
  replay_entries_lem (e ∷ es) w q n bound fits =
      let called = handler w e.event in
      let q' : DeadLetterQueue P = record q { entries = q.entries ++ failed_entry e called } in
      rw
        (
          requeue_lem e called q n bound (omega arith),
          replay_entries_lem es called.0 q' n bound (
              omega (
                arith,
                length-append q.entries (failed_entry e called),
                failed_entry-length e called,
              )),
          append_assoc q.entries (failed_entry e called) (failed called.0 es),
        )
        refl

  -- Replaying a queue within its bound hands every event to the handler once, in order, keeps exactly
  -- the entries whose events fail, with one more retry (in 64 bits), and returns their errors.
  pub replay_lem :
      (w : W) (q : DeadLetterQueue P)
      → IsBounded q
      → replay now handler w q
        ≡ (handled w q.entries, record q { entries = failed w q.entries }, failures w q.entries)
  unfolding replay
  replay_lem w q b =
      replay_entries_lem q.entries w (record q { entries = [] }) b.capacity b.bound
        (omega (arith, b.fits))

  failed-length : (w : W) (es : List (DeadLetterEntry P)) → length (failed w es) ≤ length es
  failed-length w [] = omega arith
  failed-length w (e ∷ es) = omega (
    arith,
    length-append (failed_entry e (handler w e.event)) (failed (handler w e.event).0 es),
    failed_entry-length e (handler w e.event),
    failed-length (handler w e.event).0 es,
  )

  push-IsBounded :
      (event : Event P) (reason : String) (retries : ℤ) (t : ℕ) (q : DeadLetterQueue P)
      → IsBounded q
      → IsBounded (push event reason retries t q)
  unfolding push
  push-IsBounded event reason retries t q b =
      let e = entry_of event reason retries t in
      record {
        capacity = b.capacity;
        positive = b.positive;
        bound = b.bound;
        fits = elim (Bool-cases (leb_ℤ q.max_size (pos (length q.entries)))) [
          | inl full ↦ rw full (
              ground (
                arith,
                b.positive,
                b.fits,
                length-append (drop 1 q.entries) (e ∷ []),
                length-drop 1 q.entries,
              ))
          | inr room ↦ rw room (
              ground (
                arith,
                b.bound,
                room,
                ap (λ m. leb_ℤ m (pos (length q.entries))) b.bound,
                length-append q.entries (e ∷ []),
              ))
        ];
      }

  replay-IsBounded :
      (w : W) (q : DeadLetterQueue P) → IsBounded q → IsBounded (replay now handler w q).1
  replay-IsBounded w q b = rw (replay_lem w q b) (record {
    capacity = b.capacity;
    positive = b.positive;
    bound = b.bound;
    fits = omega (arith, b.fits, failed-length w q.entries);
  })

  -- Calls of the queue; a replay hands its entries to the one handler.
  pub data Call : Type 0 where
    pushes : Event P → String → ℤ → Call
    replays : Call

  unfoldable pub run : W → DeadLetterQueue P → List Call → W × DeadLetterQueue P
  run w q [] = (w, q)
  run w q (pushes event reason retries ∷ cs) = run w (push event reason retries (now w) q) cs
  run w q (replays ∷ cs) = let (w', q', errs) = replay now handler w q in run w' q' cs

  run-IsBounded :
      (w : W) (q : DeadLetterQueue P) (cs : List Call) → IsBounded q → IsBounded (run w q cs).1
  unfolding run
  run-IsBounded w q [] b = b
  run-IsBounded w q (pushes event reason retries ∷ cs) b =
      run-IsBounded w (push event reason retries (now w) q) cs
        (push-IsBounded event reason retries (now w) q b)
  run-IsBounded w q (replays ∷ cs) b =
      run-IsBounded (replay now handler w q).0 (replay now handler w q).1 cs
        (replay-IsBounded w q b)

  -- Whatever is pushed to a new queue and however often it is replayed, it keeps its capacity and
  -- never holds more entries.
  pub run_queue-IsBounded :
      (w : W) (max_size : ℤ) (cs : List Call)
      → IsBounded (run w (new_dead_letter_queue max_size) cs).1
  run_queue-IsBounded w max_size cs =
      run-IsBounded w (new_dead_letter_queue max_size) cs (new_dead_letter_queue-IsBounded max_size)
