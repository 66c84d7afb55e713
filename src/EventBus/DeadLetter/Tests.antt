-- ===== src/EventBus/DeadLetter/Tests.antt =====
-- The queue at concrete events, with a handler that refuses every event but "b".
use go_backend_core.Prelude.{
  ℕ, ◌+◌, ◌≡◌, refl, Option, none, some, [], ◌∷◌, String, arith, if◌then◌else◌,
}
use go_backend_core.Prelude.Int.{pos, wrap64, ◌+ℤ◌}
use go_backend_core.Prelude.Equality.{◌==◌, string_eq}
use go_backend_core.EventBus.DeadLetter.{
  Event, DeadLetterQueue, entry_of, new_dead_letter_queue, replay,
}
use go_backend_core.EventBus.DeadLetter.Newest.{IsBounded, push_all, push_all_newest, Pushed}
use go_backend_core.EventBus.DeadLetter.Replayed.{
  replay_lem, pushes, replays, run, run_queue-IsBounded,
}

abbrev event : String → Event ℕ
event id = record { id = id; topic = "t"; source = "s"; timestamp = 1; payload = 0 }

-- The world counts the calls, and is its own clock.
abbrev handler : ℕ → Event ℕ → ℕ × Option String
handler w e = if e.id == "b" then (w + 1, none) else (w + 1, some "no")

abbrev queue : DeadLetterQueue ℕ
queue = record {
  entries = entry_of (event "a") "x" (pos 0) 1 ∷ entry_of (event "b") "y" (pos 3) 2 ∷ [];
  max_size = pos 2;
}

queue-IsBounded : IsBounded queue
queue-IsBounded = record { capacity = 2; positive = omega arith; bound = refl; fits = omega arith }

replay_lem_example : replay (λ w. w) handler 7 queue ≡ (
  9,
  record queue { entries = entry_of (event "a") "no" (wrap64 (pos 0 +ℤ pos 1)) 8 ∷ [] },
  record { event_id = "a"; cause = "no" } ∷ [],
)
replay_lem_example = replay_lem (λ w. w) handler 7 queue queue-IsBounded

abbrev pushed : String → Pushed ℕ
pushed id = (event id, "x", pos 0, 1)

push_all_newest_test :
    (push_all (pushed "a" ∷ pushed "b" ∷ pushed "c" ∷ []) (new_dead_letter_queue (pos 2))).entries
    ≡ entry_of (event "b") "x" (pos 0) 1 ∷ entry_of (event "c") "x" (pos 0) 1 ∷ []
push_all_newest_test = push_all_newest (pos 2) (pushed "a" ∷ pushed "b" ∷ pushed "c" ∷ [])

run_queue-IsBounded_test :
    IsBounded
      (run
        (λ w. w)
        handler
        7
        (new_dead_letter_queue (pos 1))
        (pushes (event "a") "x" (pos 0) ∷ pushes (event "b") "y" (pos 0) ∷ replays ∷ [])).1
run_queue-IsBounded_test =
    run_queue-IsBounded (λ w. w) handler 7 (pos 1)
      (pushes (event "a") "x" (pos 0) ∷ pushes (event "b") "y" (pos 0) ∷ replays ∷ [])
