-- ===== src/EventBus/DeadLetter.antt =====
-- internal/services/eventbus/deadletter.go: the queue of failed events in memory. A handler is a
-- parameter that may change a world, but does not call the queue itself; the world has the clock.
pub mod Newest
pub mod Replayed
mod Tests
use go_backend_core.Prelude.{
  ℕ, Option, none, some, List, [], ◌∷◌, ◌++◌, String, length, drop, leb, if◌then◌else◌,
}
use go_backend_core.Prelude.Int.{ℤ, pos, pos_part, ◌+ℤ◌, leb_ℤ, wrap64}

pub record Event (Payload : Type 0) : Type 0 where
  pub id : String
  pub topic : String
  pub source : String
  pub timestamp : ℕ
  pub payload : Payload

pub record DeadLetterEntry (Payload : Type 0) : Type 0 where
  pub event : Event Payload
  pub reason : String
  pub retries : ℤ
  pub last_attempt : ℕ

pub record DeadLetterQueue (Payload : Type 0) : Type 0 where
  pub entries : List (DeadLetterEntry Payload)
  pub max_size : ℤ

unfoldable pub new_dead_letter_queue : {P : Type 0} → ℤ → DeadLetterQueue P
new_dead_letter_queue max_size = record {
  entries = [];
  max_size = if leb_ℤ max_size (pos 0) then pos 1000 else max_size;
}

-- `DeadLetterEntry{...}` of a failed event.
abbrev pub entry_of : {P : Type 0} → Event P → String → ℤ → ℕ → DeadLetterEntry P
entry_of event reason retries now = record {
  event = event;
  reason = reason;
  retries = retries;
  last_attempt = now;
}

-- `entries[1:]` of an empty slice, which would panic, is only reached with a bound below 1, which
-- the constructor never gives.
unfoldable pub push :
    {P : Type 0} → Event P → String → ℤ → ℕ → DeadLetterQueue P → DeadLetterQueue P
push event reason retries now q =
    let kept = if leb_ℤ q.max_size (pos (length q.entries)) then drop 1 q.entries else q.entries in
    record q { entries = kept ++ entry_of event reason retries now ∷ [] }

unfoldable pub list : {P : Type 0} → DeadLetterQueue P → List (DeadLetterEntry P)
list q = q.entries

unfoldable pub len : {P : Type 0} → DeadLetterQueue P → ℕ
len q = length q.entries

-- `replay failed for event %s: %w`, by the event's id and the handler's error.
pub record ReplayError : Type 0 where
  pub event_id : String
  pub cause : String

module _ {P W : Type 0} (now : W → ℕ) (handler : W → Event P → W × Option String) where
  -- The body of the loop after the handler has returned.
  abbrev pub requeue :
      DeadLetterEntry P
      → W × Option String
      → DeadLetterQueue P
      → DeadLetterQueue P × List ReplayError
  requeue e (w, none) q = (q, [])
  requeue e (w, some cause) q = (
    push e.event cause (wrap64 (e.retries +ℤ pos 1)) (now w) q,
    record { event_id = e.event.id; cause = cause } ∷ [],
  )

  -- The loop over the entries that were taken out.
  unfoldable pub replay_entries :
      List (DeadLetterEntry P) → W → DeadLetterQueue P → W × DeadLetterQueue P × List ReplayError
  replay_entries [] w q = (w, q, [])
  replay_entries (e ∷ es) w q =
      let called = handler w e.event in
      let (q', errs) = requeue e called q in
      let (w', last, more) = replay_entries es called.0 q' in (w', last, errs ++ more)

  unfoldable pub replay : W → DeadLetterQueue P → W × DeadLetterQueue P × List ReplayError
  replay w q = replay_entries q.entries w (record q { entries = [] })
