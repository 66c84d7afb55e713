-- ===== src/Scheduler/Execution/Logged.antt =====
-- The log that one run of a task leaves in the store of internal/services/scheduler/store.go.
use go_backend_core.Prelude.{
  ℕ, ◌+◌, ◌%◌, ◌^◌, ◌≤◌, ◌<◌, ◌≡◌, refl, ap, true, false, Option, none, some, List, [], ◌∷◌, ◌++◌,
  String, All, arith,
}
use go_backend_core.Prelude.Int.{ℤ}
use go_backend_core.Prelude.Equality.{◌==◌, nat_eq}
use go_backend_core.Prelude.Dict.{Dict}
use go_backend_core.Prelude.Search.{modify_first}
use go_backend_core.Scheduler.Store.{Task, TaskLog, InMemoryStore, create_task_log, update_task_log}
use go_backend_core.Scheduler.Store.Interface.{in_memory}
use go_backend_core.Scheduler.Handlers.{TaskHandler, get_handler}
use go_backend_core.Scheduler.Execution.{
  Readings, log_entry, finished, run_logged, seconds, execute_task,
}

-- Every log has an id that was given.
abbrev pub AreLogged : InMemoryStore → Type 0
AreLogged s = All (λ l. l.id ≤ s.log_seq) s.task_logs

-- Replacing the last log by its id, when the others have smaller ones.
replace_last :
    (n : ℕ) (ls : List TaskLog) (last new : TaskLog)
    → All (λ l. l.id ≤ n) ls
    → last.id ≡ n + 1
    → new.id ≡ n + 1
    → modify_first (λ (old : TaskLog). old.id == new.id) (λ old. new) (ls ++ last ∷ [])
      ≡ ls ++ new ∷ []
unfolding modify_first
replace_last n [] last new h e e' =
    let same : (last.id == new.id) ≡ true = ground (arith, nat_eq.equals_iff last.id new.id) in
    rw same
replace_last n (l ∷ ls) last new (h, hs) e e' =
    let other : (l.id == new.id) ≡ false = ground (arith, nat_eq.equals_iff l.id new.id) in
    rw other (ap (λ xs. l ∷ xs) (replace_last n ls last new hs e e'))

-- The log of a run, as the store has it before the handler runs.
abbrev pub started_log : ℕ → ℕ → String → Readings → TaskLog
started_log id task name at = record (log_entry task name at.started) {
  id = id;
  created_at = some at.created;
}

-- The log that is written back goes over the one that was written at the start.
written_back :
    (task : ℕ) (name : String) (at : Readings) (s : InMemoryStore) (e : Option String)
    → s.log_seq + 1 < 2 ^ 64
    → AreLogged s
    → (let (s', l) = create_task_log (log_entry task name at.started) at.created s in
        update_task_log (finished l at.ended e) s')
      ≡ record s {
        task_logs =
            s.task_logs ++ finished (started_log (s.log_seq + 1) task name at) at.ended e ∷ [];
        log_seq = s.log_seq + 1;
      }
unfolding create_task_log update_task_log
written_back task name at s none small logged =
    let next : (s.log_seq + 1) % 2 ^ 64 ≡ s.log_seq + 1 = omega arith in
    rw next (
      ap (λ ls. record s { task_logs = ls; log_seq = s.log_seq + 1 })
        (replace_last s.log_seq s.task_logs _ _ logged refl refl))
written_back task name at s (some e) small logged =
    let next : (s.log_seq + 1) % 2 ^ 64 ≡ s.log_seq + 1 = omega arith in
    rw next (
      ap (λ ls. record s { task_logs = ls; log_seq = s.log_seq + 1 })
        (replace_last s.log_seq s.task_logs _ _ logged refl refl))

-- `s` with one more log, of a run that ended with `e`.
abbrev pub with_log : ℕ → String → Readings → Option String → InMemoryStore → InMemoryStore
with_log task name at e s = record s {
  task_logs = s.task_logs ++ finished (started_log (s.log_seq + 1) task name at) at.ended e ∷ [];
  log_seq = s.log_seq + 1;
}

module _ {W : Type 0} where
  run_logged_lem :
      (h : TaskHandler W) (task : ℕ) (name : String) (payload : Option (List ℕ)) (deadline : ℤ)
      (at : Readings) (s : InMemoryStore) (w : W)
      → s.log_seq + 1 < 2 ^ 64
      → AreLogged s
      → run_logged in_memory h task name payload deadline at s w
        ≡ (let (w', e) = h.execute payload deadline w in (with_log task name at e s, w', e))
  unfolding run_logged
  run_logged_lem h task name payload deadline at s w small logged =
      ap (λ st. (st, (h.execute payload deadline w).0, (h.execute payload deadline w).1))
        (written_back task name at s (h.execute payload deadline w).1 small logged)

  -- Without a queue, a task whose handler is registered runs it once, with its payload and its timeout
  -- as the deadline, and the store gets exactly one more log, with a new id: ended, successful if the
  -- handler gave no error, and failed with its error if it gave one. Tasks and older logs stay. This
  -- holds while the counter of logs has room and no log has an id beyond it.
  pub execute_task_logs :
      (handlers : Dict String (TaskHandler W)) (h : TaskHandler W) (t : Task) (at : Readings)
      (s : InMemoryStore) (w : W)
      → s.log_seq + 1 < 2 ^ 64
      → AreLogged s
      → get_handler t.handler handlers ≡ some h
      → execute_task in_memory handlers none t at s w ≡ (
          let (w', e) = h.execute t.payload (seconds t.timeout) w in
          (with_log t.id t.name at e s, w'))
  unfolding execute_task
  execute_task_logs handlers h t at s w small logged found =
      rw (found, run_logged_lem h t.id t.name t.payload (seconds t.timeout) at s w small logged)
        refl
