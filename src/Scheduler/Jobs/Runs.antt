-- ===== src/Scheduler/Jobs/Runs.antt =====
-- Runs of calls on the scheduler of internal/services/scheduler/scheduler.go over the store in memory:
-- what each call does to the entries of the cron.
use go_backend_core.Prelude.{ℕ, ◌+◌, ◌^◌, ◌≤◌, ◌<◌, ◌≡◌, none, List, [], ◌∷◌, String, length, arith}
use go_backend_core.Prelude.Equality.{nat_eq}
use go_backend_core.Prelude.Dict.{Dict, read}
use go_backend_core.Prelude.Result.{ok, err}
use go_backend_core.Scheduler.Store.{Task, InMemoryStore}
use go_backend_core.Scheduler.Store.Ids.{
  AreGiven, get_task_sound, create_task-Creates, delete_task-Deletes, delete_task_cases,
}
use go_backend_core.Scheduler.Store.Interface.{in_memory}
use go_backend_core.Scheduler.Handlers.{TaskHandler}
use go_backend_core.Scheduler.Cron.{Cron, CronLaws, Parsing}
use go_backend_core.Scheduler.Jobs.{
  Scheduler, Done, update_task, add_task, delete_found, delete_task, pause_task, resume_task,
}
use go_backend_core.Scheduler.Jobs.Counters.{
  add_task_store, update_task_seq, delete_task_store, pause_task_seq, resume_task_seq,
}
use go_backend_core.Scheduler.Jobs.Orphans.{HasNoOrphans, Idle}
use go_backend_core.Scheduler.Jobs.Unscheduled.{unschedule-Unscheduled, unschedule_store}
use go_backend_core.Scheduler.Jobs.Kept.{
  add_task-HasNoOrphans, update_task-HasNoOrphans, delete_found-HasNoOrphans,
  pause_found-HasNoOrphans, resume_found-HasNoOrphans,
}

pub data Call : Type 0 where
  adds updates : Task → Call
  deletes pauses resumes : ℕ → Call

module _ {K W : Type 0} (cron : Cron K) (parsing : Parsing)
    (handlers : Dict String (TaskHandler W)) where
  unfoldable pub step : ℕ → Call → Scheduler InMemoryStore K → Scheduler InMemoryStore K
  step now (adds t) s = (add_task cron parsing handlers in_memory t now s).0
  step now (updates t) s = (update_task cron parsing handlers in_memory t now s).0
  step now (deletes id) s = (delete_task cron parsing handlers in_memory id s).0
  step now (pauses id) s = (pause_task cron parsing handlers in_memory id now s).0
  step now (resumes id) s = (resume_task cron parsing handlers in_memory id now s).0

  unfoldable pub run : List (ℕ × Call) → Scheduler InMemoryStore K → Scheduler InMemoryStore K
  run [] s = s
  run ((now, call) ∷ calls) s = run calls (step now call s)

  -- A task is resumed only if the scheduler knows no entry of it.
  abbrev pub IsAllowed : Call → Scheduler InMemoryStore K → Type 0
  IsAllowed (adds t) s = Unit
  IsAllowed (updates t) s = Unit
  IsAllowed (deletes id) s = Unit
  IsAllowed (pauses id) s = Unit
  IsAllowed (resumes id) s = read id s.cron_jobs ≡ none

  abbrev pub AreAllowed : List (ℕ × Call) → Scheduler InMemoryStore K → Type 0
  AreAllowed [] s = Unit
  AreAllowed ((now, call) ∷ calls) s = IsAllowed call s × AreAllowed calls (step now call s)

  module _ (laws : CronLaws cron) where
    step-HasNoOrphans :
        (now : ℕ) (call : Call) (s : Scheduler InMemoryStore K)
        → s.store.task_seq + 1 < 2 ^ 64
        → IsAllowed call s
        → HasNoOrphans laws s
        → HasNoOrphans laws (step now call s)
    unfolding step delete_task pause_task resume_task
    step-HasNoOrphans now (adds t) s small allowed v =
        add_task-HasNoOrphans cron parsing handlers laws t now s small v
    step-HasNoOrphans now (updates t) s small allowed v =
        update_task-HasNoOrphans cron parsing handlers laws t now s v
    step-HasNoOrphans now (deletes id) s small allowed v =
        delete_found-HasNoOrphans cron parsing handlers laws id s _
          (delete_task-Deletes id s.store v.given) (delete_task_cases id s.store) v
    step-HasNoOrphans now (pauses id) s small allowed v =
        pause_found-HasNoOrphans cron parsing handlers laws now s _ v
    step-HasNoOrphans now (resumes id) s small allowed v =
        resume_found-HasNoOrphans cron parsing handlers laws id now s _
          (λ t found. (get_task_sound id s.store t found).0) allowed v

    step_seq :
        (now : ℕ) (call : Call) (s : Scheduler InMemoryStore K)
        → s.store.task_seq + 1 < 2 ^ 64
        → AreGiven s.store
        → (step now call s).store.task_seq ≤ s.store.task_seq + 1
    unfolding step
    step_seq now (adds t) s small h =
        rw (add_task_store cron parsing handlers t now s)
          (create_task-Creates t now s.store small h).counts
    step_seq now (updates t) s small h =
        rw (update_task_seq cron parsing handlers t now s) (omega arith)
    step_seq now (deletes id) s small h =
        rw (delete_task_store cron parsing handlers id s, (delete_task-Deletes id s.store h).counts)
          (omega arith)
    step_seq now (pauses id) s small h =
        rw (pause_task_seq cron parsing handlers id now s) (omega arith)
    step_seq now (resumes id) s small h =
        rw (resume_task_seq cron parsing handlers id now s) (omega arith)

    -- Let every entry of the cron run a task that the store has, under the entry that the scheduler
    -- knows for its id. Then this still holds after any run of added, updated, deleted and paused
    -- tasks, and of resumed ones that the scheduler knew no entry of, as long as the counter of ids
    -- has room. Tasks of type once wait outside the cron, and nothing is said of them.
    pub run_jobs-HasNoOrphans :
        (calls : List (ℕ × Call)) (s : Scheduler InMemoryStore K)
        → s.store.task_seq + length calls < 2 ^ 64
        → AreAllowed calls s
        → HasNoOrphans laws s
        → HasNoOrphans laws (run calls s)
    unfolding run
    run_jobs-HasNoOrphans [] s small allowed v = v
    run_jobs-HasNoOrphans ((now, call) ∷ calls) s small (a, rest) v =
        let one : s.store.task_seq + 1 < 2 ^ 64 = omega arith in
        let counts = step_seq now call s one v.given in
        run_jobs-HasNoOrphans calls (step now call s) (omega arith) rest
          (step-HasNoOrphans now call s one a v)

    delete_found-Idle :
        (id : ℕ) (s : Scheduler InMemoryStore K) (r : InMemoryStore × Done)
        → (delete_found cron parsing handlers in_memory id s r).1 ≡ ok tt
        → HasNoOrphans laws s
        → Idle laws id (delete_found cron parsing handlers in_memory id s r).0.cron
    delete_found-Idle id s (st, err e) done v = absurd (cc)
    delete_found-Idle id s (st, ok u) done v =
        rw unschedule_store (unschedule-Unscheduled laws id s v).idle

    -- Once a deletion has succeeded, no entry of the cron runs the task, provided that the scheduler
    -- knew the entries of the tasks before.
    pub delete_task-Idle :
        (id : ℕ) (s : Scheduler InMemoryStore K)
        → (delete_task cron parsing handlers in_memory id s).1 ≡ ok tt
        → HasNoOrphans laws s
        → Idle laws id (delete_task cron parsing handlers in_memory id s).0.cron
    unfolding delete_task
    delete_task-Idle id s done v = delete_found-Idle id s _ done v
