-- ===== src/Scheduler/Tests.antt =====
-- The scheduler at a concrete cron, with a handler that counts its runs.
use go_backend_core.Prelude.{
  ℕ, suc, ◌≡◌, refl, ◌+◌, none, some, List, [], ◌∷◌, String, true, false, Bool-cases, inl, inr,
  arith, if◌then◌else◌,
}
use go_backend_core.Prelude.Int.{pos}
use go_backend_core.Prelude.Equality.{◌==◌, nat_eq, string_eq}
use go_backend_core.Prelude.Dict.{Dict, read, write, delete, read-write, read-delete}
use go_backend_core.Prelude.Result.{Result, ok, err}
use go_backend_core.Prelude.Search.{find_first, modify_first}
use go_backend_core.Scheduler.Store.{
  Task, TaskLog, success, InMemoryStore, new_in_memory_store, create_task, task_logs,
}
use go_backend_core.Scheduler.Store
use go_backend_core.Scheduler.Store.Interface.{in_memory}
use go_backend_core.Scheduler.Handlers.{TaskHandler, get_handler}
use go_backend_core.Scheduler.Execution.{Readings, execute_task}
use go_backend_core.Scheduler.Execution.Logged.{execute_task_logs, with_log}
use go_backend_core.Scheduler.Cron.{Cron, CronLaws, Parsing, job_added}
use go_backend_core.Scheduler.Jobs.{
  Scheduler, new_scheduler, start, schedule_task, schedule_all, unschedule, add_task, delete_task,
  pause_task, resume_task,
}
use go_backend_core.Scheduler.Jobs.Orphans.{HasNoOrphans, Idle, job_in}
use go_backend_core.Scheduler.Jobs.Runs.{
  Call, adds, updates, deletes, pauses, resumes, step, run, run_jobs-HasNoOrphans, delete_task-Idle,
}

-- Its entries, and the next number.
record Table : Type 0 where
  entries : Dict ℕ Task
  next : ℕ

abbrev added : Task → Table → Table
added t k = record { entries = write k.next t k.entries; next = k.next + 1 }

-- The empty expression is wrong.
abbrev add_expression : String → Task → Table → Table × Result String ℕ
add_expression expression t k =
    if expression == "" then (k, err "empty") else (added t k, ok k.next)

abbrev cron : Cron Table
cron = record {
  new = record { entries = []; next = 1 };
  add_func = add_expression;
  schedule_every = λ every t k. (added t k, k.next);
  remove = λ entry k. record k { entries = delete entry k.entries };
  stop = λ k. k;
}

add_expression-job :
    (e : ℕ) (expression : String) (t : Task) (k : Table)
    → read e (add_expression expression t k).0.entries
      ≡ job_added e t (add_expression expression t k).1 (read e k.entries)
add_expression-job e expression t k = elim (Bool-cases (expression == "")) [
  | inl wrong ↦ rw wrong refl
  | inr right ↦ rw right (read-write k.next e t k.entries)
]

empty-job : (e : ℕ) → read e cron.new.entries ≡ none
unfolding read
empty-job e = refl

abbrev laws : CronLaws cron
laws = record {
  job = λ e k. read e k.entries;
  job-new = empty-job;
  job-add_func = add_expression-job;
  job-schedule_every = λ e every t k. read-write k.next e t k.entries;
  job-remove = λ e entry k. read-delete entry e k.entries;
}

-- A duration that is always a minute, and no time.
abbrev parsing : Parsing
parsing = record { parse_duration = λ text. ok (pos 60000000000); parse_time = λ text. none }

abbrev counting : TaskHandler ℕ
counting = record { name = "count"; execute = λ payload deadline runs. (suc runs, none) }

abbrev handlers : Dict String (TaskHandler ℕ)
handlers = ("count", counting) ∷ []

abbrev every_minute : Task
every_minute = record {
  id = 0;
  name = "counter";
  type = "interval";
  expression = "1m";
  handler = "count";
  payload = none;
  status = "";
  max_retries = pos 0;
  timeout = pos 0;
  last_run_at = none;
  next_run_at = none;
  created_at = none;
  updated_at = 0;
}

abbrev started : Scheduler InMemoryStore Table
started = record {
  store = new_in_memory_store;
  cron = some cron.new;
  cron_jobs = [];
  waiting = [];
  closed = false;
  timeout = pos 300;
  max_retries = pos 3;
}

start_test :
    (start cron parsing handlers in_memory none 0 (
      new_scheduler new_in_memory_store (record {
        enabled = true;
        worker_concurrency = pos 0;
        default_timeout = pos 0;
        default_max_retries = pos 0;
        log_retention_days = pos 0;
      }))).0
    ≡ started
unfolding start schedule_all Store.list_active_tasks
start_test = refl

started-HasNoOrphans : HasNoOrphans laws started
unfolding read
started-HasNoOrphans = record {
  given = tt;
  known = λ e t runs. absurd (cc);
  stored = λ e t runs. absurd (cc);
}

abbrev calls : List (ℕ × Call)
calls = (5, adds every_minute) ∷ (6, pauses 1) ∷ (7, updates (record every_minute { id = 1 })) ∷ []

run_jobs-HasNoOrphans_example : HasNoOrphans laws (run cron parsing handlers calls started)
run_jobs-HasNoOrphans_example =
    run_jobs-HasNoOrphans cron parsing handlers laws calls started (omega arith)
      (tt, (tt, (tt, tt))) started-HasNoOrphans

abbrev one_added : Scheduler InMemoryStore Table
one_added = run cron parsing handlers ((5, adds every_minute) ∷ []) started

one_added-HasNoOrphans : HasNoOrphans laws one_added
one_added-HasNoOrphans =
    run_jobs-HasNoOrphans cron parsing handlers laws _ started (omega arith) (tt, tt)
      started-HasNoOrphans

one_deleted : (delete_task cron parsing handlers in_memory 1 one_added).1 ≡ ok tt
unfolding run step add_task delete_task create_task Store.delete_task find_first schedule_task
    get_handler read
one_deleted = refl

delete_task-Idle_example :
    Idle laws 1 (delete_task cron parsing handlers in_memory 1 one_added).0.cron
delete_task-Idle_example =
    delete_task-Idle cron parsing handlers laws 1 one_added one_deleted one_added-HasNoOrphans

-- A task that is paused, resumed and deleted keeps the entry that it had first.
deleted_task_runs :
    (e : ℕ) × (t : Task) × (job_in laws
        (run cron parsing handlers
          ((5, adds every_minute) ∷ (6, pauses 1) ∷ (7, resumes 1) ∷ (8, deletes 1) ∷ [])
          started).cron
        e
      ≡ some t)
unfolding run step add_task delete_task pause_task resume_task create_task Store.delete_task
    Store.get_task Store.update_task find_first schedule_task get_handler read modify_first
    unschedule write delete
deleted_task_runs = (1, _, refl)

abbrev at_one : Readings
at_one = record { started = 10; created = 11; ended = 12 }

counting_found : get_handler "count" handlers ≡ some counting
unfolding get_handler read
counting_found = refl

execute_task_logs_example :
    execute_task in_memory handlers none
      (record every_minute { id = 1 })
      at_one
      new_in_memory_store
      4
    ≡ (with_log 1 "counter" at_one none new_in_memory_store, 5)
execute_task_logs_example =
    execute_task_logs handlers counting (record every_minute { id = 1 }) at_one new_in_memory_store
      4 (omega arith) tt counting_found
