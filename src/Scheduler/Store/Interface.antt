-- ===== src/Scheduler/Store/Interface.antt =====
-- The part of the interface Store of internal/services/scheduler/store.go that the scheduler calls,
-- and the store in memory as one of it.
use go_backend_core.Prelude.{ℕ, List, String}
use go_backend_core.Prelude.Result.{Result, ok}
use go_backend_core.Scheduler.Store.{
  Task, TaskLog, TaskError, InMemoryStore, create_task, update_task, delete_task, get_task,
  list_active_tasks, create_task_log, update_task_log,
}

pub record TaskStore (S : Type 0) : Type 0 where
  pub create : Task → ℕ → S → S × Result TaskError Task
  pub update : Task → ℕ → S → S × Result TaskError Task
  pub delete : ℕ → S → S × Result TaskError (Unit {0})
  pub get : ℕ → S → Result TaskError Task
  pub list_active : S → Result String (List Task)
  pub create_log : TaskLog → ℕ → S → S × TaskLog
  pub update_log : TaskLog → S → S

abbrev pub in_memory : TaskStore InMemoryStore
in_memory = record {
  create = create_task;
  update = update_task;
  delete = delete_task;
  get = get_task;
  list_active = λ s. ok (list_active_tasks s);
  create_log = create_task_log;
  update_log = update_task_log;
}
