-- ===== src/Scheduler/Store.antt =====
-- internal/services/scheduler/task.go and the store in memory of store.go. An instant is a number,
-- `none` is the zero time or a nil pointer, and an id has 64 bits.
pub mod Ids
pub mod Interface
use go_backend_core.Prelude.{
  ℕ, ◌+◌, ◌%◌, ◌^◌, ◌||◌, Bool, true, false, Option, none, some, List, [], ◌∷◌, ◌++◌, String, keep,
  if◌then◌else◌,
}
use go_backend_core.Prelude.Int.{ℤ, pos, leb_ℤ}
use go_backend_core.Prelude.Equality.{◌==◌, nat_eq, string_eq}
use go_backend_core.Prelude.Result.{Result, ok, err, or_error}
use go_backend_core.Prelude.Search.{find_first, modify_first}

abbrev pub task_type_cron : String
task_type_cron = "cron"

abbrev pub task_type_once : String
task_type_once = "once"

abbrev pub task_type_interval : String
task_type_interval = "interval"

abbrev pub task_status_active : String
task_status_active = "active"

abbrev pub task_status_paused : String
task_status_paused = "paused"

pub record Task : Type 0 where
  pub id : ℕ
  pub name : String
  pub type : String
  pub expression : String
  pub handler : String
  pub payload : Option (List ℕ)
  pub status : String
  pub max_retries : ℤ
  pub timeout : ℤ
  pub last_run_at : Option ℕ
  pub next_run_at : Option ℕ
  pub created_at : Option ℕ
  pub updated_at : ℕ

pub data TaskLogStatus : Type 0 where
  running success failed timed_out : TaskLogStatus

pub record TaskLog : Type 0 where
  pub id : ℕ
  pub task_id : ℕ
  pub task : Option Task
  pub task_name : String
  pub status : TaskLogStatus
  pub started_at : ℕ
  pub ended_at : Option ℕ
  pub result : Option (List ℕ)
  pub error : String
  pub created_at : Option ℕ

pub record InMemoryStore : Type 0 where
  pub tasks : List Task
  pub task_logs : List TaskLog
  pub task_seq : ℕ
  pub log_seq : ℕ

pub data TaskError : Type 0 where
  name_taken : String → TaskError
  unknown_task : ℕ → TaskError
  no_handler bad_type : String → TaskError
  bad_cron bad_interval : String → String → TaskError
  server_failed loading_failed enqueue_failed : String → TaskError

abbrev pub new_in_memory_store : InMemoryStore
new_in_memory_store = record { tasks = []; task_logs = []; task_seq = 0; log_seq = 0 }

abbrev pub has_name : String → Task → Bool
has_name name t = t.name == name

abbrev pub has_id : ℕ → Task → Bool
has_id id t = t.id == id

abbrev or_positive : ℤ → ℤ → ℤ
or_positive default z = if leb_ℤ z (pos 0) then default else z

abbrev pub or_text : String → String → String
or_text old new = if new == "" then old else new

abbrev pub or_size : ℤ → ℤ → ℤ
or_size old new = if leb_ℤ new (pos 0) then old else new

abbrev pub or_else {ℓ} : {A : Type ℓ} → Option A → Option A → Option A
or_else old none = old
or_else old (some new) = some new

abbrev pub created : Task → ℕ → ℕ → Task
created t id now = record t {
  id = id;
  created_at = elim t.created_at [ none ↦ some now | some at ↦ some at ];
  updated_at = now;
  status = if t.status == "" then task_status_active else t.status;
  max_retries = or_positive (pos 3) t.max_retries;
  timeout = or_positive (pos 300) t.timeout;
}

abbrev create_free : Task → ℕ → InMemoryStore → Option Task → InMemoryStore × Result TaskError Task
create_free t now s (some existing) = (s, err (name_taken t.name))
create_free t now s none =
    let seq = (s.task_seq + 1) % 2 ^ 64 in
    let t' = created t seq now in (record s { tasks = s.tasks ++ t' ∷ []; task_seq = seq }, ok t')

-- The task comes back as it is stored.
unfoldable pub create_task : Task → ℕ → InMemoryStore → InMemoryStore × Result TaskError Task
create_task t now s = create_free t now s (find_first (has_name t.name) s.tasks)

-- Only fields that are given change.
abbrev pub merged : Task → ℕ → Task → Task
merged t now old = record old {
  name = or_text old.name t.name;
  type = or_text old.type t.type;
  expression = or_text old.expression t.expression;
  handler = or_text old.handler t.handler;
  payload = or_else old.payload t.payload;
  status = or_text old.status t.status;
  max_retries = or_size old.max_retries t.max_retries;
  timeout = or_size old.timeout t.timeout;
  last_run_at = or_else old.last_run_at t.last_run_at;
  next_run_at = or_else old.next_run_at t.next_run_at;
  updated_at = now;
}

abbrev update_found : Task → ℕ → InMemoryStore → Option Task → InMemoryStore × Result TaskError Task
update_found t now s none = (s, err (unknown_task t.id))
update_found t now s (some old) =
    (record s { tasks = modify_first (has_id t.id) (merged t now) s.tasks }, ok (merged t now old))

unfoldable pub update_task : Task → ℕ → InMemoryStore → InMemoryStore × Result TaskError Task
update_task t now s = update_found t now s (find_first (has_id t.id) s.tasks)

-- `append(tasks[:i], tasks[i+1:]...)` at the first that passes the test.
unfoldable pub remove_first {ℓ} : {A : Type ℓ} → (A → Bool) → List A → List A
remove_first p [] = []
remove_first p (x ∷ xs) = if p x then xs else x ∷ remove_first p xs

abbrev delete_found : ℕ → InMemoryStore → Option Task → InMemoryStore × Result TaskError (Unit {0})
delete_found id s none = (s, err (unknown_task id))
delete_found id s (some t) = (record s { tasks = remove_first (has_id id) s.tasks }, ok tt)

unfoldable pub delete_task : ℕ → InMemoryStore → InMemoryStore × Result TaskError (Unit {0})
delete_task id s = delete_found id s (find_first (has_id id) s.tasks)

unfoldable pub get_task : ℕ → InMemoryStore → Result TaskError Task
get_task id s = or_error (unknown_task id) (find_first (has_id id) s.tasks)

unfoldable pub list_tasks : InMemoryStore → List Task
list_tasks s = s.tasks

unfoldable pub list_active_tasks : InMemoryStore → List Task
list_active_tasks s = keep (λ t. t.status == task_status_active) s.tasks

-- The log comes back with its id.
unfoldable pub create_task_log : TaskLog → ℕ → InMemoryStore → InMemoryStore × TaskLog
create_task_log l now s =
    let seq = (s.log_seq + 1) % 2 ^ 64 in
    let l' = record l {
      id = seq;
      created_at = elim l.created_at [ none ↦ some now | some at ↦ some at ];
    } in
    (record s { task_logs = s.task_logs ++ l' ∷ []; log_seq = seq }, l')

-- An unknown log is no error.
unfoldable pub update_task_log : TaskLog → InMemoryStore → InMemoryStore
update_task_log l s = record s {
  task_logs = modify_first (λ old. old.id == l.id) (λ old. l) s.task_logs;
}

unfoldable pub task_logs : ℕ → InMemoryStore → List TaskLog
task_logs task s = keep (λ l. task == 0 || l.task_id == task) s.task_logs
