-- ===== src/Scheduler/Jobs.antt =====
-- internal/services/scheduler/scheduler.go: the scheduler, which keeps the entries of a cron in step
-- with the tasks of a store. A method is one step; the asynq server and client are left out, but for
-- the error of the server's start.
pub mod Orphans
pub mod Unscheduled
pub mod Counters
pub mod Kept
pub mod Runs
use go_backend_core.Prelude.{
  ℕ, ◌+◌, ◌-◌, Bool, true, false, Option, none, some, List, [], ◌∷◌, ◌++◌, String, if◌then◌else◌,
}
use go_backend_core.Prelude.Int.{ℤ, pos, half64, ◌-ℤ◌, ltb_ℤ, leb_ℤ}
use go_backend_core.Prelude.Equality.{◌==◌, nat_eq, string_eq}
use go_backend_core.Prelude.Dict.{Dict, read, write, delete}
use go_backend_core.Prelude.Result.{Result, ok, err}
use go_backend_core.Scheduler.Store.{
  Task, TaskError, unknown_task, no_handler, bad_type, bad_cron, bad_interval, server_failed,
  loading_failed, task_type_cron, task_type_interval, task_type_once, task_status_active,
  task_status_paused, or_text, or_else, or_size,
}
use go_backend_core.Scheduler.Store.Interface.{TaskStore}
use go_backend_core.Scheduler.Handlers.{TaskHandler, get_handler}
use go_backend_core.Scheduler.Cron.{Cron, Parsing}

-- `cron` is nil before `Start`. A task of the type "once" waits in a goroutine for its delay.
pub record Scheduler (S K : Type 0) : Type 0 where
  pub store : S
  pub cron : Option K
  pub cron_jobs : Dict ℕ ℕ
  pub waiting : List (ℤ × Task)
  pub closed : Bool
  pub timeout : ℤ
  pub max_retries : ℤ

pub record SchedulerConfig : Type 0 where
  pub enabled : Bool
  pub worker_concurrency : ℤ
  pub default_timeout : ℤ
  pub default_max_retries : ℤ
  pub log_retention_days : ℤ

abbrev pub Done : Type 0
Done = Result TaskError (Unit {0})

abbrev only_error : {A : Type 0} → Result TaskError A → Done
only_error (ok a) = ok tt
only_error (err e) = err e

abbrev pub new_scheduler : {S K : Type 0} → S → SchedulerConfig → Scheduler S K
new_scheduler store cfg = record {
  store = store;
  cron = none;
  cron_jobs = [];
  waiting = [];
  closed = false;
  timeout = if leb_ℤ cfg.default_timeout (pos 0) then pos 300 else cfg.default_timeout;
  max_retries = if leb_ℤ cfg.default_max_retries (pos 0) then pos 3 else cfg.default_max_retries;
}

-- One minute later, whatever the expression is.
unfoldable pub next_time : String → ℕ → ℕ
next_time expression now = now + 60000000000

-- `time.Until` stops at the greatest duration.
abbrev until : ℤ → ℕ → ℤ
until t now = let d = t -ℤ pos now in if ltb_ℤ (pos (half64 - 1)) d then pos (half64 - 1) else d

abbrev delay_of : Option ℤ → ℕ → ℤ
delay_of none now = pos 0
delay_of (some t) now = if ltb_ℤ (until t now) (pos 0) then pos 0 else until t now

unfoldable pub parse_once_delay : Parsing → String → ℕ → ℤ
parse_once_delay p expression now = delay_of (p.parse_time expression) now

-- The fields of `t` that are given go over those of the task that exists.
abbrev pub overlaid : Task → Task → Task
overlaid t existing = record existing {
  name = or_text existing.name t.name;
  type = or_text existing.type t.type;
  expression = or_text existing.expression t.expression;
  handler = or_text existing.handler t.handler;
  payload = or_else existing.payload t.payload;
  status = or_text existing.status t.status;
  max_retries = or_size existing.max_retries t.max_retries;
  timeout = or_size existing.timeout t.timeout;
}

module _ {S K : Type 0} (cron : Cron K) (parsing : Parsing) where
  abbrev pub note_cron :
      Task → ℕ → Scheduler S K → K × Result String ℕ → Scheduler S K × Result TaskError Task
  note_cron t now s (k, err why) = (record s { cron = some k }, err (bad_cron t.expression why))
  note_cron t now s (k, ok entry) = (
    record s { cron = some k; cron_jobs = write t.id entry s.cron_jobs },
    ok (record t { next_run_at = some (next_time t.expression now) }),
  )

  abbrev pub schedule_interval :
      Task → ℕ → K → Scheduler S K → Result String ℤ → Scheduler S K × Result TaskError Task
  schedule_interval t now k s (err why) = (s, err (bad_interval t.expression why))
  schedule_interval t now k s (ok every) =
      let (k', entry) = cron.schedule_every every t k in
      (
        record s { cron = some k'; cron_jobs = write t.id entry s.cron_jobs },
        ok (record t { next_run_at = some now }),
      )

  abbrev pub schedule_once : Task → ℕ → Scheduler S K → Scheduler S K × Result TaskError Task
  schedule_once t now s = (
    record s { waiting = s.waiting ++ (parse_once_delay parsing t.expression now, t) ∷ [] },
    ok (record t { next_run_at = some now }),
  )

  abbrev pub schedule_by_type : Task → ℕ → K → Scheduler S K → Scheduler S K × Result TaskError Task
  schedule_by_type t now k s =
      if t.type == task_type_cron
      then note_cron t now s (cron.add_func t.expression t k)
      else if t.type == task_type_interval
      then schedule_interval t now k s (parsing.parse_duration t.expression)
      else if t.type == task_type_once
      then schedule_once t now s
      else (s, err (bad_type t.type))

module _ {S K W : Type 0} (cron : Cron K) (parsing : Parsing)
    (handlers : Dict String (TaskHandler W)) where
  abbrev pub schedule_with :
      Option (TaskHandler W) → Task → ℕ → K → Scheduler S K → Scheduler S K × Result TaskError Task
  schedule_with none t now k s = (s, err (no_handler t.handler))
  schedule_with (some h) t now k s = schedule_by_type cron parsing t now k s

  -- `k` is the cron of `s`, which every caller has looked at. The task comes back with its next run.
  unfoldable pub schedule_task :
      Task → ℕ → K → Scheduler S K → Scheduler S K × Result TaskError Task
  schedule_task t now k s = schedule_with (get_handler t.handler handlers) t now k s

  -- `if s.cron != nil { ... }` around the scheduling.
  abbrev pub schedule_in : Option K → Task → ℕ → Scheduler S K → Scheduler S K × Done
  schedule_in none t now s = (s, ok tt)
  schedule_in (some k) t now s = let (s', r) = schedule_task t now k s in (s', only_error r)

  abbrev pub schedule_active : Task → ℕ → Scheduler S K → Scheduler S K × Done
  schedule_active t now s =
      if t.status == task_status_active then schedule_in s.cron t now s else (s, ok tt)

  -- The loop of `Start`: a task that cannot be scheduled is only logged.
  unfoldable pub schedule_all : List Task → ℕ → Scheduler S K → Scheduler S K
  schedule_all [] now s = s
  schedule_all (t ∷ ts) now s = schedule_all ts now (schedule_in s.cron t now s).0

-- `if eid, ok := s.cronJobs[id]; ok`.
module _ {S K : Type 0} (cron : Cron K) where
  abbrev pub unschedule_in : Option K → Option ℕ → ℕ → Scheduler S K → Scheduler S K
  unschedule_in none entry id s = s
  unschedule_in (some k) none id s = s
  unschedule_in (some k) (some entry) id s = record s {
    cron = some (cron.remove entry k);
    cron_jobs = delete id s.cron_jobs;
  }

  unfoldable pub unschedule : ℕ → Scheduler S K → Scheduler S K
  unschedule id s = unschedule_in s.cron (read id s.cron_jobs) id s

  unfoldable pub stop : Scheduler S K → Scheduler S K
  stop s = record s {
    closed = true;
    cron = elim s.cron [ none ↦ none | some k ↦ some (cron.stop k) ];
    cron_jobs = [];
  }

module _ {S K W : Type 0} (cron : Cron K) (parsing : Parsing)
    (handlers : Dict String (TaskHandler W)) (store : TaskStore S) where
  abbrev pub start_with : Result String (List Task) → ℕ → Scheduler S K → Scheduler S K × Done
  start_with (err e) now s = (s, err (loading_failed e))
  start_with (ok ts) now s = (schedule_all cron parsing handlers ts now s, ok tt)

  -- `server` is the error of the start of the asynq server, if there is one.
  unfoldable pub start : Option String → ℕ → Scheduler S K → Scheduler S K × Done
  start (some e) now s = (s, err (server_failed e))
  start none now s = start_with (store.list_active s.store) now (record s { cron = some cron.new })

  abbrev pub add_created : ℕ → Scheduler S K → S × Result TaskError Task → Scheduler S K × Done
  add_created now s (st, err e) = (record s { store = st }, err e)
  add_created now s (st, ok t) =
      schedule_active cron parsing handlers t now (record s { store = st })

  unfoldable pub add_task : Task → ℕ → Scheduler S K → Scheduler S K × Done
  add_task t now s = add_created now s (store.create t now s.store)

  abbrev pub update_found : Task → ℕ → Scheduler S K → Result TaskError Task → Scheduler S K × Done
  update_found t now s (err e) = (s, err (unknown_task t.id))
  update_found t now s (ok existing) =
      let s' = unschedule cron t.id s in
      add_created now s' (store.update (overlaid t existing) now s'.store)

  unfoldable pub update_task : Task → ℕ → Scheduler S K → Scheduler S K × Done
  update_task t now s = update_found t now s (store.get t.id s.store)

  abbrev pub delete_found : ℕ → Scheduler S K → S × Done → Scheduler S K × Done
  delete_found id s (st, err e) = (record s { store = st }, err e)
  delete_found id s (st, ok u) = (unschedule cron id (record s { store = st }), ok tt)

  unfoldable pub delete_task : ℕ → Scheduler S K → Scheduler S K × Done
  delete_task id s = delete_found id s (store.delete id s.store)

  abbrev pub pause_found : ℕ → Scheduler S K → Result TaskError Task → Scheduler S K × Done
  pause_found now s (err e) = (s, err e)
  pause_found now s (ok t) =
      let (st, r) = store.update (record t { status = task_status_paused }) now s.store in
      (record s { store = st }, only_error r)

  -- The entry of the cron stays.
  unfoldable pub pause_task : ℕ → ℕ → Scheduler S K → Scheduler S K × Done
  pause_task id now s = pause_found now s (store.get id s.store)

  abbrev pub resume_updated : ℕ → Scheduler S K → S × Result TaskError Task → Scheduler S K × Done
  resume_updated now s (st, err e) = (record s { store = st }, err e)
  resume_updated now s (st, ok t) =
      schedule_in cron parsing handlers s.cron t now (record s { store = st })

  abbrev pub resume_found : ℕ → Scheduler S K → Result TaskError Task → Scheduler S K × Done
  resume_found now s (err e) = (s, err e)
  resume_found now s (ok t) =
      resume_updated now s (store.update (record t { status = task_status_active }) now s.store)

  unfoldable pub resume_task : ℕ → ℕ → Scheduler S K → Scheduler S K × Done
  resume_task id now s = resume_found now s (store.get id s.store)
