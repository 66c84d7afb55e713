-- ===== src/Scheduler/Execution.antt =====
-- internal/services/scheduler/scheduler.go and asynq_handler.go: a run of a task, its log, and the
-- queue of asynq, which is a parameter: it is given the payload before it is made JSON. A run is one
-- step, and so is the goroutine of `RunTaskNow`. Metrics and the printed log are left out.
pub mod Logged
use go_backend_core.Prelude.{ℕ, Option, none, some, List, String}
use go_backend_core.Prelude.Int.{ℤ, pos, ◌*ℤ◌, wrap64}
use go_backend_core.Prelude.Dict.{Dict}
use go_backend_core.Prelude.Result.{Result, ok, err}
use go_backend_core.Scheduler.Store.{
  Task, TaskLog, TaskLogStatus, running, success, failed, TaskError, no_handler, enqueue_failed,
}
use go_backend_core.Scheduler.Store.Interface.{TaskStore}
use go_backend_core.Scheduler.Handlers.{TaskHandler, get_handler}

pub record AsynqPayload : Type 0 where
  pub task_id : ℕ
  pub handler_name : String
  pub payload : Option (List ℕ)

-- `Enqueue` of the queue "scheduler:tasks", with the retries and the timeout.
pub record Queue (W : Type 0) : Type 0 where
  pub enqueue : AsynqPayload → ℤ → ℤ → W → W × Option String

-- The readings of the clock in one run.
pub record Readings : Type 0 where
  pub started : ℕ
  pub created : ℕ
  pub ended : ℕ

abbrev pub seconds : ℤ → ℤ
seconds n = wrap64 (n *ℤ pos 1000000000)

unfoldable pub enqueue_task : {W : Type 0} → Queue W → Task → ℤ → W → W × Option String
enqueue_task queue t timeout w =
    queue.enqueue (record { task_id = t.id; handler_name = t.handler; payload = t.payload })
      t.max_retries (seconds timeout) w

abbrev pub log_entry : ℕ → String → ℕ → TaskLog
log_entry task name started = record {
  id = 0;
  task_id = task;
  task = none;
  task_name = name;
  status = running;
  started_at = started;
  ended_at = none;
  result = none;
  error = "";
  created_at = none;
}

abbrev pub finished : TaskLog → ℕ → Option String → TaskLog
finished l ended none = record l { ended_at = some ended; status = success }
finished l ended (some e) = record l { ended_at = some ended; status = failed; error = e }

abbrev pub done_or : Option String → Result TaskError (Unit {0})
done_or none = ok tt
done_or (some e) = err (enqueue_failed e)

module _ {S W : Type 0} (store : TaskStore S) where
  -- The handler between the two writes of its log.
  unfoldable pub run_logged :
      TaskHandler W → ℕ → String → Option (List ℕ) → ℤ → Readings → S → W → S × W × Option String
  run_logged h task name payload deadline at s w =
      let (s', l) = store.create_log (log_entry task name at.started) at.created s in
      let (w', e) = h.execute payload deadline w in
      (store.update_log (finished l at.ended e) s', w', e)

  abbrev pub run_task : TaskHandler W → Task → Readings → S → W → S × W × Option String
  run_task h t at s w = run_logged h t.id t.name t.payload (seconds t.timeout) at s w

  module _ (handlers : Dict String (TaskHandler W)) where
    abbrev pub run_found : Option (TaskHandler W) → Task → Readings → S → W → S × W
    run_found none t at s w = (s, w)
    run_found (some h) t at s w = let (s', w', e) = run_task h t at s w in (s', w')

    unfoldable pub execute_task : Option (Queue W) → Task → Readings → S → W → S × W
    execute_task none t at s w = run_found (get_handler t.handler handlers) t at s w
    execute_task (some queue) t at s w = (s, (enqueue_task queue t t.timeout w).0)

    abbrev run_now_by :
        Option (TaskHandler W) → Task → Readings → S → W → S × W × Result TaskError (Unit {0})
    run_now_by none t at s w = (s, w, err (no_handler t.handler))
    run_now_by (some h) t at s w = let (s', w', e) = run_task h t at s w in (s', w', ok tt)

    abbrev run_now_found :
        Option (Queue W)
        → Result TaskError Task
        → Readings
        → S
        → W
        → S × W × Result TaskError (Unit {0})
    run_now_found queue (err e) at s w = (s, w, err e)
    run_now_found (some queue) (ok t) at s w =
        let (w', e) = enqueue_task queue t t.timeout w in (s, w', done_or e)
    run_now_found none (ok t) at s w = run_now_by (get_handler t.handler handlers) t at s w

    unfoldable pub run_task_now :
        Option (Queue W) → ℕ → Readings → S → W → S × W × Result TaskError (Unit {0})
    run_task_now queue id at s w = run_now_found queue (store.get id s) at s w

    -- `none` is the error asynq.SkipRetry; `deadline` is the one that asynq puts on the context.
    abbrev process_by :
        Option (TaskHandler W)
        → AsynqPayload
        → ℤ
        → Readings
        → S
        → W
        → S × W × Option (Option String)
    process_by none p deadline at s w = (s, w, none)
    process_by (some h) p deadline at s w =
        let (s', w', e) = run_logged h p.task_id p.handler_name p.payload deadline at s w in
        (s', w', some e)

    -- The payload is what JSON gives back; an error of it is the error of the task.
    unfoldable pub process_task :
        Result String AsynqPayload → ℤ → Readings → S → W → S × W × Option (Option String)
    process_task (err e) deadline at s w = (s, w, some (some e))
    process_task (ok p) deadline at s w =
        process_by (get_handler p.handler_name handlers) p deadline at s w
