-- ===== src/Scheduler/Jobs/Counters.antt =====
-- Scheduling in internal/services/scheduler/scheduler.go leaves the store alone, so that one call
-- gives at most one id.
use go_backend_core.Prelude.{
  ℕ, ◌≡◌, refl, Bool, true, false, Option, none, some, String, if◌then◌else◌,
}
use go_backend_core.Prelude.Int.{ℤ}
use go_backend_core.Prelude.Equality.{◌==◌, nat_eq, string_eq}
use go_backend_core.Prelude.Dict.{Dict, read}
use go_backend_core.Prelude.Result.{Result, ok, err}
use go_backend_core.Scheduler.Store.{
  Task, TaskError, InMemoryStore, task_type_cron, task_type_interval, task_type_once,
  task_status_active, task_status_paused, create_task, update_task, delete_task, get_task,
}
use go_backend_core.Scheduler.Store.Ids.{update_task-Updates}
use go_backend_core.Scheduler.Store.Interface.{in_memory}
use go_backend_core.Scheduler.Handlers.{TaskHandler, get_handler}
use go_backend_core.Scheduler.Cron.{Cron, Parsing}
use go_backend_core.Scheduler.Jobs.{
  Scheduler, Done, schedule_task, schedule_with, schedule_by_type, note_cron, schedule_interval,
  schedule_in, schedule_active, unschedule, unschedule_in, add_created, update_found, delete_found,
  pause_found, resume_updated, resume_found, overlaid,
}
use go_backend_core.Scheduler.Jobs as Methods

module _ {S K : Type 0} (cron : Cron K) (parsing : Parsing) where
  note_cron_store :
      (t : Task) (now : ℕ) (s : Scheduler S K) (r : K × Result String ℕ)
      → (note_cron cron parsing t now s r).0.store ≡ s.store
  note_cron_store t now s (k, err why) = refl
  note_cron_store t now s (k, ok entry) = refl

  interval_store :
      (t : Task) (now : ℕ) (k : K) (s : Scheduler S K) (r : Result String ℤ)
      → (schedule_interval cron parsing t now k s r).0.store ≡ s.store
  interval_store t now k s (err why) = refl
  interval_store t now k s (ok every) = refl

  if_store :
      {A : Type 0} {st : S} (b : Bool) (x y : Scheduler S K × A)
      → x.0.store ≡ st
      → y.0.store ≡ st
      → (if b then x else y).0.store ≡ st
  if_store true x y h k = h
  if_store false x y h k = k

  by_type_store :
      (t : Task) (now : ℕ) (k : K) (s : Scheduler S K)
      → (schedule_by_type cron parsing t now k s).0.store ≡ s.store
  by_type_store t now k s = if_store (t.type == task_type_cron) _ _ (note_cron_store t now s _) (
      if_store (t.type == task_type_interval) _ _ (interval_store t now k s _)
        (if_store (t.type == task_type_once) _ _ refl refl))

  module _ {W : Type 0} (handlers : Dict String (TaskHandler W)) where
    with_store :
        (h : Option (TaskHandler W)) (t : Task) (now : ℕ) (k : K) (s : Scheduler S K)
        → (schedule_with cron parsing handlers h t now k s).0.store ≡ s.store
    with_store none t now k s = refl
    with_store (some h) t now k s = by_type_store t now k s

    pub schedule_in_store :
        (running : Option K) (t : Task) (now : ℕ) (s : Scheduler S K)
        → (schedule_in cron parsing handlers running t now s).0.store ≡ s.store
    unfolding schedule_task
    schedule_in_store none t now s = refl
    schedule_in_store (some k) t now s = with_store (get_handler t.handler handlers) t now k s

    pub schedule_active_store :
        (t : Task) (now : ℕ) (s : Scheduler S K)
        → (schedule_active cron parsing handlers t now s).0.store ≡ s.store
    schedule_active_store t now s =
        if_store (t.status == task_status_active) _ _ (schedule_in_store s.cron t now s) refl

module _ {S K : Type 0} (cron : Cron K) where
  unschedule_in_same :
      (k : Option K) (entry : Option ℕ) (id : ℕ) (s : Scheduler S K)
      → (unschedule_in cron k entry id s).store ≡ s.store
  unschedule_in_same none entry id s = refl
  unschedule_in_same (some k) none id s = refl
  unschedule_in_same (some k) (some entry) id s = refl

  unschedule_same : (id : ℕ) (s : Scheduler S K) → (unschedule cron id s).store ≡ s.store
  unfolding unschedule
  unschedule_same id s = unschedule_in_same s.cron (read id s.cron_jobs) id s

module _ {K W : Type 0} (cron : Cron K) (parsing : Parsing)
    (handlers : Dict String (TaskHandler W)) where
  add_created_store :
      (now : ℕ) (s : Scheduler InMemoryStore K) (r : InMemoryStore × Result TaskError Task)
      → (add_created cron parsing handlers in_memory now s r).0.store ≡ r.0
  add_created_store now s (st, err e) = refl
  add_created_store now s (st, ok t) =
      schedule_active_store cron parsing handlers t now (record s { store = st })

  pub add_task_store :
      (t : Task) (now : ℕ) (s : Scheduler InMemoryStore K)
      → (Methods.add_task cron parsing handlers in_memory t now s).0.store
        ≡ (create_task t now s.store).0
  unfolding Methods.add_task
  add_task_store t now s = add_created_store now s (create_task t now s.store)

  update_found_seq :
      (t : Task) (now : ℕ) (s : Scheduler InMemoryStore K) (found : Result TaskError Task)
      → (update_found cron parsing handlers in_memory t now s found).0.store.task_seq
        ≡ s.store.task_seq
  update_found_seq t now s (err e) = refl
  update_found_seq t now s (ok old) =
      let s' = unschedule cron t.id s in
      rw
        (
          add_created_store now s' (update_task (overlaid t old) now s'.store),
          (update_task-Updates (overlaid t old) now s'.store).counts,
          unschedule_same cron t.id s,
        )
        refl

  pub update_task_seq :
      (t : Task) (now : ℕ) (s : Scheduler InMemoryStore K)
      → (Methods.update_task cron parsing handlers in_memory t now s).0.store.task_seq
        ≡ s.store.task_seq
  unfolding Methods.update_task
  update_task_seq t now s = update_found_seq t now s (get_task t.id s.store)

  delete_found_store :
      (id : ℕ) (s : Scheduler InMemoryStore K) (r : InMemoryStore × Done)
      → (delete_found cron parsing handlers in_memory id s r).0.store ≡ r.0
  delete_found_store id s (st, err e) = refl
  delete_found_store id s (st, ok u) = unschedule_same cron id (record s { store = st })

  pub delete_task_store :
      (id : ℕ) (s : Scheduler InMemoryStore K)
      → (Methods.delete_task cron parsing handlers in_memory id s).0.store
        ≡ (delete_task id s.store).0
  unfolding Methods.delete_task
  delete_task_store id s = delete_found_store id s (delete_task id s.store)

  pause_found_seq :
      (now : ℕ) (s : Scheduler InMemoryStore K) (found : Result TaskError Task)
      → (pause_found cron parsing handlers in_memory now s found).0.store.task_seq
        ≡ s.store.task_seq
  pause_found_seq now s (err e) = refl
  pause_found_seq now s (ok t) =
      (update_task-Updates (record t { status = task_status_paused }) now s.store).counts

  pub pause_task_seq :
      (id now : ℕ) (s : Scheduler InMemoryStore K)
      → (Methods.pause_task cron parsing handlers in_memory id now s).0.store.task_seq
        ≡ s.store.task_seq
  unfolding Methods.pause_task
  pause_task_seq id now s = pause_found_seq now s (get_task id s.store)

  resume_updated_store :
      (now : ℕ) (s : Scheduler InMemoryStore K) (r : InMemoryStore × Result TaskError Task)
      → (resume_updated cron parsing handlers in_memory now s r).0.store ≡ r.0
  resume_updated_store now s (st, err e) = refl
  resume_updated_store now s (st, ok t) =
      schedule_in_store cron parsing handlers s.cron t now (record s { store = st })

  resume_found_seq :
      (now : ℕ) (s : Scheduler InMemoryStore K) (found : Result TaskError Task)
      → (resume_found cron parsing handlers in_memory now s found).0.store.task_seq
        ≡ s.store.task_seq
  resume_found_seq now s (err e) = refl
  resume_found_seq now s (ok t) =
      let t' = record t { status = task_status_active } in
      rw
        (
          resume_updated_store now s (update_task t' now s.store),
          (update_task-Updates t' now s.store).counts,
        )
        refl

  pub resume_task_seq :
      (id now : ℕ) (s : Scheduler InMemoryStore K)
      → (Methods.resume_task cron parsing handlers in_memory id now s).0.store.task_seq
        ≡ s.store.task_seq
  unfolding Methods.resume_task
  resume_task_seq id now s = resume_found_seq now s (get_task id s.store)
