-- ===== src/Scheduler/Jobs/Kept.antt =====
-- What each method of internal/services/scheduler/scheduler.go keeps of the entries of the cron.
use go_backend_core.Prelude.{
  ℕ, ◌+◌, ◌^◌, ◌≤◌, ◌<◌, ◌≡◌, refl, sym, inl, inr, Option, none, String, In, subst, arith, ◌⊎◌,
}
use go_backend_core.Prelude.Equality.{nat_eq}
use go_backend_core.Prelude.Dict.{Dict, read}
use go_backend_core.Prelude.Result.{Result, ok, err}
use go_backend_core.Scheduler.Store.{
  Task, TaskError, InMemoryStore, task_status_paused, task_status_active,
}
use go_backend_core.Scheduler.Store.Ids.{
  ids, AreGiven, given, get_task_sound, Updates, update_task-Updates, create_task-Creates, Deletes,
}
use go_backend_core.Scheduler.Store.Interface.{in_memory}
use go_backend_core.Scheduler.Handlers.{TaskHandler}
use go_backend_core.Scheduler.Cron.{Cron, CronLaws, Parsing}
use go_backend_core.Scheduler.Jobs.{
  Scheduler, Done, unschedule, add_created, update_found, update_task, add_task, delete_found,
  pause_found, resume_updated, resume_found, overlaid,
}
use go_backend_core.Scheduler.Jobs.Orphans.{
  HasNoOrphans, Idle, schedule_in-HasNoOrphans, schedule_active-HasNoOrphans,
}
use go_backend_core.Scheduler.Jobs.Unscheduled.{
  unknown-Idle, unschedule-Unscheduled, unschedule_store,
}

module _ {K W : Type 0} (cron : Cron K) (parsing : Parsing) (handlers : Dict String (TaskHandler W))
    (laws : CronLaws cron) where
  moved-HasNoOrphans :
      (st : InMemoryStore) (s : Scheduler InMemoryStore K)
      → AreGiven st
      → ((n : ℕ) → In n (ids s.store) → In n (ids st))
      → HasNoOrphans laws s
      → HasNoOrphans laws (record s { store = st })
  moved-HasNoOrphans st s new keeps v = record {
    given = new;
    known = v.known;
    stored = λ e t runs. keeps t.id (v.stored e t runs);
  }

  add_created-HasNoOrphans :
      (now : ℕ) (s : Scheduler InMemoryStore K) (r : InMemoryStore × Result TaskError Task)
      → AreGiven r.0
      → ((n : ℕ) → In n (ids s.store) → In n (ids r.0))
      → ((t : Task) → r.1 ≡ ok t → In t.id (ids r.0) × Idle laws t.id s.cron)
      → HasNoOrphans laws s
      → HasNoOrphans laws (add_created cron parsing handlers in_memory now s r).0
  add_created-HasNoOrphans now s (st, err e) new keeps names v = moved-HasNoOrphans st s new keeps v
  add_created-HasNoOrphans now s (st, ok t) new keeps names v =
      let (there, idle) = names t refl in
      schedule_active-HasNoOrphans laws parsing handlers t now (record s { store = st }) there idle
        (moved-HasNoOrphans st s new keeps v)

  pub add_task-HasNoOrphans :
      (t : Task) (now : ℕ) (s : Scheduler InMemoryStore K)
      → s.store.task_seq + 1 < 2 ^ 64
      → HasNoOrphans laws s
      → HasNoOrphans laws (add_task cron parsing handlers in_memory t now s).0
  unfolding add_task
  add_task-HasNoOrphans t now s small v =
      let c = create_task-Creates t now s.store small v.given in
      add_created-HasNoOrphans now s _ c.given c.keeps
        (λ t' made.
          let (next, there) = c.names t' made in
          (
            there,
            λ e u runs same.
                let le : u.id ≤ s.store.task_seq =
                  given u.id s.store.task_seq (ids s.store) v.given (v.stored e u runs) in
                omega arith,
          ))
        v

  updated_given :
      (t : Task) (s : InMemoryStore) (r : InMemoryStore × Result TaskError Task)
      → Updates t s r
      → AreGiven s
      → AreGiven r.0
  updated_given t s r u h = rw (u.same, u.counts) h

  updated_keeps :
      (t : Task) (s : InMemoryStore) (r : InMemoryStore × Result TaskError Task)
      → Updates t s r
      → (n : ℕ) → In n (ids s)
      → In n (ids r.0)
  updated_keeps t s r u n there = rw u.same there

  updated_names :
      (t : Task) (s : InMemoryStore) (r : InMemoryStore × Result TaskError Task) (k : Option K)
      → Updates t s r
      → Idle laws t.id k
      → (t' : Task) → r.1 ≡ ok t'
      → In t'.id (ids r.0) × Idle laws t'.id k
  updated_names t s r k u idle t' made =
      let (same, there) = u.names t' made in
      (updated_keeps t s r u t'.id there, subst (λ n. Idle laws n k) (sym same) idle)

  update_found-HasNoOrphans :
      (t : Task) (now : ℕ) (s : Scheduler InMemoryStore K) (found : Result TaskError Task)
      → ((old : Task) → found ≡ ok old → old.id ≡ t.id)
      → HasNoOrphans laws s
      → HasNoOrphans laws (update_found cron parsing handlers in_memory t now s found).0
  update_found-HasNoOrphans t now s (err e) named v = v
  update_found-HasNoOrphans t now s (ok old) named v =
      let w = unschedule-Unscheduled laws t.id s v in
      let s' = unschedule cron t.id s in
      let new = overlaid t old in
      let u = update_task-Updates new now s'.store in
      add_created-HasNoOrphans now s' _ (updated_given new s'.store _ u w.kept.given)
        (updated_keeps new s'.store _ u)
        (updated_names new s'.store _ s'.cron u
          (subst (λ n. Idle laws n s'.cron) (sym (named old refl)) w.idle))
        w.kept

  pub update_task-HasNoOrphans :
      (t : Task) (now : ℕ) (s : Scheduler InMemoryStore K)
      → HasNoOrphans laws s
      → HasNoOrphans laws (update_task cron parsing handlers in_memory t now s).0
  unfolding update_task
  update_task-HasNoOrphans t now s v =
      update_found-HasNoOrphans t now s _ (λ old found. (get_task_sound t.id s.store old found).0) v

  pub delete_found-HasNoOrphans :
      (id : ℕ) (s : Scheduler InMemoryStore K) (r : InMemoryStore × Done)
      → Deletes id s.store r.0
      → (r.0 ≡ s.store) ⊎ (r.1 ≡ ok tt)
      → HasNoOrphans laws s
      → HasNoOrphans laws (delete_found cron parsing handlers in_memory id s r).0
  delete_found-HasNoOrphans id s (st, err e) d (inl same) v =
      subst (λ x. HasNoOrphans laws (record s { store = x })) (sym same) v
  delete_found-HasNoOrphans id s (st, err e) d (inr done) v = absurd (cc)
  delete_found-HasNoOrphans id s (st, ok u) d kind v =
      let w = unschedule-Unscheduled laws id s v in
      rw unschedule_store (record {
        given = d.given;
        known = w.kept.known;
        stored = λ e t runs.
            d.keeps t.id (w.idle e t runs)
              (subst (λ st. In t.id (ids st)) w.same_store (w.kept.stored e t runs));
      })

  pub pause_found-HasNoOrphans :
      (now : ℕ) (s : Scheduler InMemoryStore K) (found : Result TaskError Task)
      → HasNoOrphans laws s
      → HasNoOrphans laws (pause_found cron parsing handlers in_memory now s found).0
  pause_found-HasNoOrphans now s (err e) v = v
  pause_found-HasNoOrphans now s (ok t) v =
      let u = update_task-Updates (record t { status = task_status_paused }) now s.store in
      moved-HasNoOrphans _ s (updated_given _ s.store _ u v.given) (updated_keeps _ s.store _ u) v

  resume_updated-HasNoOrphans :
      (now : ℕ) (s : Scheduler InMemoryStore K) (r : InMemoryStore × Result TaskError Task)
      → AreGiven r.0
      → ((n : ℕ) → In n (ids s.store) → In n (ids r.0))
      → ((t : Task) → r.1 ≡ ok t → In t.id (ids r.0) × Idle laws t.id s.cron)
      → HasNoOrphans laws s
      → HasNoOrphans laws (resume_updated cron parsing handlers in_memory now s r).0
  resume_updated-HasNoOrphans now s (st, err e) new keeps names v =
      moved-HasNoOrphans st s new keeps v
  resume_updated-HasNoOrphans now s (st, ok t) new keeps names v =
      let (there, idle) = names t refl in
      schedule_in-HasNoOrphans laws parsing handlers s.cron t now (record s { store = st }) refl
        there idle (moved-HasNoOrphans st s new keeps v)

  pub resume_found-HasNoOrphans :
      (id now : ℕ) (s : Scheduler InMemoryStore K) (found : Result TaskError Task)
      → ((t : Task) → found ≡ ok t → t.id ≡ id)
      → read id s.cron_jobs ≡ none
      → HasNoOrphans laws s
      → HasNoOrphans laws (resume_found cron parsing handlers in_memory now s found).0
  resume_found-HasNoOrphans id now s (err e) named unknown v = v
  resume_found-HasNoOrphans id now s (ok t) named unknown v =
      let u = update_task-Updates (record t { status = task_status_active }) now s.store in
      let idle : Idle laws t.id s.cron =
        subst (λ n. Idle laws n s.cron) (sym (named t refl)) (unknown-Idle laws id s unknown v) in
      resume_updated-HasNoOrphans now s _ (updated_given _ s.store _ u v.given)
        (updated_keeps _ s.store _ u) (updated_names _ s.store _ s.cron u idle) v
