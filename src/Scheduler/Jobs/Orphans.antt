-- ===== src/Scheduler/Jobs/Orphans.antt =====
-- The entries of the cron under internal/services/scheduler/scheduler.go, over the store in memory:
-- each entry runs a task that the store has, under the entry that the scheduler knows.
use go_backend_core.Prelude.{
  ℕ, ◌≡◌, refl, ◌≢◌, ◌⊎◌, inl, inr, Bool, true, false, Option, none, some, String, In, Bool-cases,
  subst, arith, if◌then◌else◌,
}
use go_backend_core.Prelude.Int.{ℤ}
use go_backend_core.Prelude.Equality.{◌==◌, equals_refl, nat_eq, string_eq}
use go_backend_core.Prelude.Dict.{Dict, read, write, read-write}
use go_backend_core.Prelude.Result.{Result, ok, err}
use go_backend_core.Scheduler.Store.{
  Task, InMemoryStore, task_status_active, task_type_cron, task_type_interval, task_type_once,
}
use go_backend_core.Scheduler.Store.Ids.{ids, AreGiven}
use go_backend_core.Scheduler.Handlers.{TaskHandler, get_handler}
use go_backend_core.Scheduler.Cron.{Cron, CronLaws, Parsing, job_added}
use go_backend_core.Scheduler.Jobs.{
  Scheduler, schedule_task, schedule_with, schedule_by_type, note_cron, schedule_interval,
  schedule_in, schedule_active,
}

module _ {K : Type 0} {cron : Cron K} (laws : CronLaws cron) where
  -- What runs under an entry; before `Start` nothing does.
  abbrev pub job_in : Option K → ℕ → Option Task
  job_in none e = none
  job_in (some k) e = laws.job e k

  pub record HasNoOrphans (s : Scheduler InMemoryStore K) : Type 0 where
    pub given : AreGiven s.store
    pub known : (e : ℕ) (t : Task) → job_in s.cron e ≡ some t → read t.id s.cron_jobs ≡ some e
    pub stored : (e : ℕ) (t : Task) → job_in s.cron e ≡ some t → In t.id (ids s.store)

  -- No entry runs a task of this id.
  abbrev pub Idle : ℕ → Option K → Type 0
  Idle id k = (e : ℕ) (t : Task) → job_in k e ≡ some t → t.id ≢ id

  -- What runs after an addition is the task that was added, or ran before.
  added_cases :
      (t u : Task) (entry e : ℕ) (old new : Option Task)
      → new ≡ job_added e t (ok entry) old
      → new ≡ some u
      → ((t ≡ u) × (entry ≡ e)) ⊎ (old ≡ some u)
  added_cases t u entry e old new add runs = elim (Bool-cases (entry == e)) [
    | inl same ↦
        let is : new ≡ some t = ground (arith, add) in
        let both : ◌≡◌ {A = Option Task} (some t) (some u) = cc in
        inl (cc, (nat_eq.equals_iff entry e).0 same)
    | inr other ↦ let is : new ≡ old = ground (arith, add) in inr cc
  ]

  -- A new entry for a task that none runs.
  added-HasNoOrphans :
      (t : Task) (entry : ℕ) (k' : K) (s : Scheduler InMemoryStore K)
      → ((e : ℕ) → laws.job e k' ≡ job_added e t (ok entry) (job_in s.cron e))
      → In t.id (ids s.store)
      → Idle t.id s.cron
      → HasNoOrphans s
      → HasNoOrphans (record s { cron = some k'; cron_jobs = write t.id entry s.cron_jobs })
  added-HasNoOrphans t entry k' s add there idle v = record {
    given = v.given;
    known = λ e u runs. elim (added_cases t u entry e (job_in s.cron e) _ (add e) runs) [
      | inl (is, same) ↦ rw (← is) (rw (read-write, equals_refl, same))
      | inr old ↦
          let other : (t.id == u.id) ≡ false =
            ground (arith, idle e u old, nat_eq.equals_iff t.id u.id) in
          rw (read-write, other) (v.known e u old)
    ];
    stored = λ e u runs. elim (added_cases t u entry e (job_in s.cron e) _ (add e) runs) [
      | inl (is, same) ↦ subst (λ x. In x.id (ids s.store)) is there
      | inr old ↦ v.stored e u old
    ];
  }

  -- The cron may be another one with the same entries.
  same-HasNoOrphans :
      (k' : K) (s : Scheduler InMemoryStore K)
      → ((e : ℕ) → laws.job e k' ≡ job_in s.cron e)
      → HasNoOrphans s
      → HasNoOrphans (record s { cron = some k' })
  same-HasNoOrphans k' s same v = record {
    given = v.given;
    known = λ e t runs. v.known e t (rw (← same e) runs);
    stored = λ e t runs. v.stored e t (rw (← same e) runs);
  }

  module _ (parsing : Parsing) (t : Task) (now : ℕ) (s : Scheduler InMemoryStore K) where
    note_cron-HasNoOrphans :
        (r : K × Result String ℕ)
        → ((e : ℕ) → laws.job e r.0 ≡ job_added e t r.1 (job_in s.cron e))
        → In t.id (ids s.store)
        → Idle t.id s.cron
        → HasNoOrphans s
        → HasNoOrphans (note_cron cron parsing t now s r).0
    note_cron-HasNoOrphans (k', err why) add there idle v = same-HasNoOrphans k' s add v
    note_cron-HasNoOrphans (k', ok entry) add there idle v =
        added-HasNoOrphans t entry k' s add there idle v

    schedule_interval-HasNoOrphans :
        (k : K) (r : Result String ℤ)
        → some k ≡ s.cron
        → In t.id (ids s.store)
        → Idle t.id s.cron
        → HasNoOrphans s
        → HasNoOrphans (schedule_interval cron parsing t now k s r).0
    schedule_interval-HasNoOrphans k (err why) running there idle v = v
    schedule_interval-HasNoOrphans k (ok every) running there idle v =
        added-HasNoOrphans t _ _ s (λ e. rw (← running) (laws.job-schedule_every e every t k)) there
          idle v

  if-HasNoOrphans :
      {A : Type 0} (b : Bool) (x y : Scheduler InMemoryStore K × A)
      → HasNoOrphans x.0
      → HasNoOrphans y.0
      → HasNoOrphans (if b then x else y).0
  if-HasNoOrphans true x y h k = h
  if-HasNoOrphans false x y h k = k

  module _ (parsing : Parsing) where
    schedule_by_type-HasNoOrphans :
        (t : Task) (now : ℕ) (k : K) (s : Scheduler InMemoryStore K)
        → some k ≡ s.cron
        → In t.id (ids s.store)
        → Idle t.id s.cron
        → HasNoOrphans s
        → HasNoOrphans (schedule_by_type cron parsing t now k s).0
    schedule_by_type-HasNoOrphans t now k s running there idle v =
        if-HasNoOrphans (t.type == task_type_cron) _ _
          (note_cron-HasNoOrphans parsing t now s (cron.add_func t.expression t k)
            (λ e. rw (← running) (laws.job-add_func e t.expression t k)) there idle v)
          (if-HasNoOrphans (t.type == task_type_interval) _ _
            (schedule_interval-HasNoOrphans parsing t now s k (parsing.parse_duration t.expression)
              running there idle v)
            (if-HasNoOrphans (t.type == task_type_once) _ _
              (record { given = v.given; known = v.known; stored = v.stored }) v))

  module _ {W : Type 0} (parsing : Parsing) (handlers : Dict String (TaskHandler W)) where
    schedule_with-HasNoOrphans :
        (h : Option (TaskHandler W)) (t : Task) (now : ℕ) (k : K) (s : Scheduler InMemoryStore K)
        → some k ≡ s.cron
        → In t.id (ids s.store)
        → Idle t.id s.cron
        → HasNoOrphans s
        → HasNoOrphans (schedule_with cron parsing handlers h t now k s).0
    schedule_with-HasNoOrphans none t now k s running there idle v = v
    schedule_with-HasNoOrphans (some h) t now k s running there idle v =
        schedule_by_type-HasNoOrphans parsing t now k s running there idle v

    pub schedule_in-HasNoOrphans :
        (running : Option K) (t : Task) (now : ℕ) (s : Scheduler InMemoryStore K)
        → running ≡ s.cron
        → In t.id (ids s.store)
        → Idle t.id s.cron
        → HasNoOrphans s
        → HasNoOrphans (schedule_in cron parsing handlers running t now s).0
    unfolding schedule_task
    schedule_in-HasNoOrphans none t now s running there idle v = v
    schedule_in-HasNoOrphans (some k) t now s running there idle v =
        schedule_with-HasNoOrphans (get_handler t.handler handlers) t now k s running there idle v

    pub schedule_active-HasNoOrphans :
        (t : Task) (now : ℕ) (s : Scheduler InMemoryStore K)
        → In t.id (ids s.store)
        → Idle t.id s.cron
        → HasNoOrphans s
        → HasNoOrphans (schedule_active cron parsing handlers t now s).0
    schedule_active-HasNoOrphans t now s there idle v =
        if-HasNoOrphans (t.status == task_status_active) _ _
          (schedule_in-HasNoOrphans s.cron t now s refl there idle v) v
