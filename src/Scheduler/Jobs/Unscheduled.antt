-- ===== src/Scheduler/Jobs/Unscheduled.antt =====
-- Taking a task out of the cron, as internal/services/scheduler/scheduler.go does before it updates a
-- task and after it has deleted one.
use go_backend_core.Prelude.{
  ℕ, ◌≡◌, refl, sym, ◌≢◌, inl, inr, false, Option, none, some, Bool-cases, subst, arith,
}
use go_backend_core.Prelude.Equality.{◌==◌, nat_eq, string_eq}
use go_backend_core.Prelude.Dict.{read, read-delete}
use go_backend_core.Scheduler.Store.{Task, InMemoryStore}
use go_backend_core.Scheduler.Cron.{Cron, CronLaws}
use go_backend_core.Scheduler.Jobs.{Scheduler, unschedule, unschedule_in}
use go_backend_core.Scheduler.Jobs.Orphans.{HasNoOrphans, Idle, job_in}

module _ {K : Type 0} {cron : Cron K} (laws : CronLaws cron) where
  -- An entry that the scheduler does not know of any more runs nothing.
  pub unknown-Idle :
      (id : ℕ) (s : Scheduler InMemoryStore K)
      → read id s.cron_jobs ≡ none
      → HasNoOrphans laws s
      → Idle laws id s.cron
  unknown-Idle id s unknown v e t runs same =
      let known : read t.id s.cron_jobs ≡ some e = v.known e t runs in
      let other : read id s.cron_jobs ≡ some e =
        subst (λ n. read n s.cron_jobs ≡ some e) same known in
      cc

  -- Taking a task out of the cron: it is idle then, and all the rest stays.
  pub record Unscheduled (id : ℕ) (s s' : Scheduler InMemoryStore K) : Type 0 where
    pub kept : HasNoOrphans laws s'
    pub idle : Idle laws id s'.cron
    pub same_store : s'.store ≡ s.store

  -- What runs after a removal ran before, under another entry.
  removed_cases :
      (entry e : ℕ) (k : K) (t : Task)
      → laws.job e (cron.remove entry k) ≡ some t
      → (entry ≢ e) × (laws.job e k ≡ some t)
  removed_cases entry e k t runs =
      let law = laws.job-remove e entry k in
      elim (Bool-cases (entry == e)) [
        | inl same ↦
            let gone : laws.job e (cron.remove entry k) ≡ none = ground (arith, law) in
            let both : ◌≡◌ {A = Option Task} none (some t) = cc in absurd (cc)
        | inr other ↦
            let old : laws.job e (cron.remove entry k) ≡ laws.job e k = ground (arith, law) in
            (λ e'. ground (arith, nat_eq.equals_iff entry e), cc)
      ]

  removed-Idle :
      (id entry e : ℕ) (t : Task) (s : Scheduler InMemoryStore K)
      → read id s.cron_jobs ≡ some entry
      → entry ≢ e
      → HasNoOrphans laws s
      → job_in laws s.cron e ≡ some t
      → t.id ≢ id
  removed-Idle id entry e t s known other v runs same =
      let here : read id s.cron_jobs ≡ some e =
        subst (λ n. read n s.cron_jobs ≡ some e) same (v.known e t runs) in
      other (let both : ◌≡◌ {A = Option ℕ} (some entry) (some e) = cc in cc)

  unschedule_in-Unscheduled :
      (k : Option K) (entry : Option ℕ) (id : ℕ) (s : Scheduler InMemoryStore K)
      → k ≡ s.cron
      → read id s.cron_jobs ≡ entry
      → HasNoOrphans laws s
      → Unscheduled id s (unschedule_in cron k entry id s)
  unschedule_in-Unscheduled none entry id s running known v = record {
    kept = v;
    idle = λ e t runs same.
        let no : job_in laws none e ≡ some t =
          subst (λ c. job_in laws c e ≡ some t) (sym running) runs in
        let both : ◌≡◌ {A = Option Task} none (some t) = no in absurd (cc);
    same_store = refl;
  }
  unschedule_in-Unscheduled (some k) none id s running known v = record {
    kept = v;
    idle = unknown-Idle id s known v;
    same_store = refl;
  }
  unschedule_in-Unscheduled (some k) (some entry) id s running known v =
      let before : (e : ℕ) (t : Task)
          → laws.job e (cron.remove entry k) ≡ some t
          → (t.id ≢ id) × (job_in laws s.cron e ≡ some t) =
        λ e t runs.
          let (other, old) = removed_cases entry e k t runs in
          let old' : job_in laws s.cron e ≡ some t = rw (← running) old in
          (removed-Idle id entry e t s known other v old', old') in
      record {
        kept = record {
          given = v.given;
          known = λ e t runs.
              let (other, old) = before e t runs in
              let differs : (id == t.id) ≡ false = ground (arith, nat_eq.equals_iff id t.id) in
              rw (read-delete, differs) (v.known e t old);
          stored = λ e t runs. v.stored e t (before e t runs).1;
        };
        idle = λ e t runs. (before e t runs).0;
        same_store = refl;
      }

  pub unschedule-Unscheduled :
      (id : ℕ) (s : Scheduler InMemoryStore K)
      → HasNoOrphans laws s
      → Unscheduled id s (unschedule cron id s)
  unfolding unschedule
  unschedule-Unscheduled id s v =
      unschedule_in-Unscheduled s.cron (read id s.cron_jobs) id s refl refl v

  -- The store plays no part in it.
  unschedule_in_store :
      (k : Option K) (entry : Option ℕ) (id : ℕ) (st : InMemoryStore)
      (s : Scheduler InMemoryStore K)
      → unschedule_in cron k entry id (record s { store = st })
        ≡ record (unschedule_in cron k entry id s) { store = st }
  unschedule_in_store none entry id st s = refl
  unschedule_in_store (some k) none id st s = refl
  unschedule_in_store (some k) (some entry) id st s = refl

  pub unschedule_store :
      (id : ℕ) (st : InMemoryStore) (s : Scheduler InMemoryStore K)
      → unschedule cron id (record s { store = st }) ≡ record (unschedule cron id s) { store = st }
  unfolding unschedule
  unschedule_store id st s = unschedule_in_store s.cron (read id s.cron_jobs) id st s
