-- ===== src/Scheduler/Cron.antt =====
-- What internal/services/scheduler/scheduler.go asks of the cron library and of the package time, as
-- parameters. A job of the cron is `executeTask` of a task, and stands for that task.
use go_backend_core.Prelude.{ℕ, ◌≡◌, Option, none, some, String, if◌then◌else◌}
use go_backend_core.Prelude.Int.{ℤ}
use go_backend_core.Prelude.Equality.{◌==◌, nat_eq}
use go_backend_core.Prelude.Result.{Result, ok, err}
use go_backend_core.Scheduler.Store.{Task}

pub record Cron (K : Type 0) : Type 0 where
  pub new : K
  pub add_func : String → Task → K → K × Result String ℕ
  pub schedule_every : ℤ → Task → K → K × ℕ
  pub remove : ℕ → K → K
  pub stop : K → K

-- `time.ParseDuration`, and `time.Parse` with the layout of RFC 3339.
pub record Parsing : Type 0 where
  pub parse_duration : String → Result String ℤ
  pub parse_time : String → Option ℤ

-- An entry that was added, or was not.
abbrev pub job_added : ℕ → Task → Result String ℕ → Option Task → Option Task
job_added e t (err why) old = old
job_added e t (ok entry) old = if entry == e then some t else old

-- The entries of a cron: what is added stays, under its entry, until it is removed.
pub record CronLaws {K : Type 0} (cron : Cron K) : Type 0 where
  pub job : ℕ → K → Option Task
  pub job-new : (e : ℕ) → job e cron.new ≡ none
  pub job-add_func :
      (e : ℕ) (expression : String) (t : Task) (k : K)
      → job e (cron.add_func expression t k).0
        ≡ job_added e t (cron.add_func expression t k).1 (job e k)
  pub job-schedule_every :
      (e : ℕ) (every : ℤ) (t : Task) (k : K)
      → job e (cron.schedule_every every t k).0
        ≡ job_added e t (ok (cron.schedule_every every t k).1) (job e k)
  pub job-remove :
      (e entry : ℕ) (k : K) → job e (cron.remove entry k) ≡ (if entry == e then none else job e k)
