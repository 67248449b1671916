-- ===== src/CronJob/Proofs/Runs.antt =====
-- About lastFinishedRuns: the times of the last failed and of the last successful run.
use nio.Prelude.{
  All, refl, ℕ, ◌≤◌, String, Bool, true, false, not, ◌&&◌, ◌||◌, subst, Bool-cases, inl, inr, List,
  [], ◌∷◌, Option, none, some, ◌≡◌, arith, if◌then◌else◌,
}
use mathlib.Core.List.{Memᴰ}
use nio.Kube.{Result, ok, err}
use nio.Kube.Times.{Times}
use nio.Api.Workload.{NixCronJobStatus}
use nio.Api.Batch.{BatchJob, BatchCronJob}
use nio.CronJob.Runs.{
  later, job_finished_at, owned_by, advance, after_job, after_jobs, last_finished_runs,
}

-- The second time is there, and not before the first, if that is there.
abbrev pub IsSince : Option ℕ → Option ℕ → Type 0
IsSince none u = Unit
IsSince (some t) none = ⊥
IsSince (some t) (some u) = t ≤ u

-- Both times of a pair.
pub record AreSince (a b : Option ℕ × Option ℕ) : Type 0 where
  pub failed : IsSince a.0 b.0
  pub succeeded : IsSince a.1 b.1

-- A job that the NixCronJob or its CronJob owns.
abbrev pub is_run : String → String → BatchJob → Bool
is_run ncj_uid cj_uid job = owned_by job ncj_uid || owned_by job cj_uid

-- When a job failed and when it completed.
abbrev pub ends : BatchJob → Option ℕ × Option ℕ
ends job = (job_finished_at job "Failed", job_finished_at job "Complete")

module _ (t : Times) where
  IsSince-refl : (a : Option ℕ) → IsSince a a
  IsSince-refl none = tt
  IsSince-refl (some n) = omega arith

  IsSince-trans : (a b c : Option ℕ) → IsSince a b → IsSince b c → IsSince a c
  IsSince-trans none b c h k = tt
  IsSince-trans (some n) none c h k = absurd h
  IsSince-trans (some n) (some m) none h k = k
  IsSince-trans (some n) (some m) (some p) h k = omega (arith, h, k)

  advance-IsSince : (last at_ : Option ℕ) → IsSince last (advance t last at_)
  unfolding advance later
  advance-IsSince last none = IsSince-refl last
  advance-IsSince none (some n) = tt
  advance-IsSince (some m) (some n) = rw (t.before-some m n) (ground arith)

  IsSince-advance : (last at_ : Option ℕ) → IsSince at_ (advance t last at_)
  unfolding advance later
  IsSince-advance last none = tt
  IsSince-advance none (some n) = omega arith
  IsSince-advance (some m) (some n) = rw (t.before-some m n) (ground arith)

  AreSince-trans : (a b c : Option ℕ × Option ℕ) → AreSince a b → AreSince b c → AreSince a c
  AreSince-trans a b c h k = record {
    failed = IsSince-trans a.0 b.0 c.0 h.failed k.failed;
    succeeded = IsSince-trans a.1 b.1 c.1 h.succeeded k.succeeded;
  }

  module _ (ncj_uid cj_uid : String) where
    after_job-AreSince :
        (job : BatchJob) (last : Option ℕ × Option ℕ)
        → AreSince last (after_job t ncj_uid cj_uid job last)
    unfolding after_job
    after_job-AreSince job last =
        elim (Bool-cases (not (owned_by job ncj_uid) && not (owned_by job cj_uid))) [
          | inl e ↦ rw e (record { failed = IsSince-refl last.0; succeeded = IsSince-refl last.1 })
          | inr e ↦
              rw e
                (record { failed = advance-IsSince last.0 _; succeeded = advance-IsSince last.1 _ })
        ]

    AreSince-after_job :
        (job : BatchJob) (last : Option ℕ × Option ℕ)
        → is_run ncj_uid cj_uid job ≡ true
        → AreSince (ends job) (after_job t ncj_uid cj_uid job last)
    unfolding after_job
    AreSince-after_job job last run =
        let owned : (not (owned_by job ncj_uid) && not (owned_by job cj_uid)) ≡ false =
          ground arith in
        rw owned
          (record { failed = IsSince-advance last.0 _; succeeded = IsSince-advance last.1 _ })

    after_jobs-AreSince :
        (jobs : List BatchJob) (last : Option ℕ × Option ℕ)
        → AreSince last (after_jobs t ncj_uid cj_uid jobs last)
    unfolding after_jobs
    after_jobs-AreSince [] last = record {
      failed = IsSince-refl last.0;
      succeeded = IsSince-refl last.1;
    }
    after_jobs-AreSince (job ∷ jobs) last =
        AreSince-trans last (after_job t ncj_uid cj_uid job last) _ (after_job-AreSince job last)
          (after_jobs-AreSince jobs (after_job t ncj_uid cj_uid job last))

    AreSince-after_jobs :
        (jobs : List BatchJob) (job : BatchJob) (last : Option ℕ × Option ℕ)
        → Memᴰ job jobs
        → is_run ncj_uid cj_uid job ≡ true
        → AreSince (ends job) (after_jobs t ncj_uid cj_uid jobs last)
    unfolding after_jobs
    AreSince-after_jobs [] job last i run = elim i [ ]
    AreSince-after_jobs (x ∷ jobs) job last (Memᴰ.head e) run =
        AreSince-trans (ends job) (after_job t ncj_uid cj_uid x last) _
          (subst (λ y. AreSince (ends job) (after_job t ncj_uid cj_uid y last)) e
            (AreSince-after_job job last run))
          (after_jobs-AreSince jobs (after_job t ncj_uid cj_uid x last))
    AreSince-after_jobs (x ∷ jobs) job last (Memᴰ.tail i) run =
        AreSince-after_jobs jobs job (after_job t ncj_uid cj_uid x last) i run

  first_times : NixCronJobStatus → BatchCronJob → Option ℕ × Option ℕ
  first_times status cj = (
    status.last_failed_time,
    if later t status.last_successful_time cj.last_successful_time
        then cj.last_successful_time
        else status.last_successful_time,
  )

  later-IsSince : (a b : Option ℕ) → IsSince a (if later t a b then b else a)
  unfolding later
  later-IsSince none b = tt
  later-IsSince (some m) none = rw (t.before-nil (some m)) (omega arith)
  later-IsSince (some m) (some n) = rw (t.before-some m n) (ground arith)

  first_times-AreSince :
      (status : NixCronJobStatus) (cj : BatchCronJob)
      → AreSince (status.last_failed_time, status.last_successful_time) (first_times status cj)
  unfolding first_times
  first_times-AreSince status cj = record {
    failed = IsSince-refl status.last_failed_time;
    succeeded = later-IsSince status.last_successful_time cj.last_successful_time;
  }

  earlier-AreSince :
      (ncj_uid : String) (status : NixCronJobStatus) (cj : BatchCronJob)
      (answer : Result (List BatchJob))
      → AreSince
          (status.last_failed_time, status.last_successful_time)
          (last_finished_runs t ncj_uid status cj answer)
  unfolding last_finished_runs first_times
  earlier-AreSince ncj_uid status cj (err e) = first_times-AreSince status cj
  earlier-AreSince ncj_uid status cj (ok jobs) =
      AreSince-trans _ (first_times status cj) _ (first_times-AreSince status cj)
        (after_jobs-AreSince ncj_uid cj.uid jobs (first_times status cj))

  -- Of a job that the NixCronJob or its CronJob owns, the times are at least its end.
  abbrev pub IsSeen : String → String → Option ℕ × Option ℕ → BatchJob → Type 0
  IsSeen ncj_uid cj_uid last job =
      if is_run ncj_uid cj_uid job then AreSince (ends job) last else Unit {0}

  abbrev pub AreSeen : String → String → Option ℕ × Option ℕ → Result (List BatchJob) → Type 0
  AreSeen ncj_uid cj_uid last (err e) = Unit {0}
  AreSeen ncj_uid cj_uid last (ok jobs) = All (IsSeen ncj_uid cj_uid last) jobs

  after_jobs-IsSeen :
      (ncj_uid cj_uid : String) (jobs : List BatchJob) (last : Option ℕ × Option ℕ) (job : BatchJob)
      → Memᴰ job jobs
      → IsSeen ncj_uid cj_uid (after_jobs t ncj_uid cj_uid jobs last) job
  after_jobs-IsSeen ncj_uid cj_uid jobs last job i = elim (Bool-cases (is_run ncj_uid cj_uid job)) [
    | inl run ↦ rw run (AreSince-after_jobs ncj_uid cj_uid jobs job last i run)
    | inr other ↦ rw other tt
  ]

  All-IsSeen :
      (ncj_uid cj_uid : String) (last : Option ℕ × Option ℕ) (jobs : List BatchJob)
      → ((job : BatchJob) → Memᴰ job jobs → IsSeen ncj_uid cj_uid last job)
      → All (IsSeen ncj_uid cj_uid last) jobs
  All-IsSeen ncj_uid cj_uid last [] k = tt
  All-IsSeen ncj_uid cj_uid last (job ∷ jobs) k =
      (k job (Memᴰ.head refl), All-IsSeen ncj_uid cj_uid last jobs (λ x i. k x (Memᴰ.tail i)))

  answer-AreSeen :
      (ncj_uid : String) (status : NixCronJobStatus) (cj : BatchCronJob)
      (answer : Result (List BatchJob))
      → AreSeen ncj_uid cj.uid (last_finished_runs t ncj_uid status cj answer) answer
  unfolding last_finished_runs
  answer-AreSeen ncj_uid status cj (err e) = tt
  answer-AreSeen ncj_uid status cj (ok jobs) =
      All-IsSeen ncj_uid cj.uid _ jobs (after_jobs-IsSeen ncj_uid cj.uid jobs _)

  -- Whether the jobs can be listed or not, neither time is lost or goes back: a failure that was
  -- seen is not forgotten when its job is pruned. When the jobs are listed, the times are at least
  -- those of every listed job that the NixCronJob or its CronJob owns.
  pub last_finished_runs-AreSince :
      (ncj_uid : String) (status : NixCronJobStatus) (cj : BatchCronJob)
      (answer : Result (List BatchJob))
      → AreSince
          (status.last_failed_time, status.last_successful_time)
          (last_finished_runs t ncj_uid status cj answer)
        × AreSeen ncj_uid cj.uid (last_finished_runs t ncj_uid status cj answer) answer
  last_finished_runs-AreSince ncj_uid status cj answer =
      (earlier-AreSince ncj_uid status cj answer, answer-AreSeen ncj_uid status cj answer)
