-- ===== src/Job/History.antt =====
-- gcOldJobs: which run-Jobs of a NixJob are deleted.
use nio.Prelude.{ℕ, String, Bool, ◌||◌, List, [], ◌∷◌, ◌==◌, ltb, drop, if◌then◌else◌}
use nio.Kube.{is_not_found, Result, ok, err}
use nio.Kube.Actions.{◌>>=◌, ◌>>◌, pure, fail, attempt}
use nio.Api.Workload.{NixJob}
use nio.Api.Batch.{BatchJob}
use nio.Workload.State.{WorkloadReconciler, WorkStep, drop_job}
use nio.Job.Run.{has_condition, job_complete, job_failed, list_run_jobs}

-- jobHistoryLimit
abbrev pub job_history_limit : ℕ
job_history_limit = 3

abbrev pub is_finished : BatchJob → Bool
is_finished job =
    has_condition job.conditions job_complete || has_condition job.conditions job_failed

-- The finished jobs that are not the current one.
unfoldable pub completed : String → List BatchJob → List BatchJob
completed current [] = []
completed current (j ∷ jobs) =
    let rest = completed current jobs in
    if j.name == current then rest else if is_finished j then j ∷ rest else rest

-- sort.Slice, the newest first; the order of jobs of the same second is one of those that it may
-- leave.
unfoldable pub insert_newest : BatchJob → List BatchJob → List BatchJob
insert_newest j [] = j ∷ []
insert_newest j (x ∷ xs) =
    let rest = insert_newest j xs in
    if ltb j.creation_timestamp x.creation_timestamp then x ∷ rest else j ∷ x ∷ xs

unfoldable pub newest_first : List BatchJob → List BatchJob
newest_first [] = []
newest_first (j ∷ jobs) = insert_newest j (newest_first jobs)

-- The jobs beyond the history limit.
unfoldable pub old_jobs : String → List BatchJob → List BatchJob
old_jobs current jobs = drop job_history_limit (newest_first (completed current jobs))

module _ (r : WorkloadReconciler NixJob) where
  -- A job that is gone already is as good.
  abbrev pub deleted : Result (Unit {0}) → WorkStep NixJob (Unit {0})
  deleted (ok _) = pure tt
  deleted (err e) = if is_not_found e then pure tt else fail e

  unfoldable pub delete_jobs : List BatchJob → WorkStep NixJob (Unit {0})
  delete_jobs [] = pure tt
  delete_jobs (j ∷ jobs) = do answer ← attempt (drop_job r j); deleted answer; delete_jobs jobs

  unfoldable pub gc_old_jobs : NixJob → String → WorkStep NixJob (Unit {0})
  gc_old_jobs nj current = do jobs ← list_run_jobs r nj; delete_jobs (old_jobs current jobs)
