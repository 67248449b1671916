-- ===== src/CronJob/Runs.antt =====
-- The runs of a NixCronJob: which one is the latest, and whether it failed.
use nio.Prelude.{
  ℕ, String, Bool, true, false, not, ◌&&◌, List, ◌∷◌, [], Option, none, some, is_some, ◌==◌,
  if◌then◌else◌,
}
use nio.Prelude.Members.{contains}
use nio.Kube.{Message, text, sprintf, num, Result, ok, err}
use nio.Api.Workload.{NixCronJobStatus}
use nio.Api.Batch.{JobCondition, BatchJob, BatchCronJob}
use nio.Kube.Times.{Times}

-- Whether the candidate is newer than the current time, of which a nil one loses.
unfoldable pub later : Times → Option ℕ → Option ℕ → Bool
later t none candidate = true
later t (some current) candidate = t.before (some current) candidate

-- The `%s` stands for the time in RFC 3339.
abbrev failed_at : ℕ → Bool × Message
failed_at time = (true, sprintf "the most recent run failed at %s" (num time ∷ []))

unfoldable pub latest_run_failed : Times → Option ℕ → Option ℕ → Bool × Message
latest_run_failed t none last_successful = (false, text "")
latest_run_failed t (some failed) none = failed_at failed
latest_run_failed t (some failed) (some successful) =
    if not (t.before (some successful) (some failed)) then (false, text "") else failed_at failed

abbrev job_failed : String
job_failed = "Failed"

abbrev job_complete : String
job_complete = "Complete"

unfoldable pub find_job_condition : List JobCondition → String → Option JobCondition
find_job_condition [] want = none
find_job_condition (c ∷ cs) want = if c.type == want then some c else find_job_condition cs want

-- When a run ended, given its condition.
abbrev finished_with : BatchJob → Option JobCondition → Option ℕ
finished_with job none = none
finished_with job (some cond) =
    if not cond.is_true
    then none
    else if is_some job.completion_time
    then job.completion_time
    else some cond.last_transition_time

unfoldable pub job_finished_at : BatchJob → String → Option ℕ
job_finished_at job want = finished_with job (find_job_condition job.conditions want)

unfoldable pub owned_by : BatchJob → String → Bool
owned_by job owner = if owner == "" then false else contains job.owner_uids owner

-- if at := …; at != nil && later(last, at) { last = at }
unfoldable pub advance : Times → Option ℕ → Option ℕ → Option ℕ
advance t last none = last
advance t last (some at_) = if later t last (some at_) then some at_ else last

-- The body of the loop: the last failure and the last success so far.
unfoldable pub after_job :
    Times → String → String → BatchJob → Option ℕ × Option ℕ → Option ℕ × Option ℕ
after_job t ncj_uid cj_uid job (failed, succeeded) =
    if not (owned_by job ncj_uid) && not (owned_by job cj_uid) then (failed, succeeded) else (
      advance t failed (job_finished_at job job_failed),
      advance t succeeded (job_finished_at job job_complete),
    )

unfoldable pub after_jobs :
    Times → String → String → List BatchJob → Option ℕ × Option ℕ → Option ℕ × Option ℕ
after_jobs t ncj_uid cj_uid [] last = last
after_jobs t ncj_uid cj_uid (job ∷ jobs) last =
    after_jobs t ncj_uid cj_uid jobs (after_job t ncj_uid cj_uid job last)

abbrev scanned :
    Times → String → String → Result (List BatchJob) → Option ℕ × Option ℕ → Option ℕ × Option ℕ
scanned t ncj_uid cj_uid (err e) last = last
scanned t ncj_uid cj_uid (ok jobs) last = after_jobs t ncj_uid cj_uid jobs last

-- The answer of the List of the jobs is an argument; `ncj_uid` is the UID of the NixCronJob.
unfoldable pub last_finished_runs :
    Times → String → NixCronJobStatus → BatchCronJob → Result (List BatchJob) → Option ℕ × Option ℕ
last_finished_runs t ncj_uid status cj answer = scanned t ncj_uid cj.uid answer (
  status.last_failed_time,
  if later t status.last_successful_time cj.last_successful_time
      then cj.last_successful_time
      else status.last_successful_time,
)
