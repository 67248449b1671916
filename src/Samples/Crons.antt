-- ===== src/Samples/Crons.antt =====
-- Tests, and the theorems on the runs of a NixCronJob, at sample jobs.
use nio.Prelude.{true, [], ◌∷◌, none, some, ◌≡◌, refl}
use nio.Kube.{ok}
use nio.Kube.Times.{unix_times, before_in}
use nio.Api.Workload.{NixCronJobStatus, zero_workload, zero_job_spec}
use nio.Api.Batch.{BatchJob, BatchCronJob, new_batch_job, new_batch_cron_job}
use nio.CronJob.Runs.{
  later, find_job_condition, job_finished_at, owned_by, advance, after_job, after_jobs,
  last_finished_runs, latest_run_failed,
}
use nio.CronJob.Proofs.Runs.{AreSince, AreSeen, last_finished_runs-AreSince}
use nio.CronJob.Reconcile.{with_verdict}
use nio.CronJob.Proofs.Verdict.{IsRead, with_verdict-IsRead}
use nio.Workload.Resolve.{ResolvedSource}
use nio.Samples.Operator.{nightly, cron_operator}

abbrev seen : NixCronJobStatus
seen = record {
  workload = record zero_workload {
    phase = "Ready";
    resolved_revision = "abc";
    rolled_out_revision = "abc";
  };
  last_schedule_time = none;
  last_successful_time = some 40;
  last_failed_time = some 90;
  active_jobs = [];
}

abbrev cron : BatchCronJob
cron =
    record (new_batch_cron_job "sync" "default" []
      (record { schedule = "0 * * * *"; forbid_concurrent = true; job_template = zero_job_spec })) {
        uid = "cron-uid";
        last_successful_time = some 60;
      }

-- A one-off run that failed, owned by the NixCronJob.
abbrev one_off : BatchJob
one_off = record (new_batch_job "sync-r-1-manual" "default" [] zero_job_spec) {
  owner_uids = "nix-uid" ∷ [];
  conditions = record { type = "Failed"; is_true = true; last_transition_time = 120 } ∷ [];
}

abbrev foreign : BatchJob
foreign = record one_off { owner_uids = "other-uid" ∷ [] }

-- Without its job the failure at 90 stays; the CronJob's own success counts.
pruned_run : last_finished_runs unix_times "nix-uid" seen cron (ok []) ≡ (some 90, some 60)
unfolding last_finished_runs after_jobs later before_in
pruned_run = refl

foreign_run :
    last_finished_runs unix_times "nix-uid" seen cron (ok (foreign ∷ [])) ≡ (some 90, some 60)
unfolding last_finished_runs after_jobs after_job owned_by later before_in
foreign_run = refl

one_off_run :
    last_finished_runs unix_times "nix-uid" seen cron (ok (one_off ∷ [])) ≡ (some 120, some 60)
unfolding last_finished_runs after_jobs after_job owned_by advance job_finished_at
    find_job_condition later before_in
one_off_run = refl

last_finished_runs-AreSince_example :
    AreSince
      (some 90, some 40)
      (last_finished_runs unix_times "nix-uid" seen cron (ok (foreign ∷ one_off ∷ [])))
    × AreSeen unix_times "nix-uid" cron.uid
        (last_finished_runs unix_times "nix-uid" seen cron (ok (foreign ∷ one_off ∷ [])))
        (ok (foreign ∷ one_off ∷ []))
last_finished_runs-AreSince_example =
    last_finished_runs-AreSince unix_times "nix-uid" seen cron (ok (foreign ∷ one_off ∷ []))

abbrev resolved : ResolvedSource
resolved = record { revision = "4f1a2b3c"; artifact_url = "" }

-- The failure at 90 is the latest run.
with_verdict-IsRead_example :
    IsRead unix_times cron_operator "4f1a2b3c" true 3 "Applied"
      (with_verdict unix_times cron_operator resolved cron (some 90, some 60) nightly)
unfolding latest_run_failed before_in
with_verdict-IsRead_example =
    with_verdict-IsRead unix_times cron_operator resolved cron (some 90, some 60) nightly 3
      "Applied" refl
