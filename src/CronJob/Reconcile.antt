-- ===== src/CronJob/Reconcile.antt =====
-- observe and Reconcile of the NixCronJob controller.
use nio.Prelude.{ℕ, String, Bool, true, false, not, ◌&&◌, Option, ◌==◌, if◌then◌else◌}
use nio.Kube.{Message, text, Result, ok, err, Requeue}
use nio.Kube.Times.{Times}
use nio.Kube.Conditions.{condition_false}
use nio.Kube.Actions.{◌>>=◌, ◌>>◌, pure, attempt, get}
use nio.Api.Workload.{NixCronJob}
use nio.Api.Batch.{BatchCronJob}
use nio.Api.Names.{condition_ready, phase_degraded, phase_progressing}
use nio.Workload.State.{History, WorkloadReconciler, WorkStep}
use nio.Workload.Status.{
  set_condition, clear_stalled, mark_ready, mark_progressing, trigger_on_change,
}
use nio.Workload.Resolve.{ResolvedSource}
use nio.Workload.Infra.{InfraDeps}
use nio.Workload.Flow
use nio.Workload.Flow.{change, update_status}
use nio.CronJob.Runs.{last_finished_runs, latest_run_failed}
use nio.CronJob.Project.{nix_cron_job_kind, get_cron_job, project, fire_immediate_job}

abbrev pub reason_run_failed : String
reason_run_failed = "RunFailed"

-- What is copied from the CronJob, and the times of the latest runs.
abbrev pub with_runs : BatchCronJob → Option ℕ × Option ℕ → NixCronJob → NixCronJob
with_runs cj runs ncj = record ncj {
  status = record ncj.status {
    last_schedule_time = cj.last_schedule_time;
    active_jobs = cj.active;
    last_failed_time = runs.0;
    last_successful_time = runs.1;
  };
}

module _ (t : Times) (r : WorkloadReconciler NixCronJob) where
  -- The latest run failed, or did not.
  abbrev pub run_verdict : ResolvedSource → Bool × Message → NixCronJob → NixCronJob
  run_verdict res (true, message) ncj =
      nix_cron_job_kind.set_workload
        (clear_stalled r.meta
          (record (set_condition r.meta condition_ready condition_false reason_run_failed message
            ncj.generation (record ncj.status.workload { phase = phase_degraded })) {
              rolled_out_revision = res.revision;
            }))
        ncj
  run_verdict res (false, message) ncj =
      nix_cron_job_kind.set_workload
        (mark_ready r.meta res.revision ncj.generation ncj.status.workload) ncj

  unfoldable pub with_verdict :
      ResolvedSource → BatchCronJob → Option ℕ × Option ℕ → NixCronJob → NixCronJob
  with_verdict res cj runs ncj =
      run_verdict res (latest_run_failed t runs.0 runs.1) (with_runs cj runs ncj)

  abbrev pub observed_cron : ResolvedSource → Result BatchCronJob → WorkStep NixCronJob (Unit {0})
  observed_cron res (err e) = change (λ ncj.
      nix_cron_job_kind.set_workload
        (mark_progressing r.meta phase_progressing (text "cronjob not yet created") ncj.generation
          ncj.status.workload)
        ncj)
  observed_cron res (ok cj) = do
    s ← get
    let ncj = s.object
    change (
        with_verdict res cj (
          last_finished_runs t ncj.uid ncj.status cj
            (r.services.list_all_jobs s.history ncj.namespace)))

  unfoldable pub observe : ResolvedSource → WorkStep NixCronJob (Unit {0})
  observe res = do
    s ← get
    answer ← attempt (get_cron_job r s.object.namespace s.object.name)
    observed_cron res answer

  -- The revision changed, and a change of it is to be run at once.
  unfoldable pub fires : NixCronJob → ResolvedSource → Bool
  fires ncj res =
      not (ncj.status.workload.rolled_out_revision == res.revision)
      && trigger_on_change ncj.spec.nix false

  -- An error of the one-off Job is only logged.
  abbrev pub fire_if :
      Bool → NixCronJob → ResolvedSource → InfraDeps → WorkStep NixCronJob (Unit {0})
  fire_if b ncj res deps =
      if b then (do _ ← attempt (fire_immediate_job r ncj res deps); pure tt) else pure tt

  -- What follows the infrastructure.
  unfoldable pub run_cron : ResolvedSource → InfraDeps → WorkStep NixCronJob (Unit {0})
  run_cron res deps = do
    s ← get
    let ncj = s.object
    project r ncj res deps
    fire_if (fires ncj res) ncj res deps
    update_status r (λ _ st. record st { workload_ref = ncj.name })
    observe res

  unfoldable pub reconcile : String → String → Result Requeue × History NixCronJob
  reconcile namespace name = Flow.reconcile r run_cron namespace name
