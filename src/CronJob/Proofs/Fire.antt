-- ===== src/CronJob/Proofs/Fire.antt =====
-- About the one-off Job of a NixCronJob: when it is created.
use nio.Prelude.{true, false, [], some, ◌≡◌, ◌==◌, ◌⊎◌, All}
use nio.Kube.{ok}
use nio.Kube.Times.{Times}
use nio.Kube.Keeps.{Keeps}
use nio.Api.Workload.{NixCronJob}
use nio.Api.Batch.{BatchJob}
use nio.Workload.State.{create_job, Event, History, WorkloadReconciler, WorkSt}
use nio.Workload.Resolve.{ResolvedSource}
use nio.Workload.Infra.{InfraDeps}
use nio.Workload.Status.{trigger_on_change}
use nio.CronJob.Project.{immediate_job}

module _ (t : Times) (r : WorkloadReconciler NixCronJob) (ncj : NixCronJob) (res : ResolvedSource)
    (deps : InfraDeps) where
  -- The one-off Job of the revision, owned by the NixCronJob, where it may be run: the revision is
  -- not the one that was rolled out, a change of it triggers a run, and no run is active that
  -- forbids another.
  abbrev pub IsOneOff : BatchJob → Type 0
  IsOneOff job =
      ((ncj.status.workload.rolled_out_revision == res.revision) ≡ false)
      × (ncj.spec.nix.trigger_on_change ≡ some true)
      × ((ncj.spec.cron_job_template.forbid_concurrent ≡ false) ⊎ (ncj.status.active_jobs ≡ []))
      × (r.services.own_job ncj (immediate_job r.services.sha256_hex ncj res deps) ≡ ok job)

  abbrev CreatesOneOff : Event NixCronJob → Type 0
  CreatesOneOff e = elim e.call [ create_job j ↦ IsOneOff j | _ ↦ Unit {0} ]

  abbrev pub FiresOnly : History NixCronJob → Type 0
  FiresOnly = All CreatesOneOff

  abbrev Safe : WorkSt NixCronJob → Type 0
  Safe s = FiresOnly s.history
