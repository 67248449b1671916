-- ===== src/Job/Reconcile.antt =====
-- Reconcile of the NixJob controller.
use Prim.Native.String.{◌++◌}
use nio.Prelude.{String}
use nio.Kube.{Result, Requeue}
use nio.Kube.Actions.{◌>>=◌, ◌>>◌, pure, attempt, get}
use nio.Api.Workload.{NixJob}
use nio.Render.Revision.{composite_revision}
use nio.Workload.State.{History, WorkloadReconciler, WorkStep}
use nio.Workload.Resolve.{ResolvedSource}
use nio.Workload.Infra.{InfraDeps}
use nio.Workload.Flow
use nio.Workload.Flow.{update_status}
use nio.Job.Run.{ensure_run_job, observe}
use nio.Job.History.{gc_old_jobs}

module _ (r : WorkloadReconciler NixJob) where
  abbrev pub job_name_of : NixJob → ResolvedSource → String
  job_name_of nj res =
      nj.name
      ++ "-"
      ++ composite_revision r.services.sha256_hex res.revision nj.spec.nix.run nj.spec.nix.args

  -- What follows the infrastructure: the run-Job, its observation, and the history.
  unfoldable pub run_job : ResolvedSource → InfraDeps → WorkStep NixJob (Unit {0})
  run_job res deps = do
    s ← get
    let job_name = job_name_of s.object res
    ensure_run_job r s.object res deps job_name
    update_status r (λ _ st. record st { workload_ref = job_name })
    observe r job_name
    t ← get
    _ ← attempt (gc_old_jobs r t.object job_name)
    pure tt

  unfoldable pub reconcile : String → String → Result Requeue × History NixJob
  reconcile namespace name = Flow.reconcile r run_job namespace name
