-- ===== src/CronJob/Proofs/Verdict.antt =====
-- About observe: the verdict on the latest run of a NixCronJob, and what its parent reads of it.
use nio.Prelude.{ℕ, eqb, String, Bool, true, false, Option, ◌≡◌, refl, not, if◌then◌else◌}
use nio.Kube.{Message}
use nio.Kube.Times.{Times}
use nio.Kube.Conditions.{holds}
use nio.Api.Workload.{NixCronJob}
use nio.Api.Batch.{BatchCronJob}
use nio.Api.Names.{condition_ready, cluster_ready, cluster_degraded, member_applied, member_failed}
use nio.Workload.State.{WorkloadReconciler}
use nio.Workload.Status.{mark_ready, clear_stalled}
use nio.Workload.Resolve.{ResolvedSource}
use nio.Converge.{converge_stall}
use nio.Cluster.Status.{coarse_member_status, cluster_phase}
use nio.CronJob.Runs.{latest_run_failed}
use nio.CronJob.Reconcile.{run_verdict, with_runs, with_verdict}

module _ (t : Times) (r : WorkloadReconciler NixCronJob) where
  abbrev failing : Option ℕ × Option ℕ → Bool
  failing runs = (latest_run_failed t runs.0 runs.1).0

  -- What the parent reads: its members and its phase follow the latest run, and there is no stall.
  abbrev pub IsRead : String → Bool → ℕ → String → NixCronJob → Type 0
  IsRead revision failed n previous cron =
      (cluster_phase r.meta t cron true n ≡ (if failed then cluster_degraded else cluster_ready))
      × (coarse_member_status r.meta t cron true previous
          ≡ (if failed then member_failed else member_applied))
      × (holds (r.meta.find_status_condition cron.status.workload.conditions condition_ready)
          ≡ not failed)
      × (cron.status.workload.rolled_out_revision ≡ revision)

  judged :
      (res : ResolvedSource) (cj : BatchCronJob) (runs : Option ℕ × Option ℕ) (ncj : NixCronJob)
      (n : ℕ) (previous : String) (verdict : Bool × Message)
      → latest_run_failed t runs.0 runs.1 ≡ verdict
      → eqb n 0 ≡ false
      → IsRead res.revision verdict.0 n previous
          (run_verdict t r res verdict (with_runs cj runs ncj))
  unfolding cluster_phase coarse_member_status converge_stall mark_ready clear_stalled
      latest_run_failed
  judged res cj runs ncj n previous (true, message) e some_members =
      rw (e, some_members) (simp (r.meta.find-set, r.meta.find-remove) (refl, refl, refl, refl))
  judged res cj runs ncj n previous (false, message) e some_members =
      rw (e, some_members) (simp (r.meta.find-set, r.meta.find-remove) (refl, refl, refl, refl))

  -- A NixCluster reads from its child what the child's own observation of the runs says: if the
  -- latest run failed, the cluster is Degraded, its members Failed and the child not Ready; else
  -- the cluster is Ready, its members Applied and the child Ready; in both cases the revision counts
  -- as rolled out. This holds whatever the child
  -- said before, a stall included, and for a cluster that has members.
  pub with_verdict-IsRead :
      (res : ResolvedSource) (cj : BatchCronJob) (runs : Option ℕ × Option ℕ) (ncj : NixCronJob)
      (n : ℕ) (previous : String)
      → eqb n 0 ≡ false
      → IsRead res.revision
          (latest_run_failed t runs.0 runs.1).0
          n
          previous
          (with_verdict t r res cj runs ncj)
  unfolding with_verdict
  with_verdict-IsRead res cj runs ncj n previous some_members =
      judged res cj runs ncj n previous (latest_run_failed t runs.0 runs.1) refl some_members
