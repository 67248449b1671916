-- ===== src/Cluster/Status.antt =====
-- coarseMemberStatus and clusterPhase: what the converge child says of the members and of the
-- cluster.
use nio.Prelude.{
  ℕ, String, Bool, true, false, not, ◌||◌, List, [], ◌∷◌, ◌==◌, eqb, is_some, if◌then◌else◌,
}
use nio.Kube.Conditions.{Meta}
use nio.Kube.Times.{Times}
use nio.Api.Workload.{NixCronJob}
use nio.Api.Names.{
  phase_ready, phase_degraded, phase_failed, cluster_ready, cluster_converging, cluster_degraded,
  cluster_blocked, member_pending, member_applying, member_applied, member_failed,
}
use nio.Converge.{converge_stall}
use nio.CronJob.Runs.{latest_run_failed}

abbrev pub is_empty {ℓ} : {A : Type ℓ} → List A → Bool
is_empty [] = true
is_empty (x ∷ xs) = false

-- case niov1alpha1.PhaseFailed, niov1alpha1.PhaseDegraded
abbrev pub is_bad : String → Bool
is_bad phase = phase == phase_failed || phase == phase_degraded

module _ (m : Meta) (t : Times) where
  -- failed, _ := latestRunFailed(…)
  abbrev pub run_failed : NixCronJob → Bool
  run_failed cron =
      (latest_run_failed t cron.status.last_failed_time cron.status.last_successful_time).0

  unfoldable pub coarse_member_status : NixCronJob → Bool → String → String
  coarse_member_status cron have_cron prev_status =
      if not have_cron
      then member_pending
      else if is_some (converge_stall m cron have_cron)
      then (if not (prev_status == "") then prev_status else member_pending)
      else if run_failed cron
      then member_failed
      else if is_bad cron.status.workload.phase
      then member_failed
      else if cron.status.workload.phase == phase_ready
      then member_applied
      else if not (is_empty cron.status.active_jobs)
      then member_applying
      else if is_some cron.status.last_successful_time
      then member_applied
      else member_pending

  unfoldable pub cluster_phase : NixCronJob → Bool → ℕ → String
  cluster_phase cron have_cron total_members =
      if eqb total_members 0
      then cluster_blocked
      else if not have_cron
      then cluster_converging
      else if is_some (converge_stall m cron have_cron)
      then cluster_blocked
      else if run_failed cron
      then cluster_degraded
      else if is_bad cron.status.workload.phase
      then cluster_degraded
      else if cron.status.workload.phase == phase_ready
      then cluster_ready
      else if is_some cron.status.last_successful_time
      then cluster_ready
      else cluster_converging
