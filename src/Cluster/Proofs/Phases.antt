-- ===== src/Cluster/Proofs/Phases.antt =====
-- About clusterPhase and coarseMemberStatus, which read the same converge child.
use nio.Prelude.{ℕ, String, Bool, ◌≡◌, ◌⊎◌, ◌↔◌, arith, ◌<◌, none, eq_iff, ◌==◌, false}
use nio.Kube.Conditions.{Meta}
use nio.Kube.Times.{Times}
use nio.Api.Workload.{NixCronJob}
use nio.Api.Names.{
  cluster_blocked, cluster_ready, cluster_converging, cluster_degraded, member_applied,
  member_applying, member_failed, member_pending,
}
use nio.Converge.{converge_stall}
use nio.Cluster.Status.{coarse_member_status, cluster_phase}

module _ (m : Meta) (t : Times) where
  -- In a cluster that is Ready every member is Applied or Applying.
  cluster_phase-ready :
      (cron : NixCronJob) (have : Bool) (total : ℕ) (prev : String)
      → converge_stall m cron have ≡ none
      → ((cluster_phase m t cron have total == cluster_ready) ≡ false)
        ⊎ ((coarse_member_status m t cron have prev ≡ member_applied)
            ⊎ (coarse_member_status m t cron have prev ≡ member_applying))
  unfolding cluster_phase coarse_member_status
  cluster_phase-ready cron have total prev e = ground (
    arith,
    e,
    eq_iff (cluster_phase m t cron have total) cluster_ready,
    eq_iff cluster_blocked cluster_ready,
    eq_iff cluster_converging cluster_ready,
    eq_iff cluster_degraded cluster_ready,
  )

  cluster_phase-degraded :
      (cron : NixCronJob) (have : Bool) (total : ℕ) (prev : String)
      → 0 < total
      → converge_stall m cron have ≡ none
      → (cluster_phase m t cron have total ≡ cluster_degraded)
        ↔ (coarse_member_status m t cron have prev ≡ member_failed)
  unfolding cluster_phase coarse_member_status
  cluster_phase-degraded cron have total prev h e = ground (
    arith,
    e,
    eq_iff cluster_converging cluster_degraded,
    eq_iff cluster_ready cluster_degraded,
    eq_iff member_pending member_failed,
    eq_iff member_applied member_failed,
    eq_iff member_applying member_failed,
  )

  -- In a cluster that has members, and a converge child that is not stalled on its infrastructure:
  -- unless the phase is another than Ready, every member is Applied or Applying; and the phase is
  -- Degraded exactly if its members are Failed.
  pub cluster_phase-members :
      (cron : NixCronJob) (have : Bool) (total : ℕ) (prev : String)
      → 0 < total
      → converge_stall m cron have ≡ none
      → (((cluster_phase m t cron have total == cluster_ready) ≡ false)
          ⊎ ((coarse_member_status m t cron have prev ≡ member_applied)
              ⊎ (coarse_member_status m t cron have prev ≡ member_applying)))
        × ((cluster_phase m t cron have total ≡ cluster_degraded)
            ↔ (coarse_member_status m t cron have prev ≡ member_failed))
  cluster_phase-members cron have total prev h e =
      (cluster_phase-ready cron have total prev e, cluster_phase-degraded cron have total prev h e)
