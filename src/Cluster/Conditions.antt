-- ===== src/Cluster/Conditions.antt =====
-- setConditions: the conditions of a cluster whose reconcile got through.
use Prim.Native.String.{◌++◌}
use nio.Prelude.{
  ℕ, String, Bool, true, false, not, ◌&&◌, [], Option, none, some, eqb, ◌==◌, if◌then◌else◌,
}
use nio.Kube.{Message, text, wrapped}
use nio.Kube.Conditions.{Condition, ConditionStatus, condition_true, condition_false, Meta}
use nio.Api.Workload.{NixCronJob}
use nio.Api.Cluster.{NixCluster}
use nio.Api.Names.{
  condition_ready, condition_stalled, condition_git_synced, condition_underprovisioned,
  reason_underprovisioned, reason_fully_provisioned, reason_succeeded, reason_waiting,
  reason_converging, cluster_ready,
}
use nio.Converge.{converge_stall}

module _ (m : Meta) where
  -- meta.SetStatusCondition(&cluster.Status.Conditions, …), at the generation of the cluster
  abbrev pub put : String → ConditionStatus → String → Message → NixCluster → NixCluster
  put type status reason message cluster = record cluster {
    status = record cluster.status {
      conditions = m.set_status_condition cluster.status.conditions (record {
        type = type;
        status = status;
        observed_generation = cluster.generation;
        reason = reason;
        message = message;
      });
    };
  }

  -- meta.RemoveStatusCondition(&cluster.Status.Conditions, ConditionStalled)
  abbrev pub without_stalled : NixCluster → NixCluster
  without_stalled cluster = record cluster {
    status = record cluster.status {
      conditions = m.remove_status_condition cluster.status.conditions condition_stalled;
    };
  }

  unfoldable pub put_underprovisioned : Bool → NixCluster → NixCluster
  put_underprovisioned true =
      put condition_underprovisioned condition_true reason_underprovisioned
        (text "one or more nodeGroups have fewer matching Machines than requested")
  put_underprovisioned false =
      put condition_underprovisioned condition_false reason_fully_provisioned
        (text "all nodeGroups satisfied their requested count")

  unfoldable pub put_git_synced : NixCronJob → Bool → NixCluster → NixCluster
  put_git_synced cron have_cron cluster =
      if have_cron && not (cron.status.workload.resolved_revision == "")
      then put condition_git_synced condition_true reason_succeeded
          (text ("converge resolved revision " ++ cron.status.workload.resolved_revision)) cluster
      else put condition_git_synced condition_false reason_waiting
          (text "converge has not resolved a revision yet") cluster

  -- "converge is stalled: " + stall.Message
  abbrev pub stall_message : Condition → Message
  stall_message stall = wrapped "converge is stalled: " [] stall.message

  unfoldable pub put_not_ready : Option Condition → ℕ → NixCluster → NixCluster
  put_not_ready (some stall) total_members cluster =
      put condition_ready condition_false stall.reason (stall_message stall) cluster
  put_not_ready none total_members cluster =
      if eqb total_members 0
      then put condition_ready condition_false reason_waiting
          (text "no Machines selected for any nodeGroup") cluster
      else put condition_ready condition_false reason_converging (text "converge in progress")
          cluster

  unfoldable pub put_ready : Option Condition → ℕ → NixCluster → NixCluster
  put_ready stall total_members cluster =
      if cluster.status.phase == cluster_ready
      then without_stalled
          (put condition_ready condition_true reason_succeeded (text "cluster converged") cluster)
      else put_not_ready stall total_members cluster

  unfoldable pub put_stall : Option Condition → NixCluster → NixCluster
  put_stall (some stall) = put condition_stalled condition_true stall.reason (stall_message stall)
  put_stall none = without_stalled

  unfoldable pub set_conditions : NixCronJob → Bool → Bool → ℕ → NixCluster → NixCluster
  set_conditions cron have_cron any_under total_members cluster =
      let stall = converge_stall m cron have_cron in
      put_stall stall (
        put_ready stall total_members
          (put_git_synced cron have_cron (put_underprovisioned any_under cluster)))
