-- ===== src/Cluster/Reconcile.antt =====
-- Reconcile, fail and reconcileRemoving: one reconcile of a NixCluster.
use nio.Prelude.{ℕ, String, Bool, true, false, List, [], ◌∷◌, ◌==◌, if◌then◌else◌}
use nio.Kube.{
  Error, message_of, is_conflict, is_not_found, Result, ok, err, Requeue, no_requeue, requeue_now,
  requeue_in,
}
use nio.Kube.Actions.{◌>>=◌, ◌>>◌, pure, fail, attempt, get, modify}
use nio.Kube.Conditions.{Meta, condition_true, condition_false}
use nio.Kube.Times.{Times}
use nio.Api.Workload.{NixCronJob}
use nio.Api.Machine.{Machine}
use nio.Api.Cluster.{MemberStatus, NodeGroupStatus, NixCluster}
use nio.Api.Names.{
  finalizer_name, condition_ready, condition_stalled, cluster_blocked, cluster_degraded,
  reason_invalid_node_file, reason_builder_system_mismatch, reason_failed,
}
use nio.Render.Paths.{validate_additional_files}
use nio.Cluster.State.{
  ClusterHistory, ClusterStep, NixClusterReconciler, list_machines, get_cron, remove_cron,
  write_cluster, write_cluster_status,
}
use nio.Cluster.Groups.{Selection, nothing_selected, Outcome, reached, failed, select_groups}
use nio.Cluster.Status.{coarse_member_status, cluster_phase}
use nio.Cluster.Conditions.{put, set_conditions}
use nio.Cluster.Systems.{check_builder_covers_members}
use nio.Cluster.Converge.{
  converge_cron_name, desired_converge_cron_job, ensure_converge_cron_job,
  suspend_converge_cron_job,
}

-- Seconds.
abbrev pub cluster_requeue : ℕ
cluster_requeue = 30

abbrev pub update_cluster_copy : (NixCluster → NixCluster) → ClusterStep (Unit {0})
update_cluster_copy change = modify (λ s. record s { cluster = change s.cluster })

-- prevStatus[name]: of members with one name, the last; "" for none.
unfoldable pub status_in : List MemberStatus → String → String → String
status_in [] found name = found
status_in (m ∷ ms) found name = status_in ms (if m.name == name then m.status else found) name

unfoldable pub previous_status : List NodeGroupStatus → String → String → String
previous_status [] found name = found
previous_status (g ∷ gs) found name = previous_status gs (status_in g.members found name) name

-- The converge child that was observed. Without one the code has the zero object, of which nothing
-- is read: every use asks first whether there is a child.
abbrev pub observed : NixCluster → Result NixCronJob → NixCronJob × Bool
observed cluster (ok cron) = (cron, true)
observed cluster (err e) = (desired_converge_cron_job cluster [], false)

module _ (m : Meta) (t : Times) where
  abbrev members_with :
      NixCronJob × Bool → List NodeGroupStatus → List MemberStatus → List MemberStatus
  members_with (cron, have) previous [] = []
  members_with (cron, have) previous (x ∷ xs) =
      record x { status = coarse_member_status m t cron have (previous_status previous "" x.name) }
      ∷ members_with (cron, have) previous xs

  -- The loop that fills in the statuses of the members.
  unfoldable pub groups_with :
      NixCronJob × Bool → List NodeGroupStatus → List NodeGroupStatus → List NodeGroupStatus
  groups_with child previous [] = []
  groups_with child previous (g ∷ gs) =
      record g { members = members_with child previous g.members } ∷ groups_with child previous gs

  -- Everything that a successful reconcile writes into the status.
  unfoldable pub with_observed_child : NixCronJob × Bool → Selection → NixCluster → NixCluster
  with_observed_child (cron, have) sel cluster =
      let shown = record cluster {
        status = record cluster.status {
          node_groups = groups_with (cron, have) cluster.status.node_groups sel.group_statuses;
          converge_job_ref = converge_cron_name cluster.name;
          phase = cluster_phase m t cron have sel.total_members;
        };
      } in
      let conditioned = set_conditions m cron have sel.any_under sel.total_members shown in
      record conditioned {
        status = record conditioned.status { observed_generation = cluster.generation };
      }

module _ (m : Meta) where
  -- The status that `fail` records.
  unfoldable pub with_failure : String → String → Error → NixCluster → NixCluster
  with_failure phase reason cause cluster =
      put m condition_ready condition_false reason (message_of cause) (
        put m condition_stalled condition_true reason (message_of cause)
          (record cluster { status = record cluster.status { phase = phase } }))

module _ (r : NixClusterReconciler) where
  -- fail: the error of the status write is only logged.
  unfoldable pub fail_with : String → String → Error → ClusterStep Requeue
  fail_with phase reason cause = do
    update_cluster_copy (with_failure r.meta phase reason cause)
    _ ← attempt (write_cluster_status r)
    fail cause

  abbrev written : Result (Unit {0}) → ClusterStep Requeue
  written (ok _) = pure (requeue_in cluster_requeue)
  written (err e) = if is_conflict e then pure requeue_now else fail e

  -- From the Get of the converge child to the end.
  unfoldable pub report : Selection → ClusterStep Requeue
  report sel = do
    s ← get
    found ← attempt (get_cron r s.cluster.namespace (converge_cron_name s.cluster.name))
    update_cluster_copy (with_observed_child r.meta r.times (observed s.cluster found) sel)
    answer ← attempt (write_cluster_status r)
    written answer

  abbrev ensured : Selection → Result (Unit {0}) → ClusterStep Requeue
  ensured sel (ok _) = report sel
  ensured sel (err e) = fail_with cluster_degraded reason_failed e

  -- The builder preflight answered; the error of the suspension is only logged.
  abbrev pub preflighted : Selection → Result (Unit {0}) → ClusterStep Requeue
  preflighted sel (ok _) = do
    answer ← attempt (ensure_converge_cron_job r sel.node_files)
    ensured sel answer
  preflighted sel (err e) = do
    _ ← attempt (suspend_converge_cron_job r)
    fail_with cluster_blocked reason_builder_system_mismatch e

  abbrev validated : List Machine → Selection → Result (Unit {0}) → ClusterStep Requeue
  validated machines sel (err e) = fail_with cluster_blocked reason_invalid_node_file e
  validated machines sel (ok _) = do
    answer ← attempt (check_builder_covers_members r machines sel.group_statuses)
    preflighted sel answer

  abbrev pub selected : List Machine → Outcome Selection → ClusterStep Requeue
  selected machines (failed reason e) = fail_with cluster_blocked reason e
  selected machines (reached sel) =
      validated machines sel (validate_additional_files sel.node_files)

  -- A live cluster that has its finalizer.
  unfoldable pub reconcile_cluster : ClusterStep Requeue
  reconcile_cluster = do
    s ← get
    machines ← list_machines r s.cluster.namespace
    selected machines (
        select_groups r.as_selector machines s.cluster.name s.cluster.status.node_groups
          s.cluster.spec.node_groups nothing_selected)

  abbrev with_cluster_finalizer : NixCluster → NixCluster
  with_cluster_finalizer cluster = record cluster {
    finalizers = r.add_finalizer cluster.finalizers finalizer_name;
  }

  abbrev without_cluster_finalizer : NixCluster → NixCluster
  without_cluster_finalizer cluster = record cluster {
    finalizers = r.remove_finalizer cluster.finalizers finalizer_name;
  }

  abbrev release : Unit {0} → ClusterStep Requeue
  release _ = do
    s ← get
    if r.contains_finalizer s.cluster.finalizers finalizer_name
        then (do update_cluster_copy without_cluster_finalizer; write_cluster r; pure no_requeue)
        else pure no_requeue

  abbrev cron_removed : Result (Unit {0}) → ClusterStep Requeue
  cron_removed (ok _) = release tt
  cron_removed (err e) = if is_not_found e then release tt else fail e

  unfoldable pub reconcile_removing : ClusterStep Requeue
  reconcile_removing = do
    s ← get
    answer ← attempt (remove_cron r s.cluster.namespace (converge_cron_name s.cluster.name))
    cron_removed answer

  -- The cluster is not being deleted.
  unfoldable pub reconcile_present : ClusterStep Requeue
  reconcile_present = do
    s ← get
    if r.contains_finalizer s.cluster.finalizers finalizer_name
        then reconcile_cluster
        else (do update_cluster_copy with_cluster_finalizer; write_cluster r; reconcile_cluster)

  -- The cluster was found.
  unfoldable pub reconcile_found : ClusterStep Requeue
  reconcile_found = do
    s ← get
    if s.cluster.is_deleting then reconcile_removing else reconcile_present

  abbrev start : Result NixCluster → Result Requeue × ClusterHistory
  start (ok cluster) =
      let done = reconcile_found (record { cluster = cluster; history = [] }) in
      (done.0, done.1.history)
  start (err e) = (if is_not_found e then ok no_requeue else err e, [])

  -- Reconcile, by the namespace and the name of the request.
  unfoldable pub reconcile : String → String → Result Requeue × ClusterHistory
  reconcile ns name = start (r.client.get_cluster [] ns name)
