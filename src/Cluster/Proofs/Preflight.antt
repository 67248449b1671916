-- ===== src/Cluster/Proofs/Preflight.antt =====
-- About checkBuilderCoversMembers: a member that the builder provably cannot build for.
use Prim.Native.String.{◌++◌}
use nio.Prelude.{String, true, false, List, ◌∷◌, Option, some, ◌≡◌, ◌==◌, if◌then◌else◌}
use mathlib.Core.List.{Memᴰ}
use nio.Prelude.Members.{contains}
use nio.Kube.{Error, Result, ok, err, Requeue}
use nio.Api.Machine.{Machine}
use nio.Api.Workload.{NixCronJob}
use nio.Api.Cluster.{NixCluster, MemberStatus, NodeGroupStatus}
use nio.Api.Names.{cluster_blocked}
use nio.Cluster.State.{
  ClusterEvent, ClusterSt, NixClusterReconciler, update_cluster_status, update_cron,
}
use nio.Cluster.Systems.{nix_system_for_arch, machine_named}

-- A selected member whose machine has reported an architecture that the systems do not cover.
pub record IsUncovered (machines : List Machine) (systems : List String)
    (groups : List NodeGroupStatus) : Type 0 where
  pub group : NodeGroupStatus
  pub member : MemberStatus
  pub machine : Machine
  pub arch : String
  pub in_groups : Memᴰ group groups
  pub in_group : Memᴰ member group.members
  pub named : machine_named machines member.name ≡ some machine
  pub reported : machine.status.architecture ≡ some arch
  pub known : (nix_system_for_arch arch == "") ≡ false
  pub unsupported : contains systems (nix_system_for_arch arch) ≡ false

-- By what the Get of the converge child answers: one update call, of the child that was read, with
-- only its suspension set, when it is not suspended yet; and else no call.
abbrev pub Pauses : Result NixCronJob → List ClusterEvent → List ClusterEvent → Type 0
Pauses (err e) before after = after ≡ before
Pauses (ok found) before after =
    if found.spec.nix.suspend
    then after ≡ before
    else ((failure : Option Error) × (after
          ≡ record {
            call = update_cron (record found {
              spec = record found.spec { nix = record found.spec.nix { suspend = true } };
            });
            failure = failure;
          }
            ∷ before))

module _ (r : NixClusterReconciler) where
  -- An error; the calls pause the child of the cluster's name, and then write one status.
  pub record IsStopped (s : ClusterSt) (answer : Result Requeue × ClusterSt) : Type 0 where
    pub cause : Error
    pub answered : answer.0 ≡ err cause
    pub paused : List ClusterEvent
    pub pauses :
        Pauses
          (r.client.get_cron s.history s.cluster.namespace (s.cluster.name ++ "-converge"))
          s.history
          paused
    pub written : NixCluster
    pub failure : Option Error
    pub calls :
        answer.1.history
        ≡ record { call = update_cluster_status written; failure = failure } ∷ paused
    pub phase : written.status.phase ≡ cluster_blocked

  -- The one call of a failure.
  abbrev Fails : String → List ClusterEvent → List ClusterEvent → Type 0
  Fails phase before after =
      (written : NixCluster) × (failure : Option Error) × (after
        ≡ record { call = update_cluster_status written; failure = failure } ∷ before)
      × (written.status.phase ≡ phase)
