-- ===== src/Cluster/Proofs/Removal.antt =====
-- About reconcileRemoving: the converge child and the finalizer of a cluster.
use nio.Prelude.{
  String, true, [], ◌∷◌, Option, none, some, ◌≡◌, refl, arith, ◌⊎◌, sym, subst, if◌then◌else◌,
}
use nio.Kube.{Error, is_not_found, ok}
use nio.Api.Cluster.{NixCluster}
use nio.Cluster.State.{
  ClusterEvent, ClusterHistory, ClusterSt, NixClusterReconciler, update_cluster, delete_cron,
}
use nio.Cluster.Reconcile.{reconcile_removing, reconcile_present, reconcile_found, reconcile}
use nio.Cluster.Converge.{converge_cron_name}

-- The child is gone: its deletion succeeded, or it was not there.
abbrev pub IsGone : Option Error → Type 0
IsGone none = Unit
IsGone (some e) = is_not_found e ≡ true

-- A deletion, by that namespace and name, after which the child is gone.
abbrev pub DeletesChild : String → String → ClusterEvent → Type 0
DeletesChild ns name e = elim e.call [
  | delete_cron n m ↦ (n ≡ ns) × (m ≡ name) × IsGone e.failure
  | _ ↦ ⊥
]

abbrev pub HasDeleted : String → String → ClusterHistory → Type 0
HasDeleted ns name [] = ⊥
HasDeleted ns name (e ∷ h) = DeletesChild ns name e ⊎ HasDeleted ns name h

-- Every write of the cluster comes after the deletion of the child.
abbrev pub WritesAfter : String → String → ClusterHistory → Type 0
WritesAfter ns name [] = Unit
WritesAfter ns name (e ∷ h) =
    (elim e.call [ update_cluster c ↦ HasDeleted ns name h | _ ↦ Unit {0} ]) × WritesAfter ns name h

module _ (r : NixClusterReconciler) where
  removing-WritesAfter :
      (s : ClusterSt)
      → s.history ≡ []
      → WritesAfter s.cluster.namespace
          (converge_cron_name s.cluster.name)
          (reconcile_removing r s).1.history
  unfolding reconcile_removing
  removing-WritesAfter s e = ground arith

  found-WritesAfter :
      (s : ClusterSt)
      → s.history ≡ []
      → s.cluster.is_deleting ≡ true
      → WritesAfter s.cluster.namespace
          (converge_cron_name s.cluster.name)
          (reconcile_found r s).1.history
  unfolding reconcile_found
  found-WritesAfter s e deleting =
      subst
        (λ b.
          WritesAfter s.cluster.namespace (converge_cron_name s.cluster.name)
            ((if b then reconcile_removing r else reconcile_present r) s).1.history)
        (sym deleting) (removing-WritesAfter s e)

  -- A reconcile of a cluster that is being deleted writes the cluster (without its finalizer) only
  -- after it deleted the cluster's converge child, or found that there is none.
  pub reconcile-WritesAfter :
      (ns name : String) (cluster : NixCluster)
      → r.client.get_cluster [] ns name ≡ ok cluster
      → cluster.is_deleting ≡ true
      → WritesAfter cluster.namespace (converge_cron_name cluster.name) (reconcile r ns name).1
  unfolding reconcile
  reconcile-WritesAfter ns name cluster found deleting =
      rw found (found-WritesAfter (record { cluster = cluster; history = [] }) refl deleting)
